-- ===== src/Server/Queries.antt =====
-- The commands of src/server/command_processor.cpp that go through a list of terminals.
use terminal_sim.Prelude.{
  true, false, ℕ, ◌+◌, not, some, List, [], ◌∷◌, ◌++◌, Text, text, text_eq, if◌then◌else◌, length,
}
use terminal_sim.Prelude.Int.{pos}
use terminal_sim.Real.{Real}
use terminal_sim.Reply.{Reply, ok, throws, require, ◌>>=◌, ◌>>◌}
use terminal_sim.Network.{Network}
use terminal_sim.Network.Parsing.{is_nil}
use terminal_sim.Network.Terminals.{get_terminal}
use terminal_sim.Server.{Handler, Setting}
use terminal_sim.Server.Graphs.{all_names, answer}
use terminal_sim.Server.Params.{items_at, text_at}
use terminal_sim.Server.Terminals.{updated, with_terminal}

module _ {C H K Q T : Type 0} ⦃r : Real T⦄ (s : Setting C H K Q T) where
  open s use {variant, json, yard}

  -- The texts of a list that are not empty.
  unfoldable pub given_texts : List Q → List Text
  given_texts [] = []
  given_texts (value ∷ values) =
      let rest = given_texts values in
      if is_nil (variant.to_text value) then rest else variant.to_text value ∷ rest

  -- What each terminal answers, one list after the other.
  unfoldable pub collect : (H → List Q) → List Text → Network H Q T → Reply (List Q)
  collect method [] n = ok []
  collect method (id ∷ ids) n = do
    h ← get_terminal n id
    rest ← collect method ids n
    ok (method h ++ rest)

  -- `get_terminals_runtime_state` and `get_terminals_runtime_projections`.
  unfoldable pub handle_runtime : (H → Q) → Handler H Q T
  handle_runtime method params n =
      let ids = items_at s params (text "terminal_ids") in
      (
        n,
        some do
          require (not (is_nil ids))
          results ← collect (λ h. method h ∷ []) (given_texts ids) n
          ok (
              variant.of_entries (
                (text "terminals_requested", json.of_int (pos (length ids)))
                ∷ (text "results", json.of_list results)
                ∷ [])),
      )

  -- The terminals that the parameters list, all of them if the list is empty.
  unfoldable pub selected_terminals : List (Text × Q) → Network H Q T → List Text
  selected_terminals params n =
      let ids = items_at s params (text "terminal_ids") in
      if is_nil ids then all_names s n else given_texts ids

  unfoldable pub handle_execution_results : Handler H Q T
  handle_execution_results params n =
      let execution = text_at s params (text "execution_id") in
      let keys = given_texts (items_at s params (text "canonical_path_keys")) in
      (
        n,
        some do
          results ← collect (yard.execution_results execution keys) (selected_terminals params n) n
          ok (
              variant.of_entries (
                (text "execution_id", json.of_text execution)
                ∷ (text "results", json.of_list results)
                ∷ [])),
      )

  -- The loop of `clear_terminal_execution_results`, on the number of records so far.
  unfoldable pub clear_each : Text → List Text → ℕ → Network H Q T → Network H Q T × Reply ℕ
  clear_each execution [] cleared n = (n, ok cleared)
  clear_each execution (id ∷ ids) cleared n =
      elim (get_terminal n id) as (λ _. Network H Q T × Reply ℕ) [
        | throws f ↦ (n, throws f)
        | ok h ↦
            let step = yard.clear_execution_results execution h in
            clear_each execution ids (cleared + step.1) (with_terminal id step.0 n)
      ]

  unfoldable pub handle_clear_execution_results : Handler H Q T
  handle_clear_execution_results params n =
      let execution = text_at s params (text "execution_id") in
      let ids = selected_terminals params n in
      answer
        (λ cleared. variant.of_entries (
          (text "execution_id", json.of_text execution)
          ∷ (text "terminals_cleared", json.of_int (pos (length ids)))
          ∷ (text "records_cleared", json.of_int (pos cleared))
          ∷ []))
        (clear_each execution ids 0 n)

  -- The loop of `update_all_terminals_sd`, on the results so far.
  unfoldable pub update_each :
      List (Text × Q) → List Text → List Q → Network H Q T → Network H Q T × Reply (List Q)
  update_each params [] results n = (n, ok results)
  update_each params (name ∷ names) results n =
      elim (get_terminal n name) as (λ _. Network H Q T × Reply (List Q)) [
        | throws f ↦ (n, throws f)
        | ok h ↦
            let step = updated s params h in
            let result = variant.of_entries (
              (text "terminal_id", json.of_text name)
              ∷ (text "state", yard.dynamics_state step.0)
              ∷ []) in
            elim (yard.dynamics_enabled h) as (λ _. Network H Q T × Reply (List Q)) [
              | false ↦ update_each params names results n
              | true ↦ elim step.1 as (λ _. Network H Q T × Reply (List Q)) [
                | throws f ↦ (with_terminal name step.0 n, throws f)
                | ok _ ↦
                    update_each params names (results ++ result ∷ []) (with_terminal name step.0 n)
              ]
            ]
      ]

  unfoldable pub handle_update_all : Handler H Q T
  handle_update_all params n =
      answer
        (λ results. variant.of_entries (
          (text "terminals_updated", json.of_int (pos (length results)))
          ∷ (text "results", json.of_list results)
          ∷ []))
        (update_each params (all_names s n) [] n)
