-- ===== src/Server/Terminals.antt =====
-- The commands of src/server/command_processor.cpp on one terminal.
use mathlib.Core.Option
use terminal_sim.Prelude.{
  Bool, true, not, ◌&&◌, Option, none, some, List, [], ◌∷◌, Text, text, text_eq, if◌then◌else◌,
}
use terminal_sim.Prelude.Maps
use terminal_sim.Prelude.Int.{ℤ}
use terminal_sim.Common.{Mode}
use terminal_sim.Real.{Real}
use terminal_sim.Reply.{Reply, ok, throws, require, or_throw, ◌>>=◌, ◌>>◌}
use terminal_sim.Terminal.{Semantics}
use terminal_sim.Network.{Network, canonical_name}
use terminal_sim.Network.Parsing.{is_nil}
use terminal_sim.Network.Terminals.{get_terminal}
use terminal_sim.Server.{Handler, SelectionCriteria, Setting}
use terminal_sim.Server.Params.{
  arrival_semantics_from_params, chosen, double_at, items_at, no_time, operation_time_from_params,
  optional_mode, selection_criteria_from_params, text_at, value_at,
}

-- The network after a method of the terminal with a name has run.
abbrev pub with_terminal : {H Q T : Type 0} → Text → H → Network H Q T → Network H Q T
with_terminal name h n = record n { terminals = Maps.insert (canonical_name n name) h n.terminals }

-- `terminal->addContainer(...)` and what it is called with.
pub record Arrival (A T : Type 0) : Type 0 where
  pub arrived : A
  pub time : T
  pub mode : Mode
  pub semantics : Semantics

module _ {C H K Q T : Type 0} ⦃r : Real T⦄ (s : Setting C H K Q T) where
  open s use {variant, qt, json, library, yard, host}

  -- `getTerminalFromParams`.
  unfoldable pub get_terminal_from_params : List (Text × Q) → Network H Q T → Reply H
  get_terminal_from_params params n = do
    require (not (is_nil (text_at s params (text "terminal_id"))))
    get_terminal n (text_at s params (text "terminal_id"))

  -- A command that asks a terminal: the tests of its parameters, the terminal, what is read of the
  -- parameters after it, and the method.
  unfoldable pub ask_terminal : {A : Type 0} → Bool → Reply A → (A → H → Reply Q) → Handler H Q T
  ask_terminal holds parsed method params n =
      (n, some do require holds; h ← get_terminal_from_params params n; a ← parsed; method a h)

  -- What comes before the method of a command that changes a terminal.
  unfoldable pub begin_command :
      {A : Type 0} → Bool → Reply A → List (Text × Q) → Network H Q T → Reply (H × A)
  begin_command holds parsed params n = do
    require holds
    h ← get_terminal_from_params params n
    a ← parsed
    ok (h, a)

  -- The same, of a method that changes the terminal.
  unfoldable pub change_terminal :
      {A : Type 0} → Bool → Reply A → (A → H → H × Reply Q) → Handler H Q T
  change_terminal holds parsed method params n =
      elim (begin_command holds parsed params n) as (λ _. Network H Q T × Option (Reply Q)) [
        | throws f ↦ (n, some (throws f))
        | ok (h, a) ↦ (
          with_terminal (text_at s params (text "terminal_id")) (method a h).0 n,
          some (method a h).1,
        )
      ]

  abbrev has_text : List (Text × Q) → Text → Bool
  has_text params key = not (is_nil (text_at s params key))

  abbrev has_terminal : List (Text × Q) → Bool
  has_terminal params = has_text params (text "terminal_id")

  abbrev done : H × Reply (Unit {0}) → H × Reply Q
  done step = (step.0, step.1 >>= λ _. ok (json.of_bool true))

  -- The object of `container`: JSON text, or a map.
  unfoldable pub container_object : Q → Reply (List (Text × Q))
  container_object value =
      if json.converts_to_text value
      then or_throw (json.parse_object (variant.to_text value))
      else or_throw (variant.entries value)

  -- The arrival of what was read, at the time and in the mode of the parameters.
  unfoldable pub arrival_of : {A : Type 0} → List (Text × Q) → Reply A → Reply (Arrival A T)
  arrival_of params arrived = do
    a ← arrived
    mode ← optional_mode s params (text "arrival_mode") Mode.any
    semantics ← arrival_semantics_from_params s params
    ok (record {
      arrived = a;
      time = double_at s params (text "adding_time") (no_time s);
      mode = mode;
      semantics = semantics;
    })

  -- `handleAddContainer`.
  unfoldable pub handle_add_container : Handler H Q T
  handle_add_container params =
      change_terminal (has_terminal params && Maps.has (text "container") params)
        (arrival_of params
          (container_object (value_at s params (text "container")) >>= λ o. library.of_object o))
        (λ a h. done (yard.add_container a.arrived a.time a.mode a.semantics h)) params

  -- The containers of a JSON array, without the items that are no objects.
  unfoldable pub listed_objects : List Q → Reply (List C)
  listed_objects [] = ok []
  listed_objects (value ∷ values) = elim (variant.entries value) as (λ _. Reply (List C)) [
    | some o ↦ library.of_object o >>= λ c. listed_objects values >>= λ cs. ok (c ∷ cs)
    | none ↦ listed_objects values
  ]

  -- An item that is no map is parsed as JSON text, and what is no object counts as an empty one.
  abbrev item_object : Q → Reply C
  item_object value = elim (variant.entries value) as (λ _. Reply C) [
    | some o ↦ library.of_object o
    | none ↦ library.of_object (Option.get_or (json.parse_object (variant.to_text value)) [])
  ]

  unfoldable pub item_objects : List Q → Reply (List C)
  item_objects [] = ok []
  item_objects (value ∷ values) =
      item_object value >>= λ c. item_objects values >>= λ cs. ok (c ∷ cs)

  unfoldable pub containers_of : Q → Reply (List C)
  containers_of value =
      if variant.is_text value
      then elim (json.parse_object (variant.to_text value)) as (λ _. Reply (List C)) [
        | none ↦ ok []
        | some o ↦ listed_objects (items_at s o (text "containers"))
      ]
      else item_objects (Option.get_or (variant.items value) [])

  unfoldable pub handle_add_containers : Handler H Q T
  handle_add_containers params =
      change_terminal (has_terminal params)
        (arrival_of params (containers_of (value_at s params (text "containers"))))
        (λ a h. done (yard.add_containers a.arrived a.time a.mode a.semantics h)) params

  unfoldable pub handle_add_containers_from_json : Handler H Q T
  handle_add_containers_from_json params =
      change_terminal (has_terminal params && has_text params (text "containers_json"))
        (arrival_of params
          (or_throw (json.parse_object (text_at s params (text "containers_json")))))
        (λ a h. done (yard.add_containers_from_json a.arrived a.time a.mode a.semantics h)) params

  unfoldable pub handle_get_by_departing_time : Handler H Q T
  handle_get_by_departing_time params =
      ask_terminal (has_terminal params) (ok tt)
        (λ _ h.
          yard.by_departing_time (double_at s params (text "departing_time") (r.of_nat 0))
            (if Maps.has (text "condition") params
              then text_at s params (text "condition")
              else text "<")
            h)
        params

  unfoldable pub handle_get_by_added_time : Handler H Q T
  handle_get_by_added_time params =
      ask_terminal (has_terminal params && has_text params (text "condition")) (ok tt)
        (λ _ h.
          yard.by_added_time (double_at s params (text "added_time") (r.of_nat 0))
            (text_at s params (text "condition")) h)
        params

  unfoldable pub handle_get_by_next_destination : Handler H Q T
  handle_get_by_next_destination params =
      ask_terminal (has_terminal params && has_text params (text "destination")) (ok tt)
        (λ _ h. yard.by_next_destination (text_at s params (text "destination")) h) params

  unfoldable pub handle_get_containers : Handler H Q T
  handle_get_containers params =
      ask_terminal (has_terminal params) (selection_criteria_from_params s params) yard.containers
        params

  unfoldable pub handle_dequeue_by_next_destination : Handler H Q T
  handle_dequeue_by_next_destination params =
      change_terminal (has_terminal params && has_text params (text "destination"))
        (operation_time_from_params s params)
        (yard.dequeue_by_next_destination (text_at s params (text "destination"))) params

  -- The criteria of the parameters and the time of the operation.
  unfoldable pub selection_and_time : List (Text × Q) → Reply (SelectionCriteria K Q T × T)
  selection_and_time params = do
    criteria ← selection_criteria_from_params s params
    time ← operation_time_from_params s params
    ok (criteria, time)

  unfoldable pub handle_dequeue : Handler H Q T
  handle_dequeue params =
      change_terminal (has_terminal params) (selection_and_time params)
        (λ a h. yard.dequeue a.0 a.1 h) params

  unfoldable pub reservation_id : List (Text × Q) → Text
  reservation_id params =
      variant.to_text (chosen s params (text "reservation_id" ∷ text "reservationId" ∷ []))

  abbrev has_reservation : List (Text × Q) → Bool
  has_reservation params = has_terminal params && not (is_nil (qt.trimmed (reservation_id params)))

  unfoldable pub handle_reserve : Handler H Q T
  handle_reserve params =
      change_terminal (has_reservation params) (selection_criteria_from_params s params)
        (yard.reserve (reservation_id params)) params

  unfoldable pub handle_commit : Handler H Q T
  handle_commit params =
      change_terminal (has_reservation params) (operation_time_from_params s params)
        (yard.commit (reservation_id params)) params

  unfoldable pub handle_release : Handler H Q T
  handle_release params =
      change_terminal (has_reservation params) (ok tt)
        (λ _ h. yard.release (reservation_id params) h) params

  -- `get_container_count`, `get_available_capacity` and `get_max_capacity`.
  unfoldable pub handle_count : (H → ℤ) → Handler H Q T
  handle_count count params =
      ask_terminal (has_terminal params) (ok tt) (λ _ h. ok (json.of_int (count h))) params

  unfoldable pub handle_clear_terminal : Handler H Q T
  handle_clear_terminal params =
      change_terminal (has_terminal params) (ok tt) (λ _ h. done (yard.clear h)) params

  -- The time of the parameters and the step, an hour if there is none.
  abbrev pub updated : List (Text × Q) → H → H × Reply (Unit {0})
  updated params h =
      yard.update_dynamics (double_at s params (text "current_time") (r.of_nat 0))
        (double_at s params (text "delta_t") (r.of_nat 3600)) h

  unfoldable pub handle_update_dynamics : Handler H Q T
  handle_update_dynamics params =
      change_terminal (has_terminal params) (ok tt)
        (λ _ h. (
          (updated params h).0,
          (updated params h).1 >>= λ _. ok (yard.dynamics_state (updated params h).0),
        ))
        params

  unfoldable pub handle_get_dynamics : Handler H Q T
  handle_get_dynamics params =
      ask_terminal (has_terminal params) (ok tt) (λ _ h. ok (yard.dynamics_state h)) params
