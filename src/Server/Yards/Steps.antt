-- ===== src/Server/Yards/Steps.antt =====
-- What the steps of a terminal of src/terminal/terminal.cpp keep, the server keeps of each terminal.
use terminal_sim.Prelude.{
  ◌≡◌, ℕ, true, false, List, [], Text, text_eq, Bool-cases, if_elim, inl, inr,
}
use terminal_sim.Prelude.Maps
use terminal_sim.Common.{Mode, Side}
use terminal_sim.Real.{Real}
use terminal_sim.Reply.{Reply, Reply-cases, ok}
use terminal_sim.Network.Runs.{new_network}
use terminal_sim.Terminal.{Batch, Env, Semantics, Terminal}
use terminal_sim.Terminal.Arrivals.{Draws}
use terminal_sim.Terminal.Reservations.Steps.{
  Step, all_arrive, arrives, commits, dequeues, releases, reserves, resets, serves, updates,
}
use terminal_sim.Terminal.Batches.{is_empty}
use terminal_sim.Network.Parsing.{is_nil}
use terminal_sim.Terminal.Results.{clear_terminal_execution_results}
use terminal_sim.Server.{SelectionCriteria, Setting}
use terminal_sim.Server.Messages.{Moment, serve}
use terminal_sim.Server.Messages.Terminals.{AllTerminals}
use terminal_sim.Server.Messages.Terminals.Kept.{serve-AllTerminals}
use terminal_sim.Server.Messages.Terminals.Methods.{IsKept}
use terminal_sim.Server.Yards.{
  Output, add_containers_from_json, containers_in, host_of_terminals, with_draws, with_terminals,
  yard_of_terminals,
}

module _ {C S K Q T : Type 0} ⦃r : Real T⦄ (env : Env C S (SelectionCriteria K Q T) T)
    (out : Output C S K Q T) (draw : Terminal C S T → ℕ → Draws T)
    (s : Setting C (Terminal C S T) K Q T) (P : Terminal C S T → Type 0)
    (made : (name display : Text) (sides : List (Side × List Mode)) (config : List (Text × Q))
        (t : Terminal C S T)
      → s.host.create name display sides config ≡ ok t
      → P t)
    (step_keeps : (t u : Terminal C S T) → Step env t u → P t → P u)
    (noted : (t : Terminal C S T) (b : List (Text × List (Batch T)))
      → P t
      → P (record t { batches = b })) where
  clears_results-P :
      (execution : Text) (t : Terminal C S T)
      → P t
      → P (clear_terminal_execution_results execution t).0
  unfolding clear_terminal_execution_results
  clears_results-P execution t k = elim (Bool-cases (is_empty execution)) [
    | inl all ↦ rw (all, clear_terminal_execution_results) (noted t [] k)
    | inr one ↦
        rw (one, clear_terminal_execution_results) (noted t (Maps.remove execution t.batches) k)
  ]

  adds_json-P :
      (o : List (Text × Q)) (time : T) (mode : Mode) (semantics : Semantics) (t : Terminal C S T)
      → P t
      → P (add_containers_from_json env out draw s o time mode semantics t).0
  unfolding add_containers_from_json
  adds_json-P o time mode semantics t k = elim (Reply-cases (containers_in env out draw s o)) [
    | inr (f, failed) ↦ rw (failed, add_containers_from_json) k
    | inl (cs, read) ↦
        rw (read, add_containers_from_json)
          (if_elim (λ (step : Terminal C S T × Reply (Unit {0})). P step.0) (is_nil cs) (λ _. k)
            (λ _.
              step_keeps t _ (all_arrive (with_draws env out draw s t 0 cs) time mode semantics t)
                k))
  ]

  terminals-IsKept : IsKept (with_terminals env out draw s) P
  unfolding with_terminals host_of_terminals yard_of_terminals
  terminals-IsKept = record {
    made = made;
    reset = λ t k. step_keeps t _ (resets true t) k;
    adds =
        λ c time mode semantics t k. step_keeps t _ (arrives (draw t 0) c time mode semantics t) k;
    adds_all = λ cs time mode semantics t k. step_keeps t _ (all_arrive _ time mode semantics t) k;
    adds_json = adds_json-P;
    dequeues_to = λ d time t k. step_keeps t _ (serves t _ (dequeues _ time t)) k;
    dequeues = λ c time t k. step_keeps t _ (serves t _ (dequeues _ time t)) k;
    reserves = λ id c t k. step_keeps t _ (serves t _ (reserves id _ t)) k;
    commits = λ id time t k. step_keeps t _ (serves t _ (commits id time t)) k;
    releases = λ id t k. step_keeps t _ (serves t _ (releases id t)) k;
    clears = λ t k. step_keeps t _ (resets false t) k;
    updates = λ now step t k. step_keeps t _ (updates now step t) k;
    clears_results = clears_results-P;
  }

  -- A property of every terminal that is made, which each step keeps, holds of each terminal of the
  -- network after whatever messages.
  pub serve-P :
      (server : Text) (messages : List (Moment × List (Text × Q)))
      → AllTerminals P (
          serve (with_terminals env out draw s) server messages (
            new_network
              (with_terminals env out draw s).host
              (with_terminals env out draw s).variant
              (with_terminals env out draw s).qt))
  serve-P server messages =
      serve-AllTerminals (with_terminals env out draw s) P terminals-IsKept server messages
