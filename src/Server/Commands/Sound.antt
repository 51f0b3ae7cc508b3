-- ===== src/Server/Commands/Sound.antt =====
-- What the commands of src/server/command_processor.cpp do to the invariant of the network.
use terminal_sim.Prelude.{
  Bool-cases, ◌≡◌, sym, subst, inl, inr, ℕ, suc, ◌+◌, Bool, true, Option, List, [], ◌∷◌, ◌&&◌, not,
  nat_eq, Option-cases, Text, text_eq, arith, if◌then◌else◌, ◌==◌, if_elim,
}
use terminal_sim.Prelude.Maps
use terminal_sim.Common.{Mode}
use terminal_sim.Real.{Real}
use terminal_sim.Reply.{Reply, ok, throws, Reply-cases, >>=-ok, require-ok}
use terminal_sim.Network.{Network, canonical_name, terminal_exists}
use terminal_sim.Network.Invariant.{IsSound}
use terminal_sim.Network.Invariant.Routed.{update_graph-IsSound}
use terminal_sim.Network.Routes.{update_graph}
use terminal_sim.Network.Runs.{
  Step, Step-IsSound, adds_alias, adds_route, adds_routes, adds_terminal, adds_terminals, clears,
  removes, resets, resets_configuration, sets_costs, terminals-IsSound,
}
use terminal_sim.Network.Search.{find_shortest_path, find_top_n_shortest_paths}
use terminal_sim.Network.Terminals.{clear, get_terminal}
use terminal_sim.Server.{Handler, Setting}
use terminal_sim.Server.Commands.Registry.{AllHandlers, AllHandlers-lookup, ◌&◌, none_left}
use terminal_sim.Server.Commands.{deserialize_params, handlers, nesting_of, process_command}
use terminal_sim.Server.Graphs.{
  after, handle_add_alias, handle_add_route, handle_add_routes, handle_add_terminal,
  handle_add_terminals, handle_find_shortest_path, handle_find_top_paths, handle_get_aliases,
  handle_get_terminal, handle_ping, handle_remove_terminal, handle_reset_runtime_state,
  handle_reset_server, handle_set_costs, handle_terminal_count, handle_terminal_status,
}
use terminal_sim.Server.Queries.{
  clear_each, handle_clear_execution_results, handle_execution_results, handle_runtime,
  handle_update_all, update_each,
}
use terminal_sim.Server.Terminals.{
  ask_terminal, begin_command, change_terminal, get_terminal_from_params, handle_add_container,
  handle_add_containers, handle_add_containers_from_json, handle_clear_terminal, handle_commit,
  handle_count, handle_dequeue, handle_dequeue_by_next_destination, handle_get_by_added_time,
  handle_get_by_departing_time, handle_get_by_next_destination, handle_get_containers,
  handle_get_dynamics, handle_release, handle_reserve, handle_update_dynamics, with_terminal,
  updated,
}

-- A handler that keeps the invariant.
abbrev Keeps : {H Q T : Type 0} → Handler H Q T → Type 0
Keeps {H} {Q} {T} handler =
    (params : List (Text × Q)) (n : Network H Q T) → IsSound n → IsSound (handler params n).0

after-IsSound :
    {H Q T A : Type 0} (n : Network H Q T) (m : Reply A)
    (next : A → Network H Q T × Option (Reply Q))
    → IsSound n
    → ((a : A) → IsSound (next a).0)
    → IsSound (after n m next).0
after-IsSound n (throws f) next k h = k
after-IsSound n (ok a) next k h = h a

-- A name that leads to a terminal.
get_terminal-has :
    {H Q T : Type 0} (n : Network H Q T) (name : Text) {h : H}
    → get_terminal n name ≡ ok h
    → Maps.has (canonical_name n name) n.terminals ≡ true
unfolding get_terminal
get_terminal-has n name e = ground (arith, Maps.has-lookup (canonical_name n name) n.terminals)

module _ {C H K Q T : Type 0} ⦃r : Real T⦄ (s : Setting C H K Q T) where
  open s use {variant, json, host, yard, qt, text_lt, encoding}

  -- A terminal of the network changes in its place.
  with_terminal-IsSound :
      (name : Text) (h h' : H) (n : Network H Q T)
      → get_terminal n name ≡ ok h
      → IsSound n
      → IsSound (with_terminal name h' n)
  with_terminal-IsSound name h h' n e k =
      terminals-IsSound host variant qt n (Maps.insert (canonical_name n name) h' n.terminals)
        (λ y.
          Maps.has-insert_present (canonical_name n name) y h' n.terminals
            (get_terminal-has n name e))
        k

  change_terminal-Keeps :
      {A : Type 0} (holds : Bool) (parsed : Reply A) (method : A → H → H × Reply Q)
      → Keeps (change_terminal s holds parsed method)
  unfolding change_terminal begin_command get_terminal_from_params
  change_terminal-Keeps holds parsed method params n k =
      elim (Reply-cases (begin_command s holds parsed params n)) [
        | inr (f, failed) ↦ rw (failed, change_terminal) k
        | inl ((h, a), begun) ↦
            rw (begun, change_terminal)
              (let (_, e1) = require-ok _ _ begun in
                let (h', found, e2) = >>=-ok (get_terminal_from_params s params n) _ e1 in
                let (_, e3) = require-ok _ _ found in
                with_terminal-IsSound _ h' (method a h).0 n e3 k)
      ]

  -- A search leaves the network that `updateGraph` leaves, or the one it found.
  pub find_shortest_path-first :
      (start end : Text) (mode : Mode) (n : Network H Q T)
      → (find_shortest_path variant qt text_lt start end mode n).0 ≡ (
          if terminal_exists n start && terminal_exists n end
          then (update_graph variant qt mode n).0
          else n)
  unfolding find_shortest_path
  find_shortest_path-first start end mode n = ground arith

  pub find_top-first :
      (start end : Text) (top : ℕ) (mode : Mode) (skip : Bool) (n : Network H Q T)
      → (find_top_n_shortest_paths variant qt text_lt encoding start end top mode skip n).0 ≡ (
          if not (top == 0) && (terminal_exists n start && terminal_exists n end)
          then (update_graph variant qt mode n).0
          else n)
  unfolding find_top_n_shortest_paths
  find_top-first start end top mode skip n = ground arith

  find_shortest_path-IsSound :
      (start end : Text) (mode : Mode) (n : Network H Q T)
      → IsSound n
      → IsSound (find_shortest_path variant qt text_lt start end mode n).0
  find_shortest_path-IsSound start end mode n k =
      subst IsSound (sym (find_shortest_path-first start end mode n))
        (if_elim IsSound _ (λ _. update_graph-IsSound variant qt mode n k) (λ _. k))

  find_top-IsSound :
      (start end : Text) (top : ℕ) (mode : Mode) (skip : Bool) (n : Network H Q T)
      → IsSound n
      → IsSound (find_top_n_shortest_paths variant qt text_lt encoding start end top mode skip n).0
  find_top-IsSound start end top mode skip n k =
      subst IsSound (sym (find_top-first start end top mode skip n))
        (if_elim IsSound _ (λ _. update_graph-IsSound variant qt mode n k) (λ _. k))

  clear_each-IsSound :
      (execution : Text) (ids : List Text) (cleared : ℕ) (n : Network H Q T)
      → IsSound n
      → IsSound (clear_each s execution ids cleared n).0
  unfolding clear_each
  clear_each-IsSound execution [] cleared n k = k
  clear_each-IsSound execution (id ∷ ids) cleared n k = elim (Reply-cases (get_terminal n id)) [
    | inr (f, missing) ↦ rw (missing, clear_each) k
    | inl (h, found) ↦
        let step = yard.clear_execution_results execution h in
        rw (found, clear_each)
          (clear_each-IsSound execution ids (cleared + step.1) (with_terminal id step.0 n)
            (with_terminal-IsSound id h step.0 n found k))
  ]

  update_each-IsSound :
      (params : List (Text × Q)) (names : List Text) (results : List Q) (n : Network H Q T)
      → IsSound n
      → IsSound (update_each s params names results n).0
  unfolding update_each
  update_each-IsSound params [] results n k = k
  update_each-IsSound params (name ∷ names) results n k = elim (Reply-cases (get_terminal n name)) [
    | inr (f, missing) ↦ rw (missing, update_each) k
    | inl (h, found) ↦
        let there = with_terminal-IsSound name h (updated s params h).0 n found k in
        elim (Bool-cases (yard.dynamics_enabled h)) [
          | inr off ↦ rw (found, update_each, off) (update_each-IsSound params names results n k)
          | inl on ↦ elim (Reply-cases (updated s params h).1) [
            | inr (f, failed) ↦ rw (found, update_each, on, failed) there
            | inl (u, done) ↦
                rw (found, update_each, on, done) (update_each-IsSound params names _ _ there)
          ]
        ]
  ]

  -- Every handler that is registered keeps the invariant.
  handlers-Keeps : (now : Text) → AllHandlers (λ entry. Keeps entry.1) (handlers s now)
  unfolding handlers handle_ping handle_reset_server handle_set_costs handle_add_terminal
      handle_add_terminals handle_add_alias handle_get_aliases handle_remove_terminal
      handle_terminal_count handle_terminal_status handle_get_terminal handle_add_route
      handle_add_routes handle_find_shortest_path handle_find_top_paths handle_add_container
      handle_add_containers handle_add_containers_from_json handle_get_by_departing_time
      handle_get_by_added_time handle_get_by_next_destination handle_get_containers
      handle_dequeue_by_next_destination handle_dequeue handle_reserve handle_commit handle_release
      handle_count handle_clear_terminal handle_reset_runtime_state handle_update_dynamics
      handle_get_dynamics handle_update_all handle_runtime handle_execution_results
      handle_clear_execution_results ask_terminal
  handlers-Keeps now =
      let changes = λ (n m : Network H Q T) (step : Step host variant qt n m) (k : IsSound n).
        Step-IsSound host variant qt n m step k in
      (λ _ n k. k)
      & (λ _ n k. changes _ _ (resets_configuration (clear n)) (changes _ _ (clears n) k))
      & (λ _ n k. after-IsSound n _ _ k (λ costs. changes _ _ (sets_costs costs n) k))
      & (λ params n k. changes _ _ (adds_terminal params n) k)
      & (λ _ n k. after-IsSound n _ _ k (λ each. changes _ _ (adds_terminals each n) k))
      & (λ _ n k. after-IsSound n _ _ k (λ _. changes _ _ (adds_alias _ _ n) k))
      & (λ _ n k. k)
      & (λ _ n k. after-IsSound n _ _ k (λ _. changes _ _ (removes _ n) k))
      & (λ _ n k. k)
      & (λ _ n k. k)
      & (λ _ n k. after-IsSound n _ _ k (λ _. k))
      & (λ _ n k. after-IsSound n _ _ k (λ route. changes _ _ (adds_route route n) k))
      & (λ _ n k. after-IsSound n _ _ k (λ each. changes _ _ (adds_routes each n) k))
      & (λ _ n k. after-IsSound n _ _ k (λ mode. find_shortest_path-IsSound _ _ mode n k))
      & (λ _ n k. after-IsSound n _ _ k (λ mode. find_top-IsSound _ _ _ mode _ n k))
      & (λ params. change_terminal-Keeps _ _ _ params)
      & (λ params. change_terminal-Keeps _ _ _ params)
      & (λ params. change_terminal-Keeps _ _ _ params)
      & (λ _ n k. k)
      & (λ _ n k. k)
      & (λ _ n k. k)
      & (λ _ n k. k)
      & (λ params. change_terminal-Keeps _ _ _ params)
      & (λ params. change_terminal-Keeps _ _ _ params)
      & (λ params. change_terminal-Keeps _ _ _ params)
      & (λ params. change_terminal-Keeps _ _ _ params)
      & (λ params. change_terminal-Keeps _ _ _ params)
      & (λ _ n k. k)
      & (λ _ n k. k)
      & (λ _ n k. k)
      & (λ params. change_terminal-Keeps _ _ _ params)
      & (λ _ n k. changes _ _ (resets _ n) k)
      & (λ params. change_terminal-Keeps _ _ _ params)
      & (λ _ n k. k)
      & (λ params n k. update_each-IsSound params _ [] n k)
      & (λ _ n k. k)
      & (λ _ n k. k)
      & (λ _ n k. k)
      & (λ _ n k. clear_each-IsSound _ _ 0 n k)
      & none_left

  -- Whatever the command and its parameters, the network is sound after it if it was before.
  pub process_command-IsSound :
      (now command : Text) (params : List (Text × Q)) (n : Network H Q T)
      → IsSound n
      → IsSound (process_command s now command params n).0
  unfolding process_command
  process_command-IsSound now command params n k =
      elim (Option-cases (Maps.lookup command (handlers s now))) [
        | inl unknown ↦ rw (unknown, process_command) k
        | inr (handler, found) ↦
            elim (Option-cases (deserialize_params s (suc (nesting_of s params)) params)) [
              | inl out ↦ rw (found, out, process_command) k
              | inr (processed, read) ↦
                  rw (found, read, process_command)
                    (AllHandlers-lookup (λ entry. Keeps entry.1) command (handlers s now)
                      (handlers-Keeps now) found processed n k)
            ]
      ]
