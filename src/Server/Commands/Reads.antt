-- ===== src/Server/Commands/Reads.antt =====
-- The commands of src/server/command_processor.cpp that only ask.
use terminal_sim.Prelude.{
  ◌≡◌, ◌⊎◌, text_beq, arith, refl, inl, inr, suc, Bool, true, false, Option-cases, Option, List, [],
  ◌∷◌, Text, text, text_eq,
}
use terminal_sim.Prelude.Maps
use terminal_sim.Prelude.Sets
use terminal_sim.Real.{Real}
use terminal_sim.Reply.{Reply, ok, throws}
use terminal_sim.Network.{Network}
use terminal_sim.Server.{Handler, Setting}
use terminal_sim.Server.Commands.{deserialize_params, handlers, nesting_of, process_command}
use terminal_sim.Server.Commands.Registry.{AllHandlers, AllHandlers-lookup, ◌&◌, none_left}
use terminal_sim.Server.Graphs.{
  after, handle_get_aliases, handle_get_terminal, handle_ping, handle_terminal_count,
  handle_terminal_status,
}
use terminal_sim.Server.Queries.{handle_execution_results, handle_runtime}
use terminal_sim.Server.Terminals.{
  ask_terminal, handle_count, handle_get_by_added_time, handle_get_by_departing_time,
  handle_get_by_next_destination, handle_get_containers, handle_get_dynamics,
}

-- The commands that ask: `ping` and those named get_...
abbrev pub asking : List Text
asking =
    text "ping"
    ∷ text "get_aliases_of_terminal"
    ∷ text "get_terminal_count"
    ∷ text "get_terminal_status"
    ∷ text "get_terminal"
    ∷ text "get_containers_by_departing_time"
    ∷ text "get_containers_by_added_time"
    ∷ text "get_containers_by_next_destination"
    ∷ text "get_containers"
    ∷ text "get_container_count"
    ∷ text "get_available_capacity"
    ∷ text "get_max_capacity"
    ∷ text "get_system_dynamics_state"
    ∷ text "get_terminals_runtime_state"
    ∷ text "get_terminals_runtime_projections"
    ∷ text "get_terminal_execution_results"
    ∷ []

abbrev Asks : {H Q T : Type 0} → Text × Handler H Q T → Type 0
Asks {H} {Q} {T} entry =
    Sets.contains entry.0 asking ≡ true
    → (params : List (Text × Q)) (n : Network H Q T) → (entry.1 params n).0 ≡ n

other_than : {A : Type 0} {test : Bool} → test ≡ false → test ≡ true → A
other_than apart same = cc

after-first :
    {H Q T A : Type 0} (n : Network H Q T) (m : Reply A)
    (next : A → Network H Q T × Option (Reply Q))
    → ((a : A) → (next a).0 ≡ n)
    → (after n m next).0 ≡ n
after-first n (throws f) next h = refl
after-first n (ok a) next h = h a

module _ {C H K Q T : Type 0} ⦃r : Real T⦄ (s : Setting C H K Q T) where
  handlers-Asks : (now : Text) → AllHandlers Asks (handlers s now)
  unfolding handlers Sets.contains text_beq ask_terminal handle_get_by_departing_time
      handle_get_by_added_time handle_get_by_next_destination handle_get_containers handle_count
      handle_get_dynamics handle_runtime handle_execution_results handle_ping handle_get_aliases
      handle_terminal_count handle_terminal_status handle_get_terminal
  handlers-Asks now =
      (λ _ _ _. refl)
      & (other_than refl)
      & (other_than refl)
      & (other_than refl)
      & (other_than refl)
      & (other_than refl)
      & (λ _ _ _. refl)
      & (other_than refl)
      & (λ _ _ _. refl)
      & (λ _ _ _. refl)
      & (λ _ _ n. after-first n _ _ (λ _. refl))
      & (other_than refl)
      & (other_than refl)
      & (other_than refl)
      & (other_than refl)
      & (other_than refl)
      & (other_than refl)
      & (other_than refl)
      & (λ _ _ _. refl)
      & (λ _ _ _. refl)
      & (λ _ _ _. refl)
      & (λ _ _ _. refl)
      & (other_than refl)
      & (other_than refl)
      & (other_than refl)
      & (other_than refl)
      & (other_than refl)
      & (λ _ _ _. refl)
      & (λ _ _ _. refl)
      & (λ _ _ _. refl)
      & (other_than refl)
      & (other_than refl)
      & (other_than refl)
      & (λ _ _ _. refl)
      & (other_than refl)
      & (λ _ _ _. refl)
      & (λ _ _ _. refl)
      & (λ _ _ _. refl)
      & (other_than refl)
      & none_left

  -- A command that asks leaves the network as it was, whatever its parameters, and so does a command
  -- that is not registered.
  pub process_command-asking :
      (now command : Text) (params : List (Text × Q)) (n : Network H Q T)
      → (Sets.contains command asking ≡ true) ⊎ (Maps.has command (handlers s now) ≡ false)
      → (process_command s now command params n).0 ≡ n
  unfolding process_command
  process_command-asking now command params n asks =
      elim (Option-cases (Maps.lookup command (handlers s now))) [
        | inl unknown ↦ rw (unknown, process_command)
        | inr (handler, found) ↦
            elim (Option-cases (deserialize_params s (suc (nesting_of s params)) params)) [
              | inl out ↦ rw (found, out, process_command)
              | inr (processed, read) ↦
                  rw (found, read, process_command)
                    (elim asks [
                      | inl asking ↦
                          AllHandlers-lookup Asks command (handlers s now) (handlers-Asks now) found
                            asking processed n
                      | inr absent ↦
                          absurd (ground (arith, Maps.has-lookup command (handlers s now)))
                    ])
            ]
      ]
