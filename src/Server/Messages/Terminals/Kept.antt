-- ===== src/Server/Messages/Terminals/Kept.antt =====
-- What every terminal keeps, whatever messages the server of src/server takes.
use terminal_sim.Prelude.{inl, inr, suc, Option-cases, List, [], ◌∷◌, Text, text_eq, nat_eq}
use terminal_sim.Prelude.Maps
use terminal_sim.Real.{Real}
use terminal_sim.Network.{Network}
use terminal_sim.Network.Attributes.{reset_configuration, set_cost_parameters}
use terminal_sim.Network.Routes.{add_route, add_routes}
use terminal_sim.Network.Runs.{new_network}
use terminal_sim.Network.Terminals.{clear}
use terminal_sim.Server.{Setting}
use terminal_sim.Server.Commands.{deserialize_params, handlers, nesting_of, process_command}
use terminal_sim.Server.Commands.Registry.{AllHandlers, AllHandlers-lookup, ◌&◌, none_left}
use terminal_sim.Server.Commands.Sound.{find_shortest_path-first, find_top-first}
use terminal_sim.Server.Messages.{
  Moment, command_of, on_message_received, params_of, process_json_command, serve,
}
use terminal_sim.Server.Messages.Terminals.{
  AllTerminals, add_route-terminals, add_routes-terminals, add_terminal-AllTerminals,
  add_terminals-AllTerminals, remove_terminal-AllTerminals, reset-AllTerminals,
}
use terminal_sim.Server.Graphs.{
  handle_add_alias, handle_add_route, handle_add_routes, handle_add_terminal, handle_add_terminals,
  handle_find_shortest_path, handle_find_top_paths, handle_get_aliases, handle_get_terminal,
  handle_ping, handle_remove_terminal, handle_reset_runtime_state, handle_reset_server,
  handle_set_costs, handle_terminal_count, handle_terminal_status,
}
use terminal_sim.Server.Queries.{
  handle_clear_execution_results, handle_execution_results, handle_runtime, handle_update_all,
}
use terminal_sim.Server.Terminals.{
  ask_terminal, handle_add_container, handle_add_containers, handle_add_containers_from_json,
  handle_clear_terminal, handle_commit, handle_count, handle_dequeue,
  handle_dequeue_by_next_destination, handle_get_by_added_time, handle_get_by_departing_time,
  handle_get_by_next_destination, handle_get_containers, handle_get_dynamics, handle_release,
  handle_reserve, handle_update_dynamics,
}
use terminal_sim.Server.Messages.Terminals.Methods.{
  IsKept, Keeps, after-All, same-All, change_terminal-Keeps, set_costs-terminals, aliased,
  search-All, clear_each-All, update_each-All,
}

module _ {C H K Q T : Type 0} ⦃r : Real T⦄ (s : Setting C H K Q T) (P : H → Type 0)
    (kept : IsKept s P) where
  open s use {variant, host, yard, qt, text_lt, encoding}

  -- Every handler that is registered keeps the property of the terminals.
  handlers-Keeps : (now : Text) → AllHandlers (λ entry. Keeps s P kept entry.1) (handlers s now)
  unfolding handlers handle_ping handle_reset_server handle_set_costs handle_add_terminal
      handle_add_terminals handle_add_alias handle_get_aliases handle_remove_terminal
      handle_terminal_count handle_terminal_status handle_get_terminal handle_add_route
      handle_add_routes handle_find_shortest_path handle_find_top_paths handle_add_container
      handle_add_containers handle_add_containers_from_json handle_get_by_departing_time
      handle_get_by_added_time handle_get_by_next_destination handle_get_containers
      handle_dequeue_by_next_destination handle_dequeue handle_reserve handle_commit handle_release
      handle_count handle_clear_terminal handle_reset_runtime_state handle_update_dynamics
      handle_get_dynamics handle_update_all handle_runtime handle_execution_results
      handle_clear_execution_results ask_terminal clear reset_configuration
  handlers-Keeps now =
      (λ _ n k. k)
      & (λ _ n k. tt)
      & (λ _ n k. after-All s P kept n _ _ k (λ costs.
          same-All s P kept n (set_cost_parameters variant qt costs n).0
            (set_costs-terminals s P kept costs n) k))
      & (λ params n k. add_terminal-AllTerminals P host variant qt kept.made params n k)
      & (λ _ n k.
          after-All s P kept n _ _ k
            (λ each. add_terminals-AllTerminals P host variant qt kept.made each n k))
      & (λ _ n k. after-All s P kept n _ _ k (λ _. aliased s P kept n _ _ k))
      & (λ _ n k. k)
      & (λ _ n k. after-All s P kept n _ _ k (λ _. remove_terminal-AllTerminals P _ n k))
      & (λ _ n k. k)
      & (λ _ n k. k)
      & (λ _ n k. after-All s P kept n _ _ k (λ _. k))
      & (λ _ n k. after-All s P kept n _ _ k (λ x.
          same-All s P kept n (add_route host variant qt x n).0
            (add_route-terminals variant qt host x n) k))
      & (λ _ n k. after-All s P kept n _ _ k (λ each.
          same-All s P kept n (add_routes host variant qt each n).0
            (add_routes-terminals variant qt host each n) k))
      & (λ _ n k.
          after-All s P kept n _ _ k
            (λ mode. search-All s P kept _ mode n _ (find_shortest_path-first s _ _ mode n) k))
      & (λ _ n k.
          after-All s P kept n _ _ k
            (λ mode. search-All s P kept _ mode n _ (find_top-first s _ _ _ mode _ n) k))
      & (λ params.
          change_terminal-Keeps s P kept _ _ _
            (λ a h. kept.adds a.arrived a.time a.mode a.semantics h) params)
      & (λ params.
          change_terminal-Keeps s P kept _ _ _
            (λ a h. kept.adds_all a.arrived a.time a.mode a.semantics h) params)
      & (λ params.
          change_terminal-Keeps s P kept _ _ _
            (λ a h. kept.adds_json a.arrived a.time a.mode a.semantics h) params)
      & (λ _ n k. k)
      & (λ _ n k. k)
      & (λ _ n k. k)
      & (λ _ n k. k)
      & (λ params. change_terminal-Keeps s P kept _ _ _ (λ a h. kept.dequeues_to _ a h) params)
      & (λ params. change_terminal-Keeps s P kept _ _ _ (λ a h. kept.dequeues a.0 a.1 h) params)
      & (λ params. change_terminal-Keeps s P kept _ _ _ (λ a h. kept.reserves _ a h) params)
      & (λ params. change_terminal-Keeps s P kept _ _ _ (λ a h. kept.commits _ a h) params)
      & (λ params. change_terminal-Keeps s P kept _ _ _ (λ a h. kept.releases _ h) params)
      & (λ _ n k. k)
      & (λ _ n k. k)
      & (λ _ n k. k)
      & (λ params. change_terminal-Keeps s P kept _ _ _ (λ a h. kept.clears h) params)
      & (λ _ n k. reset-AllTerminals P host kept.reset qt _ n k)
      & (λ params. change_terminal-Keeps s P kept _ _ _ (λ a h. kept.updates _ _ h) params)
      & (λ _ n k. k)
      & (λ params n k. update_each-All s P kept params _ [] n k)
      & (λ _ n k. k)
      & (λ _ n k. k)
      & (λ _ n k. k)
      & (λ _ n k. clear_each-All s P kept _ _ 0 n k)
      & none_left

  process_command-All :
      (now command : Text) (params : List (Text × Q)) (n : Network H Q T)
      → AllTerminals P n
      → AllTerminals P (process_command s now command params n).0
  unfolding process_command
  process_command-All now command params n k =
      elim (Option-cases (Maps.lookup command (handlers s now))) [
        | inl unknown ↦ rw (unknown, process_command) k
        | inr (handler, found) ↦
            elim (Option-cases (deserialize_params s (suc (nesting_of s params)) params)) [
              | inl out ↦ rw (found, out, process_command) k
              | inr (processed, read) ↦
                  rw (found, read, process_command)
                    (AllHandlers-lookup (λ entry. Keeps s P kept entry.1) command (handlers s now)
                      (handlers-Keeps now) found processed n k)
            ]
      ]

  message-All :
      (server : Text) (at : Moment) (message : List (Text × Q)) (n : Network H Q T)
      → AllTerminals P n
      → AllTerminals P (on_message_received s server at message n).0
  unfolding on_message_received process_json_command
  message-All server at message n k = elim (Option-cases (command_of s message)) [
    | inl missing ↦ rw (missing, process_json_command) k
    | inr (command, there) ↦
        rw (there, process_json_command)
          (process_command-All at.now command (params_of s message) n k)
  ]

  serve_from :
      (server : Text) (messages : List (Moment × List (Text × Q))) (n : Network H Q T)
      → AllTerminals P n
      → AllTerminals P (serve s server messages n)
  unfolding serve
  serve_from server [] n k = k
  serve_from server ((at, message) ∷ messages) n k =
      serve_from server messages (on_message_received s server at message n).0
        (message-All server at message n k)

  -- A property that terminals are made with and that their methods keep holds of every terminal of
  -- the network, whatever messages came in.
  pub serve-AllTerminals :
      (server : Text) (messages : List (Moment × List (Text × Q)))
      → AllTerminals P (serve s server messages (new_network host variant qt))
  unfolding new_network
  serve-AllTerminals server messages = serve_from server messages _ tt
