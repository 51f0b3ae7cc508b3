-- ===== src/Server/Commands.antt =====
-- `registerCommands`, `processCommand`, `deserializeParams` and `determineEventName` of
-- src/server/command_processor.cpp. `serializeResponse` changes how an answer is held, not its value.
pub mod Registry
pub mod Events
pub mod Sound
pub mod Reads
pub mod Deserialize
use mathlib.Core.Option
use Prim.Native.Nat.{max}
use terminal_sim.Prelude.{
  ℕ, zero, suc, ◌+◌, ◌||◌, Option, none, some, List, [], ◌∷◌, Text, text, text_eq, if◌then◌else◌,
  ◌==◌,
}
use terminal_sim.Prelude.Int.{pos}
use terminal_sim.Prelude.Maps
use terminal_sim.Real.{Real}
use terminal_sim.Reply.{Failure, Reply, throws}
use terminal_sim.Network.{Network}
use terminal_sim.Server.{Handler, Setting}
use terminal_sim.Server.Graphs.{
  handle_add_alias, handle_add_route, handle_add_routes, handle_add_terminal, handle_add_terminals,
  handle_find_shortest_path, handle_find_top_paths, handle_get_aliases, handle_get_terminal,
  handle_ping, handle_remove_terminal, handle_reset_runtime_state, handle_reset_server,
  handle_set_costs, handle_terminal_count, handle_terminal_status,
}
use terminal_sim.Server.Queries.{
  handle_clear_execution_results, handle_execution_results, handle_runtime, handle_update_all,
}
use terminal_sim.Server.Terminals.{
  handle_add_container, handle_add_containers, handle_add_containers_from_json,
  handle_clear_terminal, handle_commit, handle_count, handle_dequeue,
  handle_dequeue_by_next_destination, handle_get_by_added_time, handle_get_by_departing_time,
  handle_get_by_next_destination, handle_get_containers, handle_get_dynamics, handle_release,
  handle_reserve, handle_update_dynamics,
}

-- A conversion that runs out of fuel ends those around it.
infixl 5 ◌>>=◌
abbrev pub ◌>>=◌ : {A B : Type 0} → Option A → (A → Option B) → Option B
none >>= next = none
some a >>= next = next a

module _ {C H K Q T : Type 0} ⦃r : Real T⦄ (s : Setting C H K Q T) where
  open s use {variant, json, host, yard}

  -- `registerCommands`, in its order; `now` is the time of the command.
  unfoldable pub handlers : Text → List (Text × Handler H Q T)
  handlers now =
      (text "ping", handle_ping s now)
      ∷ (text "resetServer", handle_reset_server s)
      ∷ (text "set_cost_function_parameters", handle_set_costs s)
      ∷ (text "add_terminal", handle_add_terminal s)
      ∷ (text "add_terminals", handle_add_terminals s)
      ∷ (text "add_alias_to_terminal", handle_add_alias s)
      ∷ (text "get_aliases_of_terminal", handle_get_aliases s)
      ∷ (text "remove_terminal", handle_remove_terminal s)
      ∷ (text "get_terminal_count", handle_terminal_count s)
      ∷ (text "get_terminal_status", handle_terminal_status s)
      ∷ (text "get_terminal", handle_get_terminal s)
      ∷ (text "add_route", handle_add_route s)
      ∷ (text "add_routes", handle_add_routes s)
      ∷ (text "find_shortest_path", handle_find_shortest_path s)
      ∷ (text "find_top_paths", handle_find_top_paths s)
      ∷ (text "add_container", handle_add_container s)
      ∷ (text "add_containers", handle_add_containers s)
      ∷ (text "add_containers_from_json", handle_add_containers_from_json s)
      ∷ (text "get_containers_by_departing_time", handle_get_by_departing_time s)
      ∷ (text "get_containers_by_added_time", handle_get_by_added_time s)
      ∷ (text "get_containers_by_next_destination", handle_get_by_next_destination s)
      ∷ (text "get_containers", handle_get_containers s)
      ∷ (text "dequeue_containers_by_next_destination", handle_dequeue_by_next_destination s)
      ∷ (text "dequeue_containers", handle_dequeue s)
      ∷ (text "reserve_containers", handle_reserve s)
      ∷ (text "commit_container_reservation", handle_commit s)
      ∷ (text "release_container_reservation", handle_release s)
      ∷ (text "get_container_count", handle_count s (λ h. pos (host.container_count h)))
      ∷ (text "get_available_capacity", handle_count s host.available_capacity)
      ∷ (text "get_max_capacity", handle_count s host.max_capacity)
      ∷ (text "clear_terminal", handle_clear_terminal s)
      ∷ (text "reset_runtime_state", handle_reset_runtime_state s)
      ∷ (text "update_system_dynamics", handle_update_dynamics s)
      ∷ (text "get_system_dynamics_state", handle_get_dynamics s)
      ∷ (text "update_all_terminals_sd", handle_update_all s)
      ∷ (text "get_terminals_runtime_state", handle_runtime s yard.runtime_snapshot)
      ∷ (text "get_terminals_runtime_projections", handle_runtime s yard.runtime_projections)
      ∷ (text "get_terminal_execution_results", handle_execution_results s)
      ∷ (text "clear_terminal_execution_results", handle_clear_execution_results s)
      ∷ []

  -- `deserializeParams`: every list and map in the parameters is built again, but for texts and the
  -- JSON of containers; `again` is its own call on a map inside.
  unfoldable pub deserialize_items :
      (List (Text × Q) → Option (List (Text × Q))) → List Q → Option (List Q)
  deserialize_items again [] = some []
  deserialize_items again (item ∷ items) = do
    built ← elim (variant.entries item) as (λ _. Option Q) [
      | some entries ↦ Option.map variant.of_entries (again entries)
      | none ↦ some item
    ]
    rest ← deserialize_items again items
    some (built ∷ rest)

  unfoldable pub deserialize_value :
      (List (Text × Q) → Option (List (Text × Q))) → Text → Q → Option Q
  deserialize_value again key value =
      if key == text "container" || key == text "containers_json" || variant.is_text value
      then some value
      else elim (variant.items value) as (λ _. Option Q) [
        | some items ↦ Option.map json.of_list (deserialize_items again items)
        | none ↦ elim (variant.entries value) as (λ _. Option Q) [
          | some entries ↦ Option.map variant.of_entries (again entries)
          | none ↦ some value
        ]
      ]

  unfoldable pub deserialize_entries :
      (List (Text × Q) → Option (List (Text × Q))) → List (Text × Q) → Option (List (Text × Q))
  deserialize_entries again [] = some []
  deserialize_entries again (entry ∷ entries) = do
    built ← deserialize_value again entry.0 entry.1
    rest ← deserialize_entries again entries
    some ((entry.0, built) ∷ rest)

  -- The fuel is for the calls on maps inside maps; `none` says that it ran out.
  unfoldable pub deserialize_params : ℕ → List (Text × Q) → Option (List (Text × Q))
  deserialize_params zero params = none
  deserialize_params (suc fuel) params = deserialize_entries (deserialize_params fuel) params

  unfoldable pub nesting_of : List (Text × Q) → ℕ
  nesting_of [] = 0
  nesting_of (entry ∷ entries) = max (json.nesting entry.1) (nesting_of entries)

  -- `processCommand`.
  unfoldable pub process_command :
      Text → Text → List (Text × Q) → Network H Q T → Network H Q T × Option (Reply Q)
  process_command now command params n =
      elim (Maps.lookup command (handlers now)) as (λ _. Network H Q T × Option (Reply Q)) [
        | none ↦ (n, some (throws Failure.invalid_argument))
        | some handler ↦
            elim (deserialize_params (suc (nesting_of params)) params)
              as (λ _. Network H Q T × Option (Reply Q)) [
                | none ↦ (n, none)
                | some processed ↦ handler processed n
              ]
      ]

-- `determineEventName`.
unfoldable pub determine_event_name : Text → Text
determine_event_name command =
    if command == text "add_terminal" || command == text "add_alias_to_terminal"
    then text "terminalAdded"
    else if command == text "add_terminals"
    then text "terminalsAdded"
    else if command == text "get_aliases_of_terminal"
    then text "terminalAliases"
    else if command == text "remove_terminal"
    then text "terminalRemoved"
    else if command == text "get_terminal_count"
    then text "terminalCount"
    else if command == text "get_terminal"
    then text "terminalStatus"
    else if command == text "add_route"
        || command == text "change_route_weight"
        || command == text "connect_terminals_by_interface_modes"
        || command == text "connect_terminals_in_region_by_mode"
        || command == text "connect_regions_by_mode"
    then text "routeAdded"
    else if command == text "add_routes"
    then text "routesAdded"
    else if command == text "find_shortest_path" || command == text "find_top_paths"
    then text "pathFound"
    else if command == text "add_container"
        || command == text "add_containers"
        || command == text "add_containers_from_json"
        || command == text "clear_terminal"
    then text "containersAdded"
    else if command == text "get_containers_by_departing_time"
        || command == text "get_containers_by_added_time"
        || command == text "get_containers_by_next_destination"
        || command == text "get_containers"
        || command == text "dequeue_containers_by_next_destination"
        || command == text "dequeue_containers"
    then text "containersFetched"
    else if command == text "reserve_containers"
    then text "containersReserved"
    else if command == text "commit_container_reservation"
    then text "containerReservationCommitted"
    else if command == text "release_container_reservation"
    then text "containerReservationReleased"
    else if command == text "get_container_count"
        || command == text "get_available_capacity"
        || command == text "get_max_capacity"
    then text "capacityFetched"
    else if command == text "serialize_graph"
    then text "graphSerialized"
    else if command == text "deserialize_graph"
    then text "graphDeserialized"
    else if command == text "ping"
    then text "pingResponse"
    else if command == text "resetServer"
    then text "serverReset"
    else if command == text "reset_runtime_state"
    then text "runtimeStateReset"
    else if command == text "set_cost_function_parameters"
    then text "costFunctionUpdated"
    else if command == text "get_system_dynamics_state"
    then text "systemDynamicsState"
    else if command == text "update_system_dynamics" || command == text "update_all_terminals_sd"
    then text "systemDynamicsUpdated"
    else if command == text "get_terminals_runtime_state"
    then text "terminalRuntimeState"
    else if command == text "get_terminals_runtime_projections"
    then text "terminalRuntimeProjections"
    else if command == text "get_terminal_execution_results"
    then text "terminalExecutionResults"
    else if command == text "clear_terminal_execution_results"
    then text "terminalExecutionResultsCleared"
    else text "errorOccurred"
