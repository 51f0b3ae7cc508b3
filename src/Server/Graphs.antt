-- ===== src/Server/Graphs.antt =====
-- The commands of src/server/command_processor.cpp on the network of terminals.
use mathlib.Core.Option
use terminal_sim.Prelude.{
  ℕ, Bool, true, false, not, ◌&&◌, Option, none, some, List, [], ◌∷◌, Text, text, text_eq,
  if◌then◌else◌, map,
}
use terminal_sim.Prelude.Maps
use terminal_sim.Prelude.Int.{ℤ, pos, negsuc}
use terminal_sim.Common.{Mode}
use terminal_sim.Real.{Real}
use terminal_sim.Reply.{Reply, ok, throws, require, or_throw, ◌>>=◌, ◌>>◌}
use terminal_sim.Network.{Network}
use terminal_sim.Network.Attributes.{
  cost_attribute_keys, cost_modes, reset_configuration, set_cost_parameters,
}
use terminal_sim.Network.Parsing.{is_nil}
use terminal_sim.Network.Paths.{NetworkPath}
use terminal_sim.Network.Routes.{Route, add_route, add_routes}
use terminal_sim.Network.Search.{find_shortest_path, find_top_n_shortest_paths}
use terminal_sim.Network.Status.{
  Statuses, TerminalStatus, get_terminal_status, reset_runtime_state_of,
}
use terminal_sim.Network.Terminals.{
  add_alias_to_terminal, add_terminal, add_terminals, all_terminal_names, clear,
  get_aliases_of_terminal, get_terminal, remove_terminal, terminal_count,
}
use terminal_sim.Server.{Handler, Setting}
use terminal_sim.Server.Params.{optional_mode, parse_mode_param, text_at, value_at}

-- `n.toInt()` of a number of paths: none where it is not positive.
abbrev pub at_least_zero : Option ℤ → ℕ
at_least_zero none = 0
at_least_zero (some (pos n)) = n
at_least_zero (some (negsuc n)) = 0

-- A call of the network whose answer is made into a variant.
abbrev pub answer :
    {H Q T A : Type 0} → (A → Q) → Network H Q T × Reply A → Network H Q T × Option (Reply Q)
answer f step = (step.0, some (step.1 >>= λ a. ok (f a)))

-- A command that throws before it calls the network.
abbrev pub after :
    {H Q T A : Type 0}
    → Network H Q T
    → Reply A
    → (A → Network H Q T × Option (Reply Q))
    → Network H Q T × Option (Reply Q)
after n (throws f) next = (n, some (throws f))
after n (ok a) next = next a

module _ {C H K Q T : Type 0} ⦃r : Real T⦄ (s : Setting C H K Q T) where
  open s use {variant, qt, json, yard, host, encoding, text_lt}

  -- `handlePing`.
  unfoldable pub handle_ping : Text → Handler H Q T
  handle_ping now params n =
      let always =
        (text "status", json.of_text (text "ok")) ∷ (text "timestamp", json.of_text now) ∷ [] in
      (
        n,
        some (
            ok (
              variant.of_entries (
                if Maps.has (text "echo") params
                then (text "echo", value_at s params (text "echo")) ∷ always
                else always))),
      )

  -- `handleResetServer`.
  unfoldable pub handle_reset_server : Handler H Q T
  handle_reset_server params n = (
    reset_configuration variant qt (clear n),
    some (
        ok (
          variant.of_entries (
            (text "status", json.of_text (text "success"))
            ∷ (text "message", json.of_text (text "Server has been reset to a fresh state"))
            ∷ []))),
  )

  -- Each attribute of one mode is there and converts to a number.
  unfoldable pub check_weights : List (Text × Q) → List Text → Reply (Unit {0})
  check_weights weights [] = ok tt
  check_weights weights (key ∷ keys) = do
    require (Maps.has key weights && json.converts_to_double (value_at s weights key))
    check_weights weights keys

  unfoldable pub check_modes : List (Text × Q) → List Text → Reply (Unit {0})
  check_modes costs [] = ok tt
  check_modes costs (mode ∷ modes) = do
    require (Maps.has mode costs)
    weights ← or_throw (variant.entries (value_at s costs mode))
    check_weights weights cost_attribute_keys
    check_modes costs modes

  unfoldable pub read_costs : List (Text × Q) → Reply (List (Text × Q))
  read_costs params = do
    require (Maps.has (text "parameters") params)
    costs ← or_throw (variant.entries (value_at s params (text "parameters")))
    check_modes costs (cost_modes qt)
    ok costs

  -- `handleSetCostFunctionParameters`.
  unfoldable pub handle_set_costs : Handler H Q T
  handle_set_costs params n =
      after n (read_costs params)
        λ costs. answer (λ _. json.of_bool true) (set_cost_parameters variant qt costs n)

  unfoldable pub handle_add_terminal : Handler H Q T
  handle_add_terminal params n = answer yard.to_json (add_terminal host variant qt params n)

  -- The maps of a list of which every item has to be one.
  unfoldable pub maps_of : List Q → Reply (List (List (Text × Q)))
  maps_of [] = ok []
  maps_of (value ∷ values) = do
    entries ← or_throw (variant.entries value)
    rest ← maps_of values
    ok (entries ∷ rest)

  unfoldable pub read_maps : List (Text × Q) → Text → Reply (List (List (Text × Q)))
  read_maps params key = do
    require (Maps.has key params)
    items ← or_throw (variant.items (value_at s params key))
    maps_of items

  unfoldable pub handle_add_terminals : Handler H Q T
  handle_add_terminals params n = after n (read_maps params (text "terminals")) λ each.
      answer (λ added. json.of_list (map (λ entry. yard.to_json entry.1) added))
        (add_terminals host variant qt each n)

  -- `add_alias_to_terminal`.
  unfoldable pub handle_add_alias : Handler H Q T
  handle_add_alias params n =
      let name = text_at s params (text "terminal_name") in
      let alias = text_at s params (text "alias") in
      after n (require (not (is_nil name) && not (is_nil alias)))
        λ _. answer (λ _. json.of_bool true) (add_alias_to_terminal name alias n)

  unfoldable pub handle_get_aliases : Handler H Q T
  handle_get_aliases params n =
      let name = text_at s params (text "terminal_name") in
      (
        n,
        some (
            require (not (is_nil name))
            >> ok (json.of_list (map json.of_text (get_aliases_of_terminal n name)))),
      )

  unfoldable pub handle_remove_terminal : Handler H Q T
  handle_remove_terminal params n =
      let name = text_at s params (text "terminal_name") in
      after n (require (not (is_nil name)))
        λ _. ((remove_terminal name n).0, some (ok (json.of_bool (remove_terminal name n).1)))

  unfoldable pub handle_terminal_count : Handler H Q T
  handle_terminal_count params n = (n, some (ok (json.of_int (pos (terminal_count n)))))

  -- The map of one terminal of `getTerminalStatus`.
  unfoldable pub status_value : TerminalStatus → Q
  status_value t = variant.of_entries (
      (text "container_count", json.of_int (pos t.container_count))
      ∷ (text "available_capacity", json.of_int t.available_capacity)
      ∷ (text "max_capacity", json.of_int t.max_capacity)
      ∷ (text "region", Option.get_or (Option.map json.of_text t.region) variant.null)
      ∷ (text "aliases", json.of_list (map json.of_text t.aliases))
      ∷ [])

  unfoldable pub statuses_value : Statuses → Q
  statuses_value (Statuses.one t) = status_value t
  statuses_value (Statuses.each ts) =
      variant.of_entries (map (λ entry. (entry.0, status_value entry.1)) ts)

  unfoldable pub handle_terminal_status : Handler H Q T
  handle_terminal_status params n =
      answer statuses_value
        (n, get_terminal_status host n (text_at s params (text "terminal_name")))

  -- `handleGetTerminal`.
  unfoldable pub handle_get_terminal : Handler H Q T
  handle_get_terminal params n =
      after n (require (Maps.has (text "terminal_name") params))
        λ _. answer yard.to_json (n, get_terminal n (text_at s params (text "terminal_name")))

  abbrev ends_value : Text × Text → Q
  ends_value ends = variant.of_entries (
      (text "start_terminal", json.of_text ends.0)
      ∷ (text "end_terminal", json.of_text ends.1)
      ∷ [])

  unfoldable pub read_route_params : List (Text × Q) → Reply (Route Q)
  read_route_params params = do
    require (
        Maps.has (text "route_id") params
        && Maps.has (text "start_terminal") params
        && Maps.has (text "end_terminal") params
        && Maps.has (text "mode") params)
    mode ← parse_mode_param s (value_at s params (text "mode")) false
    ok (record {
      id = text_at s params (text "route_id");
      start = text_at s params (text "start_terminal");
      end = text_at s params (text "end_terminal");
      mode = mode;
      attributes =
          if Maps.has (text "attributes") params
          then Option.get_or (variant.entries (value_at s params (text "attributes"))) []
          else [];
    })

  unfoldable pub handle_add_route : Handler H Q T
  handle_add_route params n =
      after n (read_route_params params)
        λ route. answer ends_value (add_route host variant qt route n)

  unfoldable pub handle_add_routes : Handler H Q T
  handle_add_routes params n = after n (read_maps params (text "routes")) λ each.
      answer (λ added. json.of_list (map ends_value added)) (add_routes host variant qt each n)

  -- A search: the ends and the mode that it is given.
  unfoldable pub read_search : List (Text × Q) → Mode → Reply Mode
  read_search params given = do
    require (Maps.has (text "start_terminal") params && Maps.has (text "end_terminal") params)
    optional_mode s params (text "mode") given

  unfoldable pub handle_find_shortest_path : Handler H Q T
  handle_find_shortest_path params n = after n (read_search params Mode.any) λ mode.
      let found =
        find_shortest_path variant qt text_lt (text_at s params (text "start_terminal"))
          (text_at s params (text "end_terminal")) mode n in
      (
        found.0,
        Option.map (λ reply. reply >>= λ path. ok (json.of_list (map json.of_segment path)))
            found.1,
      )

  -- `params.value("n", 5).toInt()`.
  abbrev paths_wanted : List (Text × Q) → ℕ
  paths_wanted params =
      if Maps.has (text "n") params
      then at_least_zero (variant.to_int (value_at s params (text "n")))
      else 5

  -- `skip_same_mode_terminal_delays_and_costs`, which is true if it is left out.
  abbrev skips_same_mode : List (Text × Q) → Bool
  skips_same_mode params =
      let key = text "skip_same_mode_terminal_delays_and_costs" in
      if Maps.has key params then json.to_bool (value_at s params key) else true

  unfoldable pub paths_value : List (Text × Q) → List (NetworkPath Q T) → Q
  paths_value params paths = variant.of_entries (
      (text "start_terminal", json.of_text (text_at s params (text "start_terminal")))
      ∷ (text "end_terminal", json.of_text (text_at s params (text "end_terminal")))
      ∷ (text "paths", json.of_list (map json.of_path paths))
      ∷ [])

  unfoldable pub handle_find_top_paths : Handler H Q T
  handle_find_top_paths params n = after n (read_search params Mode.truck) λ mode.
      let found =
        find_top_n_shortest_paths variant qt text_lt encoding
          (text_at s params (text "start_terminal")) (text_at s params (text "end_terminal"))
          (paths_wanted params) mode (skips_same_mode params) n in
      (found.0, Option.map (λ reply. reply >>= λ paths. ok (paths_value params paths)) found.1)

  abbrev pub all_names : Network H Q T → List Text
  all_names n = map (λ entry. entry.0) (all_terminal_names n false)

  -- The ids of `reset_runtime_state`, trimmed and without the empty ones.
  unfoldable pub trimmed_ids : List Q → List Text
  trimmed_ids [] = []
  trimmed_ids (value ∷ values) =
      let rest = trimmed_ids values in
      let id = qt.trimmed (variant.to_text value) in if is_nil id then rest else id ∷ rest

  unfoldable pub ids_to_reset : List (Text × Q) → List Text
  ids_to_reset params =
      elim (variant.items (value_at s params (text "terminal_ids"))) as (λ _. List Text) [
        | some ids ↦ trimmed_ids ids
        | none ↦
            if Maps.has (text "terminal_id") params
            then trimmed_ids (value_at s params (text "terminal_id") ∷ [])
            else []
      ]

  unfoldable pub handle_reset_runtime_state : Handler H Q T
  handle_reset_runtime_state params n =
      let ids = ids_to_reset params in
      answer
        (λ count. variant.of_entries (
          (text "terminals_reset", json.of_int (pos count))
          ∷ (
            text "terminal_ids",
            json.of_list (map json.of_text (if is_nil ids then all_names n else ids)),
          )
          ∷ (text "scope", json.of_text (if is_nil ids then text "all" else text "selected"))
          ∷ []))
        (reset_runtime_state_of host qt ids n)
