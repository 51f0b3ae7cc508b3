-- ===== src/Examples/Networks.antt =====
-- A network of three terminals, under whole numbers for `double` and a small type of variants.
use mathlib.Core.Option
use terminal_sim.Prelude.{
  ◌==◌, text_eq, if◌then◌else◌, ℕ, ◌+◌, ◌-◌, ◌*◌, ◌/◌, ◌≡◌, refl, Bool, true, false, ◌&&◌, Option,
  some, none, List, [], ◌∷◌, map, arith, ltb, leb, nat_beq, Text, text, text_beq, text_eq,
  if◌then◌else◌, any, list_beq, keep_if, erase_first,
}
use terminal_sim.Prelude.Maps
use terminal_sim.Prelude.Sets
use terminal_sim.Prelude.Int.{pos, negsuc}
use terminal_sim.Common.{Mode, Qt, Side, mode_beq, side_beq, try_parse_mode, try_parse_side}
use terminal_sim.Real.{Real}
use terminal_sim.Reply.{invalid_argument, Reply, ok, throws, ◌>>=◌}
use terminal_sim.Weight.{nat-IsOrdered}
use terminal_sim.Graph.{Edge, EdgeKey, key_eq}
use terminal_sim.Network.{Host, Network, Variant, canonical_name}
use terminal_sim.Network.Costs.Bounds.{IsOrderedReal}
use terminal_sim.Network.Answers.{Finds, find_shortest_path_correct}
use terminal_sim.Network.Segments.{key_of_segment, to_terminal_path-segments}
use terminal_sim.Network.Graphs.{admits, update_graph-edges}
use terminal_sim.Network.Routes.{Route, add_route, update_graph}
use terminal_sim.Network.Runs.{adds_terminal, goes, stays, new_network, Run-IsSound}
use terminal_sim.Network.Invariant.{IsSound}
use terminal_sim.Network.Invariant.Routed.{add_route-IsSound}
use terminal_sim.Network.Terminals.{add_terminal}
use terminal_sim.Network.Attributes.{
  route_attribute_keys, cost_attribute_keys, ones, default_link_attributes, same_for_each,
  default_cost_parameters, numeric_value, non_negative_value, validate_entries, require_keys,
  validated_attribute_map, override, validated_route_attributes,
}
use terminal_sim.Network.Costs.{
  weights_of, sum_costs, compute_cost, cost_params, attribute_cost, terminal_share,
  build_path_segment,
}
use terminal_sim.Network.Parsing.{
  terminal_supports_mode, without_repetition, parse_mode_variant, parse_modes, parse_each_interface,
  parse_terminal_interfaces, listed_names, names_of, first_name, parse_terminal_names,
}
use terminal_sim.Network.Terminals.{
  name_all, set_of, install, plan, add_terminal_internal, check_terminal, add_terminals,
  check_terminals, claim_names,
}
use terminal_sim.Network.Routes.{
  put_edge, put_edge_data, names, route_cost, store_route, build_edges, build_all, check_route,
}
use terminal_sim.Network.Paths.{
  NetworkPath, update_at, find_edge_data, zeros, empty_path, add_categories, contribute,
  add_segment, convert_edges, raw_totals, finish_path, to_terminal_path,
}
use terminal_sim.Network.Search.{
  find_shortest_path, find_top_n_shortest_paths, segment_signature, build_path_uid, rank_paths,
  insert_path, sort_paths, unique_paths,
}
use terminal_sim.Graph.{
  add_vertices, add_vertex, add_edge, empty, outgoing, key_beq, deep_copy, copy_lists, add_edges,
  remove_edge,
}
use terminal_sim.Dijkstra.{
  dijkstra, start, infinite, fuel_for, edges_left, loop, round, settle, pop, extract, before,
  relax_all, relax, finish, trace,
}
use terminal_sim.Yen.Diverse.{
  k_shortest_paths_modified, diverse_rounds, deviate_from, deviations, offer, create_diverse_graph,
  remove_next, penalize_from, penalize_all, penalize, usage, count_edges, remove_edges, unlink_back,
}
use terminal_sim.Yen.{next_after, pop_candidate, lightest}
use terminal_sim.Paths.{path_signature, path_weight, weight_from, edge_path_to_vertex_path, targets}

instance abbrev whole : Real ℕ
whole = record {
  of_nat = λ n. n;
  add = ◌+◌;
  sub = ◌-◌;
  mul = ◌*◌;
  div = ◌/◌;
  pow = λ x y. x;
  floor = λ x. x;
  whole = λ x. x;
  lt = ltb;
  le = leb;
  same = nat_beq;
  is_finite = λ _. true;
  is_nan = λ _. false;
  greatest = 1_000_000_000;
}

abbrev qt : Qt
qt = record {
  trimmed = λ t. t;
  lower = λ t. t;
  to_int = λ _. none;
  number = λ z. elim z as (λ _. Text) [ pos n ↦ (n + 48) ∷ [] | negsuc n ↦ 45 ∷ (n + 49) ∷ [] ];
}

data Value : Type 0 where
  nothing : Value
  word : Text → Value
  amount : ℕ → Value
  amounts : List (Text × ℕ) → Value
  words : List Text → Value
  sides : List (Text × List Text) → Value

abbrev amount_of : Value → Option ℕ
amount_of (amount n) = some n
amount_of _ = none

abbrev entries_in : Value → Option (List (Text × Value))
entries_in (amounts m) = some (map (λ p. (p.0, amount p.1)) m)
entries_in (sides m) = some (map (λ p. (p.0, words p.1)) m)
entries_in _ = none

abbrev items_in : Value → Option (List Value)
items_in (words ws) = some (map word ws)
items_in _ = none

abbrev is_word : Value → Bool
is_word (word _) = true
is_word _ = false

abbrev word_in : Value → Text
word_in (word t) = t
word_in _ = []

abbrev values : Variant Value ℕ
values = record {
  is_text = is_word;
  to_text = word_in;
  to_int = λ _. none;
  to_double = amount_of;
  of_double = amount;
  texts = λ _. none;
  items = items_in;
  entries = entries_in;
  of_entries = λ m. amounts (map (λ p. (p.0, Option.get_or (amount_of p.1) 0)) m);
  null = nothing;
}

record Port : Type 0 where
  called : Text
  open_to : List (Side × List Mode)

abbrev ports : Host Port Value ℕ
ports = record {
  create = λ name _ open_to _. ok (record { called = name; open_to = open_to });
  name = λ h. h.called;
  interfaces = λ h. h.open_to;
  handling_time = λ _. 2;
  handling_cost = λ _. 4;
  container_count = λ _. 0;
  available_capacity = λ _. pos 10;
  max_capacity = λ _. pos 10;
  reset = λ h. h;
}

abbrev port : Text → List (Text × Value)
port name =
    (text "terminal_names", word name)
    ∷ (text "display_name", word name)
    ∷ (
      text "terminal_interfaces",
      sides ((text "land", text "truck" ∷ []) ∷ (text "sea", text "ship" ∷ []) ∷ []),
    )
    ∷ (text "custom_config", amounts [])
    ∷ []

abbrev route : Text → Text → Mode → ℕ → Route Value
route start end mode distance = record {
  id = text "r";
  start = start;
  end = end;
  mode = mode;
  attributes = (text "distance", amount distance) ∷ [];
}

abbrev text_lt : Text → Text → Bool
text_lt [] [] = false
text_lt [] (_ ∷ _) = true
text_lt (_ ∷ _) [] = false
text_lt (a ∷ s) (b ∷ t) =
    let rest = text_lt s t in if ltb a b then true else if ltb b a then false else rest

abbrev empty_network : Network Port Value ℕ
empty_network = new_network ports values qt

abbrev with_port : Text → Network Port Value ℕ → Network Port Value ℕ
with_port name n = (add_terminal ports values qt (port name) n).0

abbrev two_ports : Network Port Value ℕ
two_ports = with_port (text "b") (with_port (text "a") empty_network)

abbrev joined : Network Port Value ℕ
joined = (add_route ports values qt (route (text "a") (text "b") Mode.truck 7) two_ports).0

-- The line that the tests unfold.
networks : Unit {0}
unfolding new_network add_terminal add_route update_graph Maps.has Maps.insert Maps.get_or
    Maps.lookup Sets.contains Sets.insert mode_beq side_beq text_beq try_parse_mode try_parse_side
    any list_beq keep_if erase_first route_attribute_keys cost_attribute_keys ones
    default_link_attributes same_for_each default_cost_parameters numeric_value non_negative_value
    validate_entries require_keys validated_attribute_map override validated_route_attributes
    weights_of sum_costs compute_cost cost_params attribute_cost terminal_share build_path_segment
    terminal_supports_mode without_repetition parse_mode_variant parse_modes parse_each_interface
    parse_terminal_interfaces listed_names names_of first_name parse_terminal_names name_all set_of
    install plan add_terminal_internal check_terminal add_terminals check_terminals claim_names
    put_edge put_edge_data names route_cost store_route build_edges build_all check_route update_at
    find_edge_data zeros empty_path add_categories contribute add_segment convert_edges raw_totals
    finish_path to_terminal_path find_shortest_path find_top_n_shortest_paths segment_signature
    build_path_uid rank_paths insert_path sort_paths unique_paths add_vertices add_vertex add_edge
    empty outgoing key_beq deep_copy copy_lists add_edges remove_edge dijkstra start infinite
    fuel_for edges_left loop round settle pop extract before relax_all relax finish trace
    k_shortest_paths_modified diverse_rounds deviate_from deviations offer create_diverse_graph
    remove_next penalize_from penalize_all penalize usage count_edges remove_edges unlink_back
    next_after pop_candidate lightest path_signature path_weight weight_from
    edge_path_to_vertex_path targets
networks = tt

two_ports-IsSound : IsSound two_ports
two_ports-IsSound = Run-IsSound ports values qt two_ports (
    goes empty_network (with_port (text "a") empty_network) two_ports
      (adds_terminal (port (text "a")) empty_network)
      (goes (with_port (text "a") empty_network) two_ports two_ports
        (adds_terminal (port (text "b")) (with_port (text "a") empty_network)) (stays two_ports)))

joined-IsSound : IsSound joined
joined-IsSound =
    add_route-IsSound values qt ports (route (text "a") (text "b") Mode.truck 7) two_ports
      two_ports-IsSound

joined_builds : (update_graph values qt Mode.truck joined).1 ≡ ok tt
unfolding networks
joined_builds = refl

whole-IsOrdered : IsOrderedReal ℕ
whole-IsOrdered = record { order = nat-IsOrdered; mul_nonneg = λ a b h k. ground arith }

find_shortest_path_correct_example :
    ((find_shortest_path values qt text_lt (text "a") (text "b") Mode.truck joined).0
      ≡ (update_graph values qt Mode.truck joined).0)
    × Finds whole-IsOrdered values qt text_lt
        (update_graph values qt Mode.truck joined).0
        Mode.truck
        (canonical_name joined (text "a"))
        (canonical_name joined (text "b"))
        (find_shortest_path values qt text_lt (text "a") (text "b") Mode.truck joined).1
unfolding networks
find_shortest_path_correct_example =
    find_shortest_path_correct whole-IsOrdered values qt text_lt (text "a") (text "b") Mode.truck
      joined joined-IsSound refl refl refl

update_graph-edges_example :
    ((y : Text)
      → Maps.has y (update_graph values qt Mode.truck joined).0.graph.adjacency
        ≡ Maps.has y joined.terminals)
    × ((k : EdgeKey Text)
        → Sets.contains k (update_graph values qt Mode.truck joined).0.graph.edges
          ≡ (Maps.has k joined.edge_data && admits Mode.truck k.mode))
update_graph-edges_example =
    update_graph-edges values qt joined Mode.truck joined-IsSound joined_builds

-- The seven of the distance, one for each other attribute, and the shares of the terminals.
found_weights :
    Option.map
      (λ reply. reply >>= λ segments. ok (map (λ s. s.weight) segments))
      (find_shortest_path values qt text_lt (text "a") (text "b") Mode.truck joined).1
    ≡ some (ok (18 ∷ []))
unfolding networks
found_weights = refl

-- The port "d" cannot be made.
abbrev some_ports : Host Port Value ℕ
some_ports = record ports {
  create = λ name _ open_to _.
      if name == text "d"
      then throws invalid_argument
      else ok (record { called = name; open_to = open_to });
}

abbrev value_or : {A : Type 0} → Reply A → A → A
value_or (ok a) d = a
value_or (throws _) d = d

abbrev joined_edges : List (Edge Text ℕ)
joined_edges = record { source = text "a"; target = text "b"; weight = 22; mode = Mode.truck } ∷ []

abbrev joined_path : NetworkPath Value ℕ
joined_path =
    value_or (to_terminal_path values qt joined joined_edges 1 Mode.truck false)
      (empty_path values qt 1 Mode.truck)

to_terminal_path-segments_example :
    map key_of_segment joined_path.segments ≡ path_signature joined_edges
unfolding networks
to_terminal_path-segments_example =
    to_terminal_path-segments values qt joined joined_edges 1 Mode.truck false joined_path
      joined-IsSound ((_, refl), tt) refl
