-- ===== src/Examples/Graphs.antt =====
-- A network of four vertices under whole-number weights.
use mathlib.Core.List.Memᴰ
use terminal_sim.Graph.Copies.Deep.{IsMap, IsMap-cons, deep_copy-edges}
use terminal_sim.Graph.{deep_copy}
use terminal_sim.Prelude.{
  Memᴰ, ◌↔◌, ◌+◌, true, false, if◌then◌else◌, ◌==◌, ℕ, ◌≡◌, refl, some, none, [], ◌∷◌, arith, ltb,
  nat_eq, map, any,
}
use mathlib.Core.Option
use terminal_sim.Prelude.Maps
use terminal_sim.Prelude.Sets
use terminal_sim.Common.{Mode, ship, truck, train, mode_beq}
use terminal_sim.Weight.{nat_weight, nat-IsOrdered, ◌≼◌}
use terminal_sim.Graph.{
  Edge, Graph, empty, add_vertex, add_edge, add_vertices, add_edges, remove_edge, remove_vertex,
  outgoing, key_beq, key_eq, key_of, edge_beq,
}
use terminal_sim.Graph.WellFormed.{WellFormed, empty-WellFormed, add_edge-WellFormed}
use terminal_sim.Graph.Copies.{add_vertices-WellFormed, add_edges-WellFormed}
use terminal_sim.Graph.Removal.{Restricts, away_from, remove_vertex-exact}
use terminal_sim.Graph.RemoveEdge.{Removes, remove_edge-Removes}
use terminal_sim.Paths.{
  are_edge_paths_equal, same_edges, edge_path_to_vertex_path, targets, path_weight, weight_from,
}
use terminal_sim.Paths.Equal.{are_edge_paths_equal_iff}
use terminal_sim.Dijkstra.{
  PathInfo, dijkstra, start, infinite, fuel_for, edges_left, loop, round, settle, pop, extract,
  before, relax_all, relax, finish, trace,
}
use terminal_sim.Dijkstra.Walk.{NonNegative}
use terminal_sim.Dijkstra.Correct.{Answers, dijkstra_correct}
use terminal_sim.Yen.{
  add_unless, candidate, copy_unless, create_modified_graph, goes_on, k_shortest_paths, lightest,
  next_after, pop_candidate, skip_edge, spur_loop, yen_rounds,
}
use terminal_sim.Yen.Diverse.{k_shortest_paths_modified}
use terminal_sim.Yen.Kept.{AllLists}
use terminal_sim.Yen.Varied.{Varies, k_shortest_paths_modified_correct}

-- The line that the tests unfold.
computes : Unit {0}
unfolding add_vertices add_edges add_vertex add_edge empty outgoing key_beq mode_beq Maps.has
    Maps.insert Maps.get_or Maps.lookup Sets.contains Sets.insert dijkstra start infinite fuel_for
    edges_left loop round settle pop extract before relax_all relax finish trace
computes = tt

abbrev edge : ℕ → ℕ → ℕ → Mode → Edge ℕ ℕ
edge s t x m = record { source = s; target = t; weight = x; mode = m }

abbrev vertices_only : Graph ℕ ℕ
vertices_only = add_vertices (0 ∷ 1 ∷ 2 ∷ 3 ∷ []) empty

-- 0 → 1 → 3 costs 5, 0 → 2 → 3 costs 3, and 3 has no way out.
abbrev network : Graph ℕ ℕ
network =
    add_edges
      (edge 0 1 1 truck
        ∷ edge 1 3 4 truck
        ∷ edge 0 2 2 ship
        ∷ edge 2 3 1 ship
        ∷ edge 0 1 9 train
        ∷ [])
      vertices_only

network-WellFormed : WellFormed network
network-WellFormed =
    add_edges-WellFormed _ vertices_only
      (add_vertices-WellFormed (0 ∷ 1 ∷ 2 ∷ 3 ∷ []) empty empty-WellFormed)

network-NonNegative : NonNegative network
network-NonNegative u d m = ground arith

cheapest : PathInfo ℕ ℕ
cheapest = record { path = edge 0 2 2 ship ∷ edge 2 3 1 ship ∷ []; total = 3 }

dijkstra_runs : dijkstra ltb network Mode.any 0 3 ≡ some (some cheapest)
unfolding cheapest computes
dijkstra_runs = refl

no_way_back : dijkstra ltb network Mode.any 3 0 ≡ some none
unfolding computes
no_way_back = refl

-- A vertex that is not in the graph has a path to itself.
nowhere : PathInfo ℕ ℕ
nowhere = record { path = []; total = 0 }

missing_to_itself : dijkstra ltb network Mode.any 9 9 ≡ some (some nowhere)
unfolding nowhere computes
missing_to_itself = refl

dijkstra_correct_example :
    Answers nat-IsOrdered ltb network Mode.any 0 3 (dijkstra ltb network Mode.any 0 3)
dijkstra_correct_example =
    dijkstra_correct nat-IsOrdered ltb network Mode.any 0 3 network-WellFormed network-NonNegative

add_edge-WellFormed_example : WellFormed (add_edge 3 0 7 train network).0
add_edge-WellFormed_example = add_edge-WellFormed 3 0 7 train network network-WellFormed

remove_edge-Removes_example :
    Removes 0 1 Mode.any network network-WellFormed (remove_edge 0 1 Mode.any network)
remove_edge-Removes_example = remove_edge-Removes 0 1 Mode.any network network-WellFormed

remove_vertex-exact_example :
    ((remove_vertex 2 network).1 ≡ true)
    × ((v : ℕ)
        → Maps.has v (remove_vertex 2 network).0.adjacency
          ≡ (if 2 == v then false else Maps.has v network.adjacency))
    × Restricts (away_from 2) network (remove_vertex 2 network).0
unfolding computes
remove_vertex-exact_example = remove_vertex-exact 2 network network-WellFormed refl

are_edge_paths_equal_iff_example :
    (are_edge_paths_equal (edge 0 1 1 truck ∷ []) (edge 0 1 9 train ∷ []) ≡ true)
    ↔ (edge 0 1 1 truck ∷ [] ≡ edge 0 1 9 train ∷ [])
are_edge_paths_equal_iff_example =
    are_edge_paths_equal_iff nat-IsOrdered (edge 0 1 1 truck ∷ []) (edge 0 1 9 train ∷ [])

-- Each vertex stands once in the adjacency map.
network-IsMap : IsMap network.adjacency
unfolding computes
network-IsMap = IsMap-cons 0 _ _ refl (
    IsMap-cons 1 _ _ refl
      (IsMap-cons 2 _ _ refl (IsMap-cons 3 _ _ refl (λ u es m. absurd (Memᴰ.not-nil m)))))

deep_copy-edges_example :
    WellFormed (deep_copy network)
    × ((v : ℕ) → Maps.has v (deep_copy network).adjacency ≡ Maps.has v network.adjacency)
    × ((u : ℕ) (d : Edge ℕ ℕ)
        → Memᴰ d (outgoing u (deep_copy network)) ↔ Memᴰ d (outgoing u network))
deep_copy-edges_example = deep_copy-edges network network-WellFormed network-IsMap

-- 0 → 2 → 3, then 0 → 1 → 3 by truck, then by train and truck.
three_paths :
    Option.map (map (λ p. p.total)) (k_shortest_paths ltb network Mode.any 0 3 5)
    ≡ some (3 ∷ 5 ∷ 13 ∷ [])
unfolding computes k_shortest_paths yen_rounds spur_loop candidate create_modified_graph skip_edge
    goes_on next_after copy_unless add_unless pop_candidate lightest edge_path_to_vertex_path
    targets path_weight weight_from are_edge_paths_equal same_edges edge_beq any
three_paths = refl

-- 0 → 1 → 3 weighs 2, 0 → 1 → 4 → 3 weighs 3, and 0 → 2 → 3, which weighs 4, is found twice.
abbrev forked : Graph ℕ ℕ
forked =
    add_edges
      (edge 0 1 1 truck
        ∷ edge 1 3 1 truck
        ∷ edge 1 4 1 truck
        ∷ edge 4 3 1 truck
        ∷ edge 0 2 2 truck
        ∷ edge 2 3 2 truck
        ∷ [])
      (add_vertices (0 ∷ 1 ∷ 2 ∷ 3 ∷ 4 ∷ []) empty)

one_path_twice :
    Option.map (map (λ p. p.total)) (k_shortest_paths ltb forked Mode.any 0 3 4)
    ≡ some (2 ∷ 3 ∷ 4 ∷ 4 ∷ [])
unfolding computes k_shortest_paths yen_rounds spur_loop candidate create_modified_graph skip_edge
    goes_on next_after copy_unless add_unless pop_candidate lightest edge_path_to_vertex_path
    targets path_weight weight_from are_edge_paths_equal same_edges edge_beq any
one_path_twice = refl

-- The edges of the network, with any weight.
abbrev InNetwork : Edge ℕ ℕ → Type 0
InNetwork d = Sets.contains (key_of d) network.edges ≡ true

network_positive : (d : Edge ℕ ℕ) → InNetwork d → 0 ≼ d.weight
network_positive d p = ground arith

network_lists : AllLists InNetwork network.adjacency
unfolding computes
network_lists = ((refl, (refl, (refl, tt))), ((refl, tt), ((refl, tt), (tt, tt))))

k_shortest_paths_modified_correct_example :
    Varies nat-IsOrdered ltb
      (λ x n. x + n)
      InNetwork
      network
      Mode.any
      0
      3
      (λ d n p. p)
      network_positive
      network_lists
      3
      (k_shortest_paths_modified ltb (λ x n. x + n) network Mode.any 0 3 3)
k_shortest_paths_modified_correct_example =
    k_shortest_paths_modified_correct nat-IsOrdered ltb (λ x n. x + n) InNetwork network Mode.any 0
      3 (λ d n p. p) network_positive network_lists network-WellFormed 3
