-- ===== src/Network/Answers.antt =====
-- What `findShortestPath` of src/terminal/terminal_graph.cpp answers, against the least paths of the
-- graph that it builds from the data of the routes.
use mathlib.Core.List.Memᴰ
use terminal_sim.Prelude.{
  ◌≡◌, ◌⊎◌, inl, inr, ⊎_elim, refl, sym, subst, Bool, true, false, Option, none, some, List, Text,
  text_eq,
}
use terminal_sim.Prelude.Maps
use terminal_sim.Common.{Mode, Qt, mode_eq}
use terminal_sim.Real.{Real}
use terminal_sim.Weight.{◌≼◌}
use terminal_sim.Reply.{Failure, Reply, ok, throws, ◌>>=◌, Reply-cases}
use terminal_sim.Graph.{Edge, add_vertices, empty, key_eq, outgoing}
use terminal_sim.Graph.WellFormed.{mem-add_edge}
use terminal_sim.Paths.{path_weight}
use terminal_sim.Dijkstra.{PathInfo}
use terminal_sim.Dijkstra.Walk.{IsWalk, NonNegative}
use terminal_sim.Dijkstra.Correct.{Answers, IsLeast, dijkstra_correct}
use terminal_sim.Network.{EdgeData, Network, Variant, canonical_name, terminal_exists}
use terminal_sim.Network.Costs.{Segment}
use terminal_sim.Network.Costs.Bounds.{IsOrderedReal, compute_cost-bound, weight_of_real}
use terminal_sim.Network.Routes.{build_all, names, route_cost, update_graph}
use terminal_sim.Network.Paths.{to_terminal_path}
use terminal_sim.Network.Search.{find_shortest_path}
use terminal_sim.Network.Invariant.{IsSound}
use terminal_sim.Network.Invariant.Routed.{build_all-keeps, update_graph-IsSound}
use terminal_sim.Yen.Modified.{no_edges}

module _ {H Q T : Type 0} ⦃r : Real T⦄ (laws : IsOrderedReal T) (v : Variant Q T) (qt : Qt)
    (text_lt : Text → Text → Bool) where
  route_cost-bound :
      (n : Network H Q T) (s t : Text) (x : EdgeData Q) (cost : T)
      → route_cost v qt n s t x ≡ ok cost
      → r.lt cost (r.of_nat 0) ≡ false
  unfolding route_cost
  route_cost-bound n s t x cost h = compute_cost-bound laws v qt _ n.cost_weights x.mode cost h

  -- The graph of a network that was updated has no negative weight.
  update_graph-NonNegative :
      (mode : Mode) (n : Network H Q T) {u : Unit {0}}
      → (update_graph v qt mode n).1 ≡ ok u
      → NonNegative ⦃w = weight_of_real r⦄ (update_graph v qt mode n).0.graph
  unfolding update_graph empty outgoing Maps.get_or
  update_graph-NonNegative mode n h =
      elim (Reply-cases
        (build_all v qt n mode n.edge_data (add_vertices (names n.terminals) empty))) [
          | inr (f, failed) ↦ absurd (not_built f failed)
          | inl (built, done) ↦
              rw (done, update_graph)
                (build_all-keeps v qt (λ cost. r.lt cost (r.of_nat 0) ≡ false)
                  (NonNegative ⦃w = weight_of_real r⦄)
                  (λ s t cost m g fine pos x d mem.
                    ⊎_elim (pos x d)
                      (λ (at, same).
                        subst (λ y. r.lt y.weight (r.of_nat 0) ≡ false) (sym same) fine)
                      (mem-add_edge s t cost m g x d mem))
                  n (λ s t x cost priced. route_cost-bound n s t x cost priced) mode n.edge_data _
                  built done
                  (λ x d mem.
                    absurd
                      (Memᴰ.not-nil (no_edges (names n.terminals) empty (λ _ _ m. m) x d mem))))
        ]
    where
      not_built :
          (f : Failure)
          → build_all v qt n mode n.edge_data (add_vertices (names n.terminals) empty) ≡ throws f
          → ⊥
      not_built f failed =
          let stopped : (update_graph v qt mode n).1 ≡ throws f = rw (failed, update_graph) refl in
          cc (h, stopped)

  -- What is owed of a search between two terminals in the network `m`, whose graph is up to date.
  abbrev pub Finds :
      Network H Q T → Mode → Text → Text → Option (Reply (List (Segment Q T))) → Type 0
  Finds m mode s t answer =
      ((answer ≡ some (throws Failure.runtime_error))
        × ((p : List (Edge Text T))
            → IsWalk m.graph mode s p t
            → ◌≼◌ ⦃w = weight_of_real r⦄ r.greatest (path_weight ⦃w = weight_of_real r⦄ p)))
      ⊎ ((best : PathInfo Text T) × IsLeast ⦃w = weight_of_real r⦄ laws.order text_lt m.graph mode s
            t best
          × (answer ≡ some (to_terminal_path v qt m best.path 1 mode false >>= λ p. ok p.segments)))

  Answers-Finds :
      (m : Network H Q T) (mode : Mode) (s t : Text) (found : Option (Option (PathInfo Text T)))
      → Answers ⦃w = weight_of_real r⦄ laws.order text_lt m.graph mode s t found
      → Finds m mode s t (elim found as (λ _. Option (Reply (List (Segment Q T)))) [
        | none ↦ none
        | some none ↦ some (throws Failure.runtime_error)
        | some (some best) ↦
            some (to_terminal_path v qt m best.path 1 mode false >>= λ p. ok p.segments)
      ])
  Answers-Finds m mode s t none a = absurd a
  Answers-Finds m mode s t (some none) a = inl (refl, a)
  Answers-Finds m mode s t (some (some best)) a = inr (best, a, refl)

  -- On a sound network, between two names of terminals, `findShortestPath` returns within its fuel,
  -- if the graph of the mode can be built. Its answer is made from a walk of least weight in that
  -- graph, which is stored, or it throws that there is no path, and then every walk weighs at least
  -- as much as the greatest number.
  pub find_shortest_path_correct :
      (start end : Text) (mode : Mode) (n : Network H Q T) {u : Unit {0}}
      → IsSound n
      → terminal_exists n start ≡ true
      → terminal_exists n end ≡ true
      → (update_graph v qt mode n).1 ≡ ok u
      → ((find_shortest_path v qt text_lt start end mode n).0 ≡ (update_graph v qt mode n).0)
        × Finds
            (update_graph v qt mode n).0
            mode
            (canonical_name n start)
            (canonical_name n end)
            (find_shortest_path v qt text_lt start end mode n).1
  unfolding find_shortest_path
  find_shortest_path_correct start end mode n k there arrives built =
      let m = (update_graph v qt mode n).0 in
      let right =
        dijkstra_correct ⦃w = weight_of_real r⦄ laws.order text_lt m.graph mode
          (canonical_name n start) (canonical_name n end)
          (update_graph-IsSound v qt mode n k).graph_well (update_graph-NonNegative mode n built) in
      rw (there, arrives, built, find_shortest_path)
        (refl, Answers-Finds m mode (canonical_name n start) (canonical_name n end) _ right)
