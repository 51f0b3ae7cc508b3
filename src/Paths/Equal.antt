-- ===== src/Paths/Equal.antt =====
-- `areEdgePathsEqual` of src/graph/Algorithms.h.
use terminal_sim.Prelude.{◌≡◌, ◌↔◌, true, Eq, nat_eq, length, List, [], ◌∷◌, arith, ap}
use terminal_sim.Common.{mode_eq}
use terminal_sim.Weight.{Weight, IsOrdered}
use terminal_sim.Graph.{Edge}
use terminal_sim.Paths.{are_edge_paths_equal, same_edges}

module _ {V W : Type 0} ⦃e : Eq V⦄ ⦃w : Weight W⦄ (laws : IsOrdered W) where
  same_edges_iff : (p q : List (Edge V W)) → length p ≡ length q → (same_edges p q ≡ true) ↔ (p ≡ q)
  unfolding same_edges
  same_edges_iff [] [] h = ground arith
  same_edges_iff [] (d ∷ ds) h = ground (arith, h)
  same_edges_iff (c ∷ cs) [] h = ground (arith, h)
  same_edges_iff (c ∷ cs) (d ∷ ds) h = ground (
    arith,
    h,
    same_edges_iff cs ds,
    e.same_iff c.source d.source,
    e.same_iff c.target d.target,
    laws.same_iff c.weight d.weight,
    mode_eq.same_iff c.mode d.mode,
  )

  -- Under a weight type whose test of equality is equality, `areEdgePathsEqual` tells whether two
  -- paths are the same list of edges.
  pub are_edge_paths_equal_iff :
      (p q : List (Edge V W)) → (are_edge_paths_equal p q ≡ true) ↔ (p ≡ q)
  unfolding are_edge_paths_equal
  are_edge_paths_equal_iff p q = ground (
    arith,
    same_edges_iff p q,
    nat_eq.same_iff (length p) (length q),
    λ (h : p ≡ q). ap (λ (x : List (Edge V W)). length x) h,
  )
