-- ===== src/Paths.antt =====
-- The edge paths of src/graph/Algorithms.h, and its private helpers on them.
pub mod Equal
use terminal_sim.Prelude.{
  Bool, true, false, not, ◌||◌, if◌then◌else◌, Eq, ◌==◌, nat_eq, length, ◌≡◌, refl, List, [], ◌∷◌,
  ◌++◌, map,
}
use terminal_sim.Common.{mode_eq}
use terminal_sim.Weight.{Weight}
use terminal_sim.Graph.{Edge, EdgeKey, key_of}

module _ {V W : Type 0} ⦃w : Weight W⦄ where
  -- The running total of `calculateEdgePathWeight`.
  unfoldable pub weight_from : W → List (Edge V W) → W
  weight_from x [] = x
  weight_from x (d ∷ ds) = weight_from (w.add x d.weight) ds

  unfoldable pub path_weight : List (Edge V W) → W
  unfolding weight_from
  path_weight = weight_from w.nought

  pub weight_from-concat :
      (x : W) (ds : List (Edge V W)) (d : Edge V W)
      → weight_from x (ds ++ d ∷ []) ≡ w.add (weight_from x ds) d.weight
  unfolding weight_from
  weight_from-concat x [] d = refl
  weight_from-concat x (c ∷ ds) d = weight_from-concat (w.add x c.weight) ds d

module _ {V W : Type 0} where
  unfoldable pub targets : List (Edge V W) → List V
  targets [] = []
  targets (d ∷ ds) = d.target ∷ targets ds

  unfoldable pub edge_path_to_vertex_path : List (Edge V W) → V → List V
  unfolding targets
  edge_path_to_vertex_path [] source = source ∷ []
  edge_path_to_vertex_path (d ∷ ds) source = d.source ∷ targets (d ∷ ds)

  unfoldable pub path_signature : List (Edge V W) → List (EdgeKey V)
  path_signature = map key_of

module _ {V W : Type 0} ⦃e : Eq V⦄ ⦃w : Weight W⦄ where
  -- The loop of `areEdgePathsEqual` over two paths of one length.
  unfoldable pub same_edges : List (Edge V W) → List (Edge V W) → Bool
  same_edges (c ∷ cs) (d ∷ ds) =
      if not (c.source == d.source)
        || not (c.target == d.target)
        || not (w.same c.weight d.weight)
        || not (c.mode == d.mode)
      then false
      else same_edges cs ds
  same_edges _ _ = true

  unfoldable pub are_edge_paths_equal : List (Edge V W) → List (Edge V W) → Bool
  are_edge_paths_equal p q = if not (length p == length q) then false else same_edges p q
