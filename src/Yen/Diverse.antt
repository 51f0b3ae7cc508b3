-- ===== src/Yen/Diverse.antt =====
-- `kShortestPathsModified` and `createDiverseModifiedGraph` of src/graph/Algorithms.h. `raised x n`
-- stands for `x * (1.0 + n * 0.05)`. As in `Yen`, the newest path stands first, and of two candidates
-- of one weight the one found last is taken.
use mathlib.Core.Option
use terminal_sim.Prelude.{
  ℕ, zero, suc, ◌+◌, ◌-◌, Bool, not, ◌&&◌, ◌||◌, Option, none, some, List, [], ◌∷◌, ◌++◌, reverse,
  if◌then◌else◌, Eq, ◌==◌, any, ltb, list_beq,
}
use terminal_sim.Common.{Mode, mode_eq}
use terminal_sim.Weight.{Weight}
use terminal_sim.Graph.{
  Edge, EdgeKey, Graph, add_edge, deep_copy, key_eq, key_of, outgoing, remove_edge,
}
use terminal_sim.Paths.{edge_path_to_vertex_path, path_signature, path_weight}
use terminal_sim.Dijkstra.{PathInfo, dijkstra}
use terminal_sim.Yen.{next_after, pop_candidate}

module _ {V W : Type 0} ⦃e : Eq V⦄ where
  -- No edge leads from a vertex of the root path back to the one before it.
  unfoldable pub unlink_back : List V → Graph V W → Graph V W
  unlink_back [] h = h
  unlink_back (a ∷ []) h = h
  unlink_back (a ∷ b ∷ vs) h = unlink_back (b ∷ vs) (remove_edge b a Mode.any h).0

  unfoldable pub remove_edges : List (Edge V W) → Graph V W → Graph V W
  remove_edges [] h = h
  remove_edges (d ∷ ds) h = remove_edges ds (remove_edge d.source d.target d.mode h).0

  unfoldable pub count_edges : EdgeKey V → List (Edge V W) → ℕ
  count_edges key [] = 0
  count_edges key (d ∷ ds) = (if key_of d == key then 1 else 0) + count_edges key ds

  -- `edgeUsageCount`.
  unfoldable pub usage : EdgeKey V → List (PathInfo V W) → ℕ
  usage key [] = 0
  usage key (p ∷ ps) = count_edges key p.path + usage key ps

  module _ (raised : W → ℕ → W) (found : List (PathInfo V W)) where
    -- An edge of more than two paths becomes heavier, if its vertex has another edge.
    unfoldable pub penalize : Graph V W → Edge V W → Graph V W
    penalize h d =
        let n = usage (key_of d) found in
        if ltb 2 n
          && any (λ a. not (a.target == d.target) || not (a.mode == d.mode)) (outgoing d.source h)
        then (add_edge d.source d.target (raised d.weight n) d.mode
            (remove_edge d.source d.target d.mode h).0).0
        else h

    unfoldable pub penalize_all : List (Edge V W) → Graph V W → Graph V W
    penalize_all [] h = h
    penalize_all (d ∷ ds) h = penalize_all ds (penalize h d)

    unfoldable pub penalize_from : List V → Graph V W → Graph V W
    penalize_from [] h = h
    penalize_from (u ∷ us) h = penalize_from us (penalize_all (outgoing u h) h)

  module _ ⦃w : Weight W⦄ where
    -- The edge that a known path with this root takes from the spur node.
    unfoldable pub remove_next : V → List (Edge V W) → List (PathInfo V W) → Graph V W → Graph V W
    remove_next spur root [] h = h
    remove_next spur root (p ∷ ps) h =
        remove_next spur root ps (elim (next_after root p.path) as (λ _. Graph V W) [
          | none ↦ h
          | some d ↦ if d.source == spur then (remove_edge d.source d.target d.mode h).0 else h
        ])

    unfoldable pub create_diverse_graph :
        (W → ℕ → W) → Graph V W → V → List (Edge V W) → List (PathInfo V W) → V → Graph V W
    create_diverse_graph raised g spur root found source =
        let unlinked = unlink_back (edge_path_to_vertex_path root source) (deep_copy g) in
        let h = remove_next spur root found (remove_edges root unlinked) in
        penalize_from raised found h.vertices h

-- The candidates, and `seenPathSignatures`.
pub record Pool (V W : Type 0) : Type 0 where
  pub candidates : List (PathInfo V W)
  pub seen : List (List (EdgeKey V))

abbrev pub at_most_three {ℓ} : {A : Type ℓ} → List A → List A
at_most_three [] = []
at_most_three (a ∷ []) = a ∷ []
at_most_three (a ∷ b ∷ []) = a ∷ b ∷ []
at_most_three (a ∷ b ∷ c ∷ _) = a ∷ b ∷ c ∷ []

module _ {V W : Type 0} ⦃e : Eq V⦄ ⦃w : Weight W⦄ (vertex_lt : V → V → Bool) (raised : W → ℕ → W)
    (g : Graph V W) (mode : Mode) (source target : V) where
  -- A path that has not been seen becomes a candidate.
  unfoldable pub offer : List (Edge V W) → PathInfo V W → Pool V W → Pool V W
  offer root spur pool =
      let total = root ++ spur.path in
      if any (λ s. list_beq s (path_signature total)) pool.seen then pool else (record {
        candidates = record { path = total; total = path_weight total } ∷ pool.candidates;
        seen = path_signature total ∷ pool.seen;
      })

  unfoldable pub deviations :
      List (PathInfo V W) → List (Edge V W) → List (Edge V W) → Pool V W → Option (Pool V W)
  deviations found root [] pool = some pool
  deviations found root (d ∷ ds) pool =
      let h = create_diverse_graph raised g d.source root (reverse found) source in
      elim (dijkstra vertex_lt h mode d.source target) as (λ _. Option (Pool V W)) [
        | none ↦ none
        | some none ↦ deviations found (root ++ d ∷ []) ds pool
        | some (some spur) ↦ deviations found (root ++ d ∷ []) ds (offer root spur pool)
      ]

  unfoldable pub deviate_from :
      List (PathInfo V W) → List (PathInfo V W) → Pool V W → Option (Pool V W)
  deviate_from found [] pool = some pool
  deviate_from found (p ∷ ps) pool =
      elim (deviations found [] p.path pool) as (λ _. Option (Pool V W)) [
        | none ↦ none
        | some more ↦ deviate_from found ps more
      ]

  unfoldable pub diverse_rounds :
      ℕ → PathInfo V W → List (PathInfo V W) → Pool V W → Option (List (PathInfo V W))
  diverse_rounds zero newest older pool = some (newest ∷ older)
  diverse_rounds (suc n) newest older pool =
      elim (deviate_from (newest ∷ older) (at_most_three (newest ∷ older)) pool)
        as (λ _. Option (List (PathInfo V W))) [
          | none ↦ none
          | some all ↦ elim (pop_candidate all.candidates) as (λ _. Option (List (PathInfo V W))) [
            | none ↦ some (newest ∷ older)
            | some (best, rest) ↦
                diverse_rounds n best (newest ∷ older) (record all { candidates = rest })
          ]
        ]

  unfoldable pub k_shortest_paths_modified : ℕ → Option (List (PathInfo V W))
  k_shortest_paths_modified k =
      elim (dijkstra vertex_lt g mode source target) as (λ _. Option (List (PathInfo V W))) [
        | none ↦ none
        | some none ↦ some []
        | some (some first) ↦ Option.map reverse (
            diverse_rounds (k - 1) first []
              (record { candidates = []; seen = path_signature first.path ∷ [] }))
      ]
