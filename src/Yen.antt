-- ===== src/Yen.antt =====
-- `kShortestPaths` and `createModifiedGraph` of src/graph/Algorithms.h. The paths found so far are
-- kept with the newest first. The queue of candidates is a list: of two candidates of one weight
-- the code may take either, here the one that was found last. As in `Dijkstra`, an outer `none`
-- says that a search ran out of fuel.
pub mod Modified
pub mod Exact
pub mod Diverse
pub mod Kept
pub mod Varied
use mathlib.Core.Option
use terminal_sim.Prelude.{
  ℕ, zero, suc, ◌-◌, Bool, true, false, not, ◌&&◌, ◌||◌, Option, none, some, List, [], ◌∷◌, ◌++◌,
  reverse, if◌then◌else◌, Eq, ◌==◌, any,
}
use terminal_sim.Common.{Mode, mode_eq}
use terminal_sim.Weight.{Weight}
use terminal_sim.Graph.{Edge, Graph, add_edge, add_vertices, edge_beq, empty, outgoing}
use terminal_sim.Paths.{are_edge_paths_equal, edge_path_to_vertex_path, path_weight}
use terminal_sim.Dijkstra.{PathInfo, dijkstra}

-- `path.back()`, with what is taken of an empty path.
abbrev pub last {ℓ} : {A : Type ℓ} → A → List A → A
last a [] = a
last a (x ∷ xs) = last x xs

module _ {V W : Type 0} ⦃w : Weight W⦄ where
  -- `candidates.top()` and `candidates.pop()`.
  unfoldable pub lightest : PathInfo V W → List (PathInfo V W) → PathInfo V W × List (PathInfo V W)
  lightest best [] = (best, [])
  lightest best (x ∷ xs) =
      let rest = lightest (if w.lt x.total best.total then x else best) xs in
      (rest.0, (if w.lt x.total best.total then best else x) ∷ rest.1)

  unfoldable pub pop_candidate : List (PathInfo V W) → Option (PathInfo V W × List (PathInfo V W))
  pop_candidate [] = none
  pop_candidate (x ∷ xs) = some (lightest x xs)

module _ {V W : Type 0} ⦃e : Eq V⦄ where
  unfoldable pub add_unless : (Edge V W → Bool) → List (Edge V W) → Graph V W → Graph V W
  add_unless skip [] h = h
  add_unless skip (d ∷ ds) h =
      add_unless skip ds (if skip d then h else (add_edge d.source d.target d.weight d.mode h).0)

  unfoldable pub copy_unless : (V → Edge V W → Bool) → Graph V W → List V → Graph V W → Graph V W
  copy_unless skip g [] h = h
  copy_unless skip g (u ∷ us) h = copy_unless skip g us (add_unless (skip u) (outgoing u g) h)

module _ {V W : Type 0} ⦃e : Eq V⦄ ⦃w : Weight W⦄ where
  -- The edge of a path that follows the edges of `root`, if the path begins with them.
  unfoldable pub next_after : List (Edge V W) → List (Edge V W) → Option (Edge V W)
  next_after [] [] = none
  next_after [] (d ∷ ds) = some d
  next_after (r ∷ rs) [] = none
  next_after (r ∷ rs) (d ∷ ds) = let rest = next_after rs ds in if edge_beq d r then rest else none

  -- A known path goes on with the edge `d`.
  unfoldable pub goes_on : List (Edge V W) → Edge V W → List (Edge V W) → Bool
  goes_on root d path = elim (next_after root path) as (λ _. Bool) [
    | none ↦ false
    | some n ↦ n.source == d.source && n.target == d.target && n.mode == d.mode
  ]

  -- `skipEdge` of an edge in the list of the vertex `u`.
  unfoldable pub skip_edge : V → List (Edge V W) → List (PathInfo V W) → V → Edge V W → Bool
  skip_edge spur root found u d =
      any (edge_beq d) root || (u == spur && any (λ p. goes_on root d p.path) found)

  unfoldable pub create_modified_graph :
      Graph V W → List V → List (Edge V W) → List (PathInfo V W) → V → Graph V W
  create_modified_graph g root_vertices root found source =
      let spur = elim root as (λ _. V) [
        | [] ↦ last source root_vertices
        | d ∷ _ ↦ last d.source root_vertices
      ] in
      copy_unless (skip_edge spur root found) g g.vertices (add_vertices g.vertices empty)

module _ {V W : Type 0} ⦃e : Eq V⦄ ⦃w : Weight W⦄ (vertex_lt : V → V → Bool) (g : Graph V W)
    (mode : Mode) (source target : V) where
  -- The paths that a spur path gives rise to: none, if it is known already.
  unfoldable pub candidate :
      List (PathInfo V W)
      → List (Edge V W)
      → PathInfo V W
      → List (PathInfo V W)
      → List (PathInfo V W)
  candidate found root spur candidates =
      let total = root ++ spur.path in
      if any (λ p. are_edge_paths_equal p.path total) found
      then candidates
      else record { path = total; total = path_weight total } ∷ candidates

  -- The loop over the edges of the previous path: `root` are those before the spur node.
  unfoldable pub spur_loop :
      List (PathInfo V W)
      → List (Edge V W)
      → List (Edge V W)
      → List (PathInfo V W)
      → Option (List (PathInfo V W))
  spur_loop found root [] candidates = some candidates
  spur_loop found root (d ∷ ds) candidates =
      let h =
        create_modified_graph g (edge_path_to_vertex_path root source) root (reverse found)
          source in
      elim (dijkstra vertex_lt h mode d.source target) as (λ _. Option (List (PathInfo V W))) [
        | none ↦ none
        | some none ↦ spur_loop found (root ++ d ∷ []) ds candidates
        | some (some spur) ↦
            spur_loop found (root ++ d ∷ []) ds (candidate found root spur candidates)
      ]

  -- The `k - 1` rounds: `newest` is `kPaths.back()`, `older` are those before it.
  unfoldable pub yen_rounds :
      ℕ → PathInfo V W → List (PathInfo V W) → List (PathInfo V W) → Option (List (PathInfo V W))
  yen_rounds zero newest older candidates = some (newest ∷ older)
  yen_rounds (suc n) newest older candidates =
      elim (spur_loop (newest ∷ older) [] newest.path candidates)
        as (λ _. Option (List (PathInfo V W))) [
          | none ↦ none
          | some all ↦ elim (pop_candidate all) as (λ _. Option (List (PathInfo V W))) [
            | none ↦ some (newest ∷ older)
            | some (best, rest) ↦ yen_rounds n best (newest ∷ older) rest
          ]
        ]

  unfoldable pub k_shortest_paths : ℕ → Option (List (PathInfo V W))
  k_shortest_paths k =
      elim (dijkstra vertex_lt g mode source target) as (λ _. Option (List (PathInfo V W))) [
        | none ↦ none
        | some none ↦ some []
        | some (some first) ↦ Option.map reverse (yen_rounds (k - 1) first [] [])
      ]
