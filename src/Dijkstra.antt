-- ===== src/Dijkstra.antt =====
-- `GraphAlgorithms::dijkstraShortestPath` of src/graph/Algorithms.h. The priority queue is a list
-- from which the least pair is taken; `distance[v]` of a missing key reads as zero, as `operator[]`
-- of the map gives it. Loops take fuel: an outer `none` says that it ran out, or that the
-- reconstruction met a vertex with no previous edge.
pub mod Queue
pub mod Walk
pub mod Trace
pub mod Start
pub mod Invariant
pub mod Lowers
pub mod Relax
pub mod Expand
pub mod Rounds
pub mod Loop
pub mod Correct
use mathlib.Core.Option
use terminal_sim.Prelude.{
  ℕ, zero, suc, ◌+◌, Bool, true, false, not, ◌&&◌, ◌||◌, Option, none, some, List, [], ◌∷◌, reverse,
  if◌then◌else◌, Eq, ◌==◌, length,
}
use terminal_sim.Prelude.Maps
use terminal_sim.Prelude.Sets
use terminal_sim.Common.{Mode, mode_eq}
use terminal_sim.Weight.{Weight}
use terminal_sim.Graph.{Edge, Graph, outgoing}

pub record Item (V W : Type 0) : Type 0 where
  pub dist : W
  pub vertex : V

pub record Search (V W : Type 0) : Type 0 where
  pub distance : List (V × W)
  pub previous : List (V × Edge V W)
  pub visited : List V
  pub queue : List (Item V W)

-- `EdgePathInfo`.
pub record PathInfo (V W : Type 0) : Type 0 where
  pub path : List (Edge V W)
  pub total : W

pub data Round (V W : Type 0) : Type 0 where
  stop again : Search V W → Round V W

-- The edges that a search under `mode` passes over.
abbrev pub skips : {V W : Type 0} → Mode → Edge V W → Bool
skips mode d = not (mode == Mode.any) && not (d.mode == mode) && not (d.mode == Mode.any)

module _ {V W : Type 0} ⦃w : Weight W⦄ (vertex_lt : V → V → Bool) where
  -- `operator<` of `std::pair<WeightType, VertexIdType>`.
  unfoldable pub before : Item V W → Item V W → Bool
  before a b = w.lt a.dist b.dist || (not (w.lt b.dist a.dist) && vertex_lt a.vertex b.vertex)

  unfoldable pub extract : Item V W → List (Item V W) → Item V W × List (Item V W)
  extract best [] = (best, [])
  extract best (x ∷ xs) =
      let rest = extract (if before x best then x else best) xs in
      (rest.0, (if before x best then best else x) ∷ rest.1)

  -- `pq.top()` and `pq.pop()`.
  unfoldable pub pop : List (Item V W) → Option (Item V W × List (Item V W))
  pop [] = none
  pop (x ∷ xs) = some (extract x xs)

module _ {V W : Type 0} ⦃e : Eq V⦄ ⦃w : Weight W⦄ where
  abbrev pub dist : Search V W → V → W
  dist s v = Maps.get_or v s.distance w.nought

  abbrev pub improved : W → Search V W → Edge V W → Search V W
  improved du s d = record s {
    distance = Maps.insert d.target (w.add du d.weight) s.distance;
    previous = Maps.insert d.target d s.previous;
    queue = record { dist = w.add du d.weight; vertex = d.target } ∷ s.queue;
  }

  unfoldable pub relax : Mode → W → Search V W → Edge V W → Search V W
  relax mode du s d =
      if skips mode d
      then s
      else if w.lt (w.add du d.weight) (dist s d.target)
      then improved du s d
      else s

  unfoldable pub relax_all : Mode → W → Search V W → List (Edge V W) → Search V W
  relax_all mode du s [] = s
  relax_all mode du s (d ∷ ds) = relax_all mode du (relax mode du s d) ds

  unfoldable pub infinite : List V → List (V × W)
  infinite [] = []
  infinite (v ∷ vs) = Maps.insert v w.infinity (infinite vs)

  unfoldable pub start : Graph V W → V → Search V W
  start g source = record {
    distance = Maps.insert source w.nought (infinite g.vertices);
    previous = [];
    visited = [];
    queue = record { dist = w.nought; vertex = source } ∷ [];
  }

  -- The edges that leave vertices which are not visited.
  unfoldable pub edges_left : List V → List (V × List (Edge V W)) → ℕ
  edges_left visited [] = 0
  edges_left visited ((u, es) ∷ m) =
      (if Sets.contains u visited then 0 else length es) + edges_left visited m

  -- The walk back from `v` to the source, as `edgePath` is filled.
  unfoldable pub trace : V → List (V × Edge V W) → ℕ → V → Option (List (Edge V W))
  trace source previous zero v = none
  trace source previous (suc fuel) v =
      let back = elim (Maps.lookup v previous) as (λ _. Option (List (Edge V W))) [
        | none ↦ none
        | some d ↦ Option.map (◌∷◌ d) (trace source previous fuel d.source)
      ] in
      if v == source then some [] else back

  -- One round for each pair that the queue can come to hold, and one that finds it empty.
  unfoldable pub fuel_for : Graph V W → Search V W → ℕ
  fuel_for g s = suc (length s.queue + edges_left s.visited g.adjacency)

  unfoldable pub finish : V → V → Search V W → Option (Option (PathInfo V W))
  finish source target s =
      if w.same (dist s target) w.infinity
      then some none
      else Option.map (λ back. some (record { path = reverse back; total = dist s target }))
          (trace source s.previous (suc (length s.visited)) target)

module _ {V W : Type 0} ⦃e : Eq V⦄ ⦃w : Weight W⦄ (vertex_lt : V → V → Bool) (g : Graph V W)
    (mode : Mode) where
  -- What follows `pq.pop()`.
  unfoldable pub settle : V → Item V W → Search V W → Round V W
  settle target x s =
      if Sets.contains x.vertex s.visited
      then again s
      else if x.vertex == target
      then stop (record s { visited = x.vertex ∷ s.visited })
      else again (
          relax_all mode x.dist (record s { visited = x.vertex ∷ s.visited }) (outgoing x.vertex g))

  unfoldable pub round : V → Search V W → Round V W
  unfolding settle
  round target s = elim (pop vertex_lt s.queue) as (λ _. Round V W) [
    | none ↦ stop s
    | some (x, rest) ↦ settle target x (record s { queue = rest })
  ]

  unfoldable pub loop : V → ℕ → Search V W → Option (Search V W)
  loop target zero s = none
  loop target (suc fuel) s = elim (round target s) as (λ _. Option (Search V W)) [
    | stop t ↦ some t
    | again t ↦ loop target fuel t
  ]

  unfoldable pub dijkstra : V → V → Option (Option (PathInfo V W))
  unfolding finish
  dijkstra source target =
      let s = start g source in
      if not (Maps.has source s.distance) || not (Maps.has target s.distance)
      then some none
      else elim (loop target (fuel_for g s) s) as (λ _. Option (Option (PathInfo V W))) [
        | none ↦ none
        | some t ↦ finish source target t
      ]
