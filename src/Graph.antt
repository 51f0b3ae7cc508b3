-- ===== src/Graph.antt =====
-- src/graph/Edge.h and src/graph/Graph.h: a directed multigraph whose edges carry a weight and a
-- transportation mode. The adjacency lists are vectors, kept in order; the set of vertices and the
-- set of (source, target, mode) keys are sets. Logging is left out.
pub mod WellFormed
pub mod Copies
pub mod Removal
pub mod Erased
pub mod RemoveEdge
use mathlib.Core.Option
use terminal_sim.Prelude.{
  ◌≡◌, ◌↔◌, Bool, true, false, not, ◌&&◌, ◌||◌, Option, some, List, [], ◌∷◌, ◌++◌, arith,
  if◌then◌else◌, Eq, ◌==◌, any, keep_if, erase_first, length, ℕ,
}
use terminal_sim.Prelude.Maps
use terminal_sim.Prelude.Sets
use terminal_sim.Common.{Mode, mode_eq}
use terminal_sim.Weight.{Weight}

pub record Edge (V W : Type 0) : Type 0 where
  pub source : V
  pub target : V
  pub weight : W
  pub mode : Mode

-- The entries of `m_edges`.
pub record EdgeKey (V : Type 0) : Type 0 where
  pub source : V
  pub target : V
  pub mode : Mode

module _ {V : Type 0} ⦃e : Eq V⦄ where
  unfoldable pub key_beq : EdgeKey V → EdgeKey V → Bool
  key_beq a b = a.source == b.source && a.target == b.target && a.mode == b.mode

  pub key_beq_iff : (a b : EdgeKey V) → (key_beq a b ≡ true) ↔ (a ≡ b)
  unfolding key_beq
  key_beq_iff a b = ground (
    arith,
    e.same_iff a.source b.source,
    e.same_iff a.target b.target,
    mode_eq.same_iff a.mode b.mode,
  )

  instance abbrev pub key_eq : Eq (EdgeKey V)
  key_eq = record { same_key = key_beq; same_iff = key_beq_iff }

pub record Graph (V W : Type 0) : Type 0 where
  pub adjacency : List (V × List (Edge V W))
  pub vertices : List V
  pub edges : List (EdgeKey V)

module _ {V W : Type 0} where
  abbrev pub key_of : Edge V W → EdgeKey V
  key_of d = record { source = d.source; target = d.target; mode = d.mode }

  unfoldable pub empty : Graph V W
  empty = record { adjacency = []; vertices = []; edges = [] }

module _ {V W : Type 0} ⦃e : Eq V⦄ where
  -- `Edge::operator==`.
  unfoldable pub edge_beq : ⦃w : Weight W⦄ → Edge V W → Edge V W → Bool
  edge_beq ⦃w⦄ a b =
      a.source == b.source && a.target == b.target && w.same a.weight b.weight && a.mode == b.mode

  unfoldable pub add_vertex : V → Graph V W → Graph V W × Bool
  add_vertex id g = if Maps.has id g.adjacency then (g, false) else (
    record g { adjacency = Maps.insert id [] g.adjacency; vertices = Sets.insert id g.vertices },
    true,
  )

  abbrev pub incident : V → Edge V W → Bool
  incident id d = d.source == id || d.target == id

  unfoldable pub remove_vertex : V → Graph V W → Graph V W × Bool
  remove_vertex id g =
      if Maps.has id g.adjacency
      then (
        record {
          adjacency =
              Maps.remove id (Maps.map_values (keep_if (λ d. not (incident id d))) g.adjacency);
          vertices = Sets.remove id g.vertices;
          edges = keep_if (λ k. not (k.source == id || k.target == id)) g.edges;
        },
        true,
      )
      else (g, false)

  -- `none` is the `std::out_of_range` of `m_adjacencyList.at(source)`.
  unfoldable pub has_edge : V → V → Mode → Graph V W → Option Bool
  has_edge s t m g =
      if m == Mode.any
      then Option.map (any (λ d. d.target == t && d.source == s)) (Maps.lookup s g.adjacency)
      else some (Sets.contains (record { source = s; target = t; mode = m }) g.edges)

  unfoldable pub outgoing : V → Graph V W → List (Edge V W)
  outgoing s g = Maps.get_or s g.adjacency []

  unfoldable pub add_edge : V → V → W → Mode → Graph V W → Graph V W × Bool
  add_edge s t x m g =
      if m == Mode.any
      then (g, false)
      else if not (Maps.has s g.adjacency) || not (Maps.has t g.adjacency)
      then (g, false)
      else if Sets.contains (record { source = s; target = t; mode = m }) g.edges
      then (g, false)
      else (
        record g {
          adjacency =
              Maps.insert s
                (Maps.get_or s g.adjacency []
                  ++ record { source = s; target = t; weight = x; mode = m } ∷ [])
                g.adjacency;
          edges = Sets.insert (record { source = s; target = t; mode = m }) g.edges;
        },
        true,
      )

  -- The calls of `m_edges.erase` in the loop of `removeEdge`, one for each edge that it drops.
  unfoldable pub erase_keys : V → V → List (Edge V W) → List (EdgeKey V) → List (EdgeKey V)
  erase_keys s t [] keys = keys
  erase_keys s t (d ∷ ds) keys = erase_keys s t ds (
      if d.target == t
      then Sets.remove (record { source = s; target = t; mode = d.mode }) keys
      else keys)

  unfoldable pub remove_edge : V → V → Mode → Graph V W → Graph V W × Bool
  remove_edge s t m g =
      let es = Maps.get_or s g.adjacency [] in
      if not (Maps.has s g.adjacency) || not (Maps.has t g.adjacency)
      then (g, false)
      else if m == Mode.any
      then (
        record g {
          adjacency = Maps.insert s (keep_if (λ d. not (d.target == t)) es) g.adjacency;
          edges = erase_keys s t es g.edges;
        },
        any (λ d. d.target == t) es,
      )
      else if any (λ d. d.target == t && d.mode == m) es
      then (
        record g {
          adjacency =
              Maps.insert s (erase_first (λ d. d.target == t && d.mode == m) es) g.adjacency;
          edges = Sets.remove (record { source = s; target = t; mode = m }) g.edges;
        },
        true,
      )
      else (g, false)

  pub vertex_count : Graph V W → ℕ
  vertex_count g = length g.vertices

  pub edge_count : Graph V W → ℕ
  edge_count g = length g.edges

  unfoldable pub add_vertices : List V → Graph V W → Graph V W
  add_vertices [] g = g
  add_vertices (v ∷ vs) g = add_vertices vs (add_vertex v g).0

  unfoldable pub add_edges : List (Edge V W) → Graph V W → Graph V W
  add_edges [] g = g
  add_edges (d ∷ ds) g = add_edges ds (add_edge d.source d.target d.weight d.mode g).0

  unfoldable pub copy_lists : List (V × List (Edge V W)) → Graph V W → Graph V W
  copy_lists [] g = g
  copy_lists ((u, es) ∷ m) g = copy_lists m (add_edges es g)

  unfoldable pub deep_copy : Graph V W → Graph V W
  deep_copy g = copy_lists g.adjacency (add_vertices g.vertices empty)
