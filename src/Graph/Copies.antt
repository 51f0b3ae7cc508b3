-- ===== src/Graph/Copies.antt =====
-- Graphs that are built by insertions.
pub mod Deep
use terminal_sim.Prelude.{List, [], ◌∷◌, Eq}
use terminal_sim.Common.{mode_eq}
use terminal_sim.Graph.{Edge, Graph, key_eq, add_vertex, add_edge, add_vertices, add_edges}
use terminal_sim.Graph.WellFormed.{add_vertex-WellFormed, add_edge-WellFormed, WellFormed}

module _ {V W : Type 0} ⦃e : Eq V⦄ where
  pub add_vertices-WellFormed :
      (vs : List V) (g : Graph V W) → WellFormed g → WellFormed (add_vertices vs g)
  unfolding add_vertices
  add_vertices-WellFormed [] g wf = wf
  add_vertices-WellFormed (v ∷ vs) g wf =
      add_vertices-WellFormed vs (add_vertex v g).0 (add_vertex-WellFormed v g wf)

  pub add_edges-WellFormed :
      (ds : List (Edge V W)) (g : Graph V W) → WellFormed g → WellFormed (add_edges ds g)
  unfolding add_edges
  add_edges-WellFormed [] g wf = wf
  add_edges-WellFormed (d ∷ ds) g wf =
      add_edges-WellFormed ds (add_edge d.source d.target d.weight d.mode g).0
        (add_edge-WellFormed d.source d.target d.weight d.mode g wf)
