-- ===== src/Network/Graphs.antt =====
-- The graph that `updateGraph` of src/terminal/terminal_graph.cpp builds, against the data of the
-- routes.
use terminal_sim.Prelude.{
  ◌≡◌, ◌≢◌, refl, sym, ap, ◌∙◌, subst, inl, inr, Bool, true, false, not, ◌||◌, ◌&&◌, List, [], ◌∷◌,
  Text, text_eq, arith, if_elim, ◌==◌,
}
use terminal_sim.Prelude.Maps
use terminal_sim.Prelude.Sets
use terminal_sim.Common.{Mode, Qt, mode_eq}
use terminal_sim.Real.{Real}
use terminal_sim.Reply.{ok, throws, ok_inj, >>=-ok, Reply-cases}
use terminal_sim.Graph.{
  EdgeKey, Graph, add_edge, add_vertex, add_vertices, empty, key_beq_iff, key_eq,
}
use terminal_sim.Graph.WellFormed.{has-add_edge}
use terminal_sim.Network.{EdgeData, Network, Variant}
use terminal_sim.Network.Routes.{build_all, build_edges, names, route_cost, update_graph}
use terminal_sim.Network.Invariant.{AllEntries, IsGoodEntry, IsSound}
use terminal_sim.Network.Invariant.Routed.{build_all-keeps, has_terminals}

-- The edges of a mode in the search for a mode.
abbrev pub admits : Mode → Mode → Bool
admits requested mode = requested == Mode.any || mode == requested

contains-add_edge :
    {T : Type 0} (key k : EdgeKey Text) (cost : T) (g : Graph Text T)
    → key.mode ≢ Mode.any
    → Maps.has key.source g.adjacency ≡ true
    → Maps.has key.target g.adjacency ≡ true
    → Sets.contains k (add_edge key.source key.target cost key.mode g).0.edges
      ≡ (key == k || Sets.contains k g.edges)
unfolding add_edge
contains-add_edge key k cost g some_mode hs ht = ground (
  arith,
  mode_eq.same_iff key.mode Mode.any,
  key_beq_iff ⦃e = text_eq⦄ key k,
  λ (q : key ≡ k). ap (λ y. Sets.contains y g.edges) q,
  Sets.contains-insert key k g.edges,
)

edges-add_vertices :
    {T : Type 0} (vs : List Text) (g : Graph Text T) → (add_vertices vs g).edges ≡ g.edges
unfolding add_vertices add_vertex
edges-add_vertices [] g = refl
edges-add_vertices (v ∷ vs) g = edges-add_vertices vs (add_vertex v g).0 ∙ ground arith

module _ {H Q T : Type 0} ⦃r : Real T⦄ (v : Variant Q T) (qt : Qt) (n : Network H Q T)
    (mode : Mode) where
  -- The vertices are the terminals.
  abbrev Covers : Graph Text T → Type 0
  Covers g = (y : Text) → Maps.has y g.adjacency ≡ Maps.has y n.terminals

  -- What one entry of the data adds.
  build_edges-adds :
      (key : EdgeKey Text) (xs : List (EdgeData Q)) (g built : Graph Text T)
      → IsGoodEntry n.terminals (key, xs)
      → Covers g
      → build_edges v qt n mode key xs g ≡ ok built
      → Covers built
        × ((k : EdgeKey Text)
            → Sets.contains k built.edges
              ≡ ((key == k && admits mode key.mode) || Sets.contains k g.edges))
  unfolding build_edges
  build_edges-adds key xs g built ((x, one, same), some_mode, hs, ht) c h =
      if_elim (λ reply. reply ≡ ok built → Adds) (not (mode == Mode.any) && not (x.mode == mode))
        (λ skipped done. (
          subst Covers (ok_inj done) c,
          λ k.
              sym (ap (λ y. Sets.contains k y.edges) (ok_inj done))
              ∙ unchanged k (rw same at skipped),
        ))
        (λ taken done.
          let (cost, priced, later) = >>=-ok (route_cost v qt n key.source key.target x) _ done in
          added cost (rw same at taken) (rw same at later))
        (rw one at h)
    where
      Adds : Type 0
      Adds =
          Covers built
          × ((k : EdgeKey Text)
              → Sets.contains k built.edges
                ≡ ((key == k && admits mode key.mode) || Sets.contains k g.edges))

      unchanged :
          (k : EdgeKey Text)
          → (not (mode == Mode.any) && not (key.mode == mode)) ≡ true
          → Sets.contains k g.edges
            ≡ ((key == k && admits mode key.mode) || Sets.contains k g.edges)
      unchanged k h = ground arith

      added :
          (cost : T)
          → (not (mode == Mode.any) && not (key.mode == mode)) ≡ false
          → ok (add_edge key.source key.target cost key.mode g).0 ≡ ok built
          → Adds
      added cost taken done =
          subst
            (λ y.
              Covers y
              × ((k : EdgeKey Text)
                  → Sets.contains k y.edges
                    ≡ ((key == k && admits mode key.mode) || Sets.contains k g.edges)))
            (ok_inj done)
            (
              λ y. has-add_edge key.source key.target cost key.mode g y ∙ c y,
              λ k.
                  let plus =
                    contains-add_edge key k cost g some_mode (c key.source ∙ hs)
                      (c key.target ∙ ht) in
                  ground arith,
            )

  build_all-adds :
      (m : List (EdgeKey Text × List (EdgeData Q))) (g built : Graph Text T)
      → AllEntries (IsGoodEntry n.terminals) m
      → Covers g
      → build_all v qt n mode m g ≡ ok built
      → (k : EdgeKey Text)
      → Sets.contains k built.edges
        ≡ ((Maps.has k m && admits mode k.mode) || Sets.contains k g.edges)
  unfolding build_all Maps.has
  build_all-adds [] g built good c h k = ap (λ y. Sets.contains k y.edges) (sym (ok_inj h))
  build_all-adds (entry ∷ m) g built good c h k =
      let (next, first, later) = >>=-ok (build_edges v qt n mode entry.0 entry.1 g) _ h in
      let (c', adds) = build_edges-adds entry.0 entry.1 g next good.0 c first in
      ground (
        arith,
        build_all-adds m next built good.1 c' later k,
        adds k,
        key_beq_iff ⦃e = text_eq⦄ entry.0 k,
        λ (q : entry.0 ≡ k). ap (λ y. y.mode) q,
        mode_eq.same_iff entry.0.mode mode,
        mode_eq.same_iff k.mode mode,
      )

  -- On a sound network the graph that `updateGraph` stores for a mode has the terminals for its
  -- vertices, and an edge of a key just if there is data of a route for the key and the mode admits
  -- it.
  pub update_graph-edges :
      {u : Unit {0}}
      → IsSound n
      → (update_graph v qt mode n).1 ≡ ok u
      → Covers (update_graph v qt mode n).0.graph
        × ((k : EdgeKey Text)
            → Sets.contains k (update_graph v qt mode n).0.graph.edges
              ≡ (Maps.has k n.edge_data && admits mode k.mode))
  unfolding update_graph empty Sets.contains
  update_graph-edges sound h = elim (Reply-cases (build_all v qt n mode n.edge_data start)) [
    | inr (f, failed) ↦
        let stopped : (update_graph v qt mode n).1 ≡ throws f = rw (failed, update_graph) refl in
        cc (h, stopped)
    | inl (built, done) ↦
        rw (done, update_graph)
          (
            λ y.
                build_all-keeps v qt (λ _. Unit {0})
                  (λ g. Maps.has y g.adjacency ≡ Maps.has y n.terminals)
                  (λ s t cost m g _ same. has-add_edge s t cost m g y ∙ same) n (λ s t x cost _. tt)
                  mode n.edge_data start built done (covers y),
            λ k. build_all-adds n.edge_data start built sound.entries covers done k ∙ none_before k,
          )
  ]
    where
      start : Graph Text T
      start = add_vertices (names n.terminals) empty

      covers : Covers start
      covers y = has_terminals T y n.terminals

      none_before :
          (k : EdgeKey Text)
          → ((Maps.has k n.edge_data && admits mode k.mode) || Sets.contains k start.edges)
            ≡ (Maps.has k n.edge_data && admits mode k.mode)
      none_before k =
          let nothing : Sets.contains k start.edges ≡ false =
            ap (λ y. Sets.contains k y) (edges-add_vertices (names n.terminals) empty) in
          ground arith
