-- ===== src/Yen/Kept.antt =====
-- What `createDiverseModifiedGraph` of src/graph/Algorithms.h keeps of the graph that it changes.
use mathlib.Core.List.Memᴰ
use terminal_sim.Prelude.{
  ℕ, ⊎_elim, inl, inr, refl, sym, subst, List, [], ◌∷◌, Memᴰ, Memᴰ-keep_if, Eq, if_elim, ◌==◌,
  Option-cases,
}
use terminal_sim.Prelude.Maps
use terminal_sim.Common.{Mode}
use terminal_sim.Weight.{Weight}
use terminal_sim.Graph.{
  Edge, Graph, add_edge, add_edges, add_vertices, copy_lists, deep_copy, empty, key_of, outgoing,
  remove_edge,
}
use terminal_sim.Graph.WellFormed.{WellFormed, add_edge-WellFormed, empty-WellFormed, mem-add_edge}
use terminal_sim.Graph.RemoveEdge.{remove_edge-Removes, remove_edge-WellFormed}
use terminal_sim.Graph.Copies.{add_vertices-WellFormed}
use terminal_sim.Dijkstra.{PathInfo}
use terminal_sim.Paths.{edge_path_to_vertex_path}
use terminal_sim.Yen.{next_after}
use terminal_sim.Yen.Modified.{no_edges}
use terminal_sim.Yen.Diverse.{
  create_diverse_graph, penalize, penalize_all, penalize_from, remove_edges, remove_next,
  unlink_back, usage,
}

module _ {V W : Type 0} (P : Edge V W → Type 0) where
  abbrev pub Each : List (Edge V W) → Type 0
  Each [] = Unit {0}
  Each (d ∷ ds) = P d × Each ds

  -- Every edge that an adjacency list holds passes `P`.
  abbrev pub AllLists : List (V × List (Edge V W)) → Type 0
  AllLists [] = Unit {0}
  AllLists (entry ∷ m) = Each entry.1 × AllLists m

  Each-mem : (ds : List (Edge V W)) → ((d : Edge V W) → Memᴰ d ds → P d) → Each ds
  Each-mem [] f = tt
  Each-mem (d ∷ ds) f = (f d (Memᴰ.head refl), Each-mem ds (λ x m. f x (Memᴰ.tail m)))

  mem-Each : (ds : List (Edge V W)) (d : Edge V W) → Each ds → Memᴰ d ds → P d
  mem-Each [] d k m = absurd (Memᴰ.not-nil m)
  mem-Each (x ∷ ds) d k m = elim (Memᴰ.cases_cons m) [
    | inl same ↦ subst P (sym same) k.0
    | inr later ↦ mem-Each ds d k.1 later
  ]

module _ {V W : Type 0} ⦃e : Eq V⦄ (P : Edge V W → Type 0) where
  -- A well-formed graph whose edges pass `P`.
  abbrev pub Kept : Graph V W → Type 0
  Kept h = WellFormed h × ((u : V) (d : Edge V W) → Memᴰ d (outgoing u h) → P d)

  pub Kept-AllLists : (g : Graph V W) → WellFormed g → AllLists P g.adjacency → Kept g
  unfolding outgoing Maps.get_or
  Kept-AllLists g wf k = (wf, λ u d m. read u d g.adjacency k m)
    where
      read :
          (u : V) (d : Edge V W) (m : List (V × List (Edge V W)))
          → AllLists P m
          → Memᴰ d (Maps.get_or u m [])
          → P d
      read u d [] k h = absurd (Memᴰ.not-nil h)
      read u d ((v, ds) ∷ m) k h =
          if_elim (λ l. Memᴰ d l → P d) (v == u) (λ _. mem-Each P ds d k.0) (λ _. read u d m k.1) h

  Kept-add_edge :
      (s t : V) (x : W) (m : Mode) (h : Graph V W)
      → P (record { source = s; target = t; weight = x; mode = m })
      → Kept h
      → Kept (add_edge s t x m h).0
  Kept-add_edge s t x m h p (wf, k) = (
    add_edge-WellFormed s t x m h wf,
    λ u d mem. ⊎_elim (k u d) (λ (at, same). subst P (sym same) p) (mem-add_edge s t x m h u d mem),
  )

  Kept-remove_edge : (s t : V) (m : Mode) (h : Graph V W) → Kept h → Kept (remove_edge s t m h).0
  Kept-remove_edge s t m h (wf, k) = (
    remove_edge-WellFormed s t m h wf,
    λ u d mem.
        k u d
          ((Memᴰ-keep_if _ d (outgoing u h)).0
            (subst (λ l. Memᴰ d l) ((remove_edge-Removes s t m h wf).0.lists u) mem)).0,
  )

  Kept-add_edges :
      (ds : List (Edge V W)) (h : Graph V W) → Each P ds → Kept h → Kept (add_edges ds h)
  unfolding add_edges
  Kept-add_edges [] h each k = k
  Kept-add_edges (d ∷ ds) h each k =
      Kept-add_edges ds (add_edge d.source d.target d.weight d.mode h).0 each.1
        (Kept-add_edge d.source d.target d.weight d.mode h each.0 k)

  Kept-copy_lists :
      (m : List (V × List (Edge V W))) (h : Graph V W)
      → AllLists P m
      → Kept h
      → Kept (copy_lists m h)
  unfolding copy_lists
  Kept-copy_lists [] h each k = k
  Kept-copy_lists ((u, es) ∷ m) h each k =
      Kept-copy_lists m (add_edges es h) each.1 (Kept-add_edges es h each.0 k)

  Kept-deep_copy : (g : Graph V W) → AllLists P g.adjacency → Kept (deep_copy g)
  unfolding deep_copy empty outgoing Maps.get_or
  Kept-deep_copy g each = Kept-copy_lists g.adjacency (add_vertices g.vertices empty) each (
    add_vertices-WellFormed g.vertices empty empty-WellFormed,
    λ u d m. absurd (Memᴰ.not-nil (no_edges g.vertices empty (λ _ _ m. m) u d m)),
  )

  Kept-unlink_back : (vs : List V) (h : Graph V W) → Kept h → Kept (unlink_back vs h)
  unfolding unlink_back
  Kept-unlink_back [] h k = k
  Kept-unlink_back (a ∷ []) h k = k
  Kept-unlink_back (a ∷ b ∷ vs) h k =
      Kept-unlink_back (b ∷ vs) (remove_edge b a Mode.any h).0 (Kept-remove_edge b a Mode.any h k)

  Kept-remove_edges : (ds : List (Edge V W)) (h : Graph V W) → Kept h → Kept (remove_edges ds h)
  unfolding remove_edges
  Kept-remove_edges [] h k = k
  Kept-remove_edges (d ∷ ds) h k =
      Kept-remove_edges ds (remove_edge d.source d.target d.mode h).0
        (Kept-remove_edge d.source d.target d.mode h k)

  module _ (raised : W → ℕ → W)
      (heavier : (d : Edge V W) (n : ℕ) → P d → P (record d { weight = raised d.weight n }))
      (found : List (PathInfo V W)) where
    Kept-penalize : (h : Graph V W) (d : Edge V W) → P d → Kept h → Kept (penalize raised found h d)
    unfolding penalize
    Kept-penalize h d p k =
        if_elim Kept _
          (λ _.
            Kept-add_edge d.source d.target (raised d.weight (usage (key_of d) found)) d.mode
              (remove_edge d.source d.target d.mode h).0 (heavier d (usage (key_of d) found) p)
              (Kept-remove_edge d.source d.target d.mode h k))
          (λ _. k)

    Kept-penalize_all :
        (ds : List (Edge V W)) (h : Graph V W)
        → Each P ds
        → Kept h
        → Kept (penalize_all raised found ds h)
    unfolding penalize_all
    Kept-penalize_all [] h each k = k
    Kept-penalize_all (d ∷ ds) h each k =
        Kept-penalize_all ds (penalize raised found h d) each.1 (Kept-penalize h d each.0 k)

    Kept-penalize_from :
        (us : List V) (h : Graph V W) → Kept h → Kept (penalize_from raised found us h)
    unfolding penalize_from
    Kept-penalize_from [] h k = k
    Kept-penalize_from (u ∷ us) h k =
        Kept-penalize_from us (penalize_all raised found (outgoing u h) h)
          (Kept-penalize_all (outgoing u h) h (Each-mem P (outgoing u h) (k.1 u)) k)

  module _ ⦃w : Weight W⦄ where
    Kept-remove_next :
        (spur : V) (root : List (Edge V W)) (ps : List (PathInfo V W)) (h : Graph V W)
        → Kept h
        → Kept (remove_next spur root ps h)
    unfolding remove_next
    Kept-remove_next spur root [] h k = k
    Kept-remove_next spur root (p ∷ ps) h k =
        Kept-remove_next spur root ps _ (elim (Option-cases (next_after root p.path)) [
          | inl nothing ↦ rw nothing k
          | inr (d, next) ↦ rw next (
              if_elim Kept (d.source == spur) (λ _. Kept-remove_edge d.source d.target d.mode h k)
                (λ _. k))
        ])

    pub create_diverse_graph-Kept :
        (raised : W → ℕ → W) (g : Graph V W) (spur : V) (root : List (Edge V W))
        (found : List (PathInfo V W)) (source : V)
        → ((d : Edge V W) (n : ℕ) → P d → P (record d { weight = raised d.weight n }))
        → AllLists P g.adjacency
        → Kept (create_diverse_graph raised g spur root found source)
    unfolding create_diverse_graph
    create_diverse_graph-Kept raised g spur root found source heavier each =
        let unlinked = unlink_back (edge_path_to_vertex_path root source) (deep_copy g) in
        let h = remove_next spur root found (remove_edges root unlinked) in
        Kept-penalize_from raised heavier found h.vertices h (
          Kept-remove_next spur root found (remove_edges root unlinked) (
            Kept-remove_edges root unlinked (
              Kept-unlink_back (edge_path_to_vertex_path root source) (deep_copy g)
                (Kept-deep_copy g each))))
