-- ===== src/Yen/Modified.antt =====
-- The graph that `createModifiedGraph` builds, against the graph that it is made from.
use mathlib.Core.List.Memᴰ
use terminal_sim.Prelude.{
  inl, inr, refl, sym, subst, Bool, List, [], ◌∷◌, Memᴰ, Eq, if_elim, if◌then◌else◌,
}
use terminal_sim.Prelude.Maps
use terminal_sim.Weight.{Weight}
use terminal_sim.Graph.{Edge, Graph, add_edge, add_vertex, add_vertices, empty, outgoing}
use terminal_sim.Graph.WellFormed.{
  WellFormed, add_edge-WellFormed, empty-WellFormed, mem-add_edge, outgoing-add_vertex,
}
use terminal_sim.Graph.Copies.{add_vertices-WellFormed}
use terminal_sim.Yen.{add_unless, copy_unless, create_modified_graph}

module _ {V W : Type 0} ⦃e : Eq V⦄ where
  -- Every edge of `h` is an edge of `g`.
  abbrev pub IsPartOf : Graph V W → Graph V W → Type 0
  IsPartOf g h = (u : V) (d : Edge V W) → Memᴰ d (outgoing u h) → Memᴰ d (outgoing u g)

  add_unless-IsPartOf :
      (g : Graph V W) (skip : Edge V W → Bool) (ds : List (Edge V W)) (h : Graph V W)
      → ((d : Edge V W) → Memᴰ d ds → Memᴰ d (outgoing d.source g))
      → IsPartOf g h
      → IsPartOf g (add_unless skip ds h)
  unfolding add_unless
  add_unless-IsPartOf g skip [] h from part = part
  add_unless-IsPartOf g skip (d ∷ ds) h from part =
      add_unless-IsPartOf g skip ds
        (if skip d then h else (add_edge d.source d.target d.weight d.mode h).0)
        (λ x m. from x (Memᴰ.tail m))
        (if_elim (IsPartOf g) (skip d) (λ _. part)
          (λ _ u x m. elim (mem-add_edge d.source d.target d.weight d.mode h u x m) [
            | inl old ↦ part u x old
            | inr (su, same) ↦
                rw same (subst (λ v. Memᴰ d (outgoing v g)) su (from d (Memᴰ.head refl)))
          ]))

  add_unless-WellFormed :
      (skip : Edge V W → Bool) (ds : List (Edge V W)) (h : Graph V W)
      → WellFormed h
      → WellFormed (add_unless skip ds h)
  unfolding add_unless
  add_unless-WellFormed skip [] h wf = wf
  add_unless-WellFormed skip (d ∷ ds) h wf =
      add_unless-WellFormed skip ds
        (if skip d then h else (add_edge d.source d.target d.weight d.mode h).0)
        (if_elim WellFormed (skip d) (λ _. wf)
          (λ _. add_edge-WellFormed d.source d.target d.weight d.mode h wf))

  copy_unless-kept :
      (skip : V → Edge V W → Bool) (g : Graph V W) (us : List V) (h : Graph V W)
      → WellFormed g
      → WellFormed h × IsPartOf g h
      → WellFormed (copy_unless skip g us h) × IsPartOf g (copy_unless skip g us h)
  unfolding copy_unless
  copy_unless-kept skip g [] h wf k = k
  copy_unless-kept skip g (u ∷ us) h wf (well, part) =
      copy_unless-kept skip g us (add_unless (skip u) (outgoing u g) h) wf (
        add_unless-WellFormed (skip u) (outgoing u g) h well,
        add_unless-IsPartOf g (skip u) (outgoing u g) h
            (λ d m. subst (λ v. Memᴰ d (outgoing v g)) (sym (wf.good u d m).at_source) m) part,
      )

  pub no_edges :
      (vs : List V) (g : Graph V W)
      → IsPartOf g (empty {V = V} {W = W})
      → IsPartOf g (add_vertices vs empty)
  unfolding add_vertices
  no_edges vs g start = more vs empty start
    where
      more : (vs : List V) (h : Graph V W) → IsPartOf g h → IsPartOf g (add_vertices vs h)
      more [] h part = part
      more (v ∷ vs) h part =
          more vs (add_vertex v h).0 (λ u d m. part u d (rw outgoing-add_vertex at m))

  pub create_modified_graph-kept :
      ⦃w : Weight W⦄ (g : Graph V W) (vs : List V) (root : List (Edge V W)) (found : _) (source : V)
      → WellFormed g
      → WellFormed (create_modified_graph g vs root found source)
        × IsPartOf g (create_modified_graph g vs root found source)
  unfolding create_modified_graph outgoing empty Maps.get_or
  create_modified_graph-kept g vs root found source wf =
      copy_unless-kept _ g g.vertices (add_vertices g.vertices empty) wf (
        add_vertices-WellFormed g.vertices empty empty-WellFormed,
        no_edges g.vertices g (λ u d m. absurd (Memᴰ.not-nil m)),
      )
