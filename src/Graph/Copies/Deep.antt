-- ===== src/Graph/Copies/Deep.antt =====
-- What `deepCopy` of src/graph/Graph.h copies.
use mathlib.Core.List.Memᴰ
use terminal_sim.Prelude.{
  ◌≡◌, ◌↔◌, inl, inr, refl, sym, ap, arith, subst, Bool, true, false, List, [], ◌∷◌, Memᴰ,
  Memᴰ-cons, Eq, if_elim, eq_of, ◌==◌,
}
use terminal_sim.Prelude.Maps
use terminal_sim.Graph.{
  Edge, Graph, add_edge, add_edges, add_vertices, copy_lists, deep_copy, empty, outgoing,
}
use terminal_sim.Graph.WellFormed.{WellFormed}
use terminal_sim.Yen.Exact.{Grows, IsCopy, start-IsCopy, step-Grows, step-IsCopy, step-adds}

module _ {V W : Type 0} ⦃e : Eq V⦄ where
  -- Each pair of the list is what the map has at its key, as in a hash map.
  abbrev pub IsMap : List (V × List (Edge V W)) → Type 0
  IsMap m = (u : V) (es : List (Edge V W)) → Memᴰ (u, es) m → Maps.get_or u m [] ≡ es

  has-mem :
      (u : V) (es : List (Edge V W)) (m : List (V × List (Edge V W)))
      → Memᴰ (u, es) m
      → Maps.has u m ≡ true
  unfolding Maps.has
  has-mem u es [] k = absurd (Memᴰ.not-nil k)
  has-mem u es ((v, fs) ∷ m) k = elim ((Memᴰ-cons (u, es) (v, fs) m).0 k) [
    | inl p ↦ ground (arith, e.same_iff v u, ap (λ (x : V × List (Edge V W)). x.0) p)
    | inr later ↦ ground (arith, has-mem u es m later)
  ]

  pub IsMap-cons :
      (v : V) (fs : List (Edge V W)) (m : List (V × List (Edge V W)))
      → Maps.has v m ≡ false
      → IsMap m
      → IsMap ((v, fs) ∷ m)
  unfolding Maps.get_or
  IsMap-cons v fs m new reads u es k = elim ((Memᴰ-cons (u, es) (v, fs) m).0 k) [
    | inl p ↦ ground (
      arith,
      e.same_iff v u,
      ap (λ (x : V × List (Edge V W)). x.0) p,
      ap (λ (x : V × List (Edge V W)). x.1) p,
    )
    | inr later ↦ ground (
      arith,
      e.same_iff v u,
      has-mem u es m later,
      new,
      λ (p : v ≡ u). ap (λ x. Maps.has x m) p,
      reads u es later,
    )
  ]

  abbrev none_skipped : V → Edge V W → Bool
  none_skipped u d = false

  module _ (g : Graph V W) (wf : WellFormed g) where
    -- The edges of a list are in the copy after it, and all that were there before.
    Holds : V → List (Edge V W) → Graph V W → Graph V W → Type 0
    Holds u ds h k =
        IsCopy g none_skipped wf k
        × Grows g none_skipped wf h k
        × ((d : Edge V W) → Memᴰ d ds → Memᴰ d (outgoing u k))

    add_edges-Holds :
        (u : V) (ds : List (Edge V W)) (h : Graph V W)
        → ((d : Edge V W) → Memᴰ d ds → Memᴰ d (outgoing u g))
        → IsCopy g none_skipped wf h
        → Holds u ds h (add_edges ds h)
    unfolding add_edges Holds
    add_edges-Holds u [] h from copy = (copy, λ v x m. m, λ d m. absurd (Memᴰ.not-nil m))
    add_edges-Holds u (d ∷ ds) h from copy =
        let here = from d (Memᴰ.head refl) in
        let next = (add_edge d.source d.target d.weight d.mode h).0 in
        let (copied, grows, adds) =
          add_edges-Holds u ds next (λ x m. from x (Memᴰ.tail m))
            (step-IsCopy g none_skipped wf u d h here copy) in
        (
          copied,
          λ v x m. grows v x (step-Grows g none_skipped wf u d h v x m),
          λ x m. elim ((Memᴰ-cons x d ds).0 m) [
            | inl p ↦
                subst (λ y. Memᴰ y (outgoing u (add_edges ds next))) (sym p)
                  (grows u d (step-adds g none_skipped wf u d h here copy refl))
            | inr later ↦ adds x later
          ],
        )

    HoldsAll : List (V × List (Edge V W)) → Graph V W → Graph V W → Type 0
    HoldsAll m h k =
        IsCopy g none_skipped wf k
        × Grows g none_skipped wf h k
        × ((u : V) (d : Edge V W) → Memᴰ d (Maps.get_or u m []) → Memᴰ d (outgoing u k))

    copy_lists-HoldsAll :
        (m : List (V × List (Edge V W))) (h : Graph V W)
        → ((u : V) (es : List (Edge V W)) → Memᴰ (u, es) m → outgoing u g ≡ es)
        → IsCopy g none_skipped wf h
        → HoldsAll m h (copy_lists m h)
    unfolding copy_lists HoldsAll Holds Maps.get_or
    copy_lists-HoldsAll [] h reads copy = (copy, λ v x k. k, λ u d k. absurd (Memᴰ.not-nil k))
    copy_lists-HoldsAll ((v, es) ∷ m) h reads copy =
        let at = reads v es (Memᴰ.head refl) in
        let (filled, first, adds) =
          add_edges-Holds v es h (λ d k. subst (λ ds. Memᴰ d ds) (sym at) k) copy in
        let (copied, grows, later) =
          copy_lists-HoldsAll m (add_edges es h) (λ u ds k. reads u ds (Memᴰ.tail k)) filled in
        (
          copied,
          λ u x k. grows u x (first u x k),
          λ u d.
              if_elim (λ ds. Memᴰ d ds → Memᴰ d (outgoing u (copy_lists m (add_edges es h))))
                (v == u)
                (λ q k.
                  grows u d
                    (subst (λ y. Memᴰ d (outgoing y (add_edges es h))) (eq_of v u q) (adds d k)))
                (λ _ k. later u d k),
        )

    -- A deep copy of a well-formed graph is well formed, has the vertices of the graph, and each
    -- vertex has the edges there that it has in the graph, with their weights, if each list of the
    -- adjacency map is what the map has at its key.
    pub deep_copy-edges :
        IsMap g.adjacency
        → WellFormed (deep_copy g)
          × ((v : V) → Maps.has v (deep_copy g).adjacency ≡ Maps.has v g.adjacency)
          × ((u : V) (d : Edge V W) → Memᴰ d (outgoing u (deep_copy g)) ↔ Memᴰ d (outgoing u g))
    unfolding deep_copy HoldsAll outgoing
    deep_copy-edges reads =
        let (copied, _, adds) =
          copy_lists-HoldsAll g.adjacency (add_vertices g.vertices empty) reads
            (start-IsCopy g none_skipped wf) in
        (copied.well, copied.vertices, λ u d. (copied.part u d, adds u d))
