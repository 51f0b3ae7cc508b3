-- ===== src/Graph/RemoveEdge.antt =====
-- `Graph::removeEdge` against the keys that its arguments name.
use mathlib.Core.List.Memᴰ
use terminal_sim.Prelude.{
  ◌≡◌, ◌≢◌, sym, subst, ap, ◌∙◌, Bool, true, false, not, ◌&&◌, ◌||◌, List, [], Memᴰ, arith, Eq,
  ◌==◌, if◌then◌else◌, if_elim, any, any_intro, any_elim, keep_if, erase_first, keep_if-all,
  keep_if-congr, any-congr, any-false, any-false_elim, Bool-cases, eq_of, inl, inr,
}
use terminal_sim.Prelude.Maps
use terminal_sim.Prelude.Sets
use terminal_sim.Common.{Mode, mode_eq}
use terminal_sim.Graph.{
  Edge, EdgeKey, Graph, key_eq, key_of, key_beq, key_beq_iff, outgoing, erase_keys, remove_edge,
}
use terminal_sim.Graph.WellFormed.{WellFormed, outgoing_missing}
use terminal_sim.Graph.Removal.{Restricts, Restricts-WellFormed, names}
use terminal_sim.Graph.Erased.{matches, erase_first-eq, contains-erase_keys}

module _ {V W : Type 0} ⦃e : Eq V⦄ where
  module _ (s t : V) (m : Mode) (g : Graph V W) (wf : WellFormed g) where
    abbrev pub kept : EdgeKey V → Bool
    kept k = not (names s t m k)

    edge_of_key :
        (k : EdgeKey V)
        → Sets.contains k g.edges ≡ true
        → (d : Edge V W) × Memᴰ d (outgoing k.source g) × (key_of d ≡ k)
    edge_of_key k h =
        let (d, mem, eq) =
          any_elim (λ d. key_of d == k) (outgoing k.source g) (sym (wf.keyed k) ∙ h) in
        (d, mem, (key_beq_iff (key_of d) k).0 eq)

    mem-has : (u : V) (d : Edge V W) → Memᴰ d (outgoing u g) → Maps.has u g.adjacency ≡ true
    mem-has u d mem = elim (Bool-cases (Maps.has u g.adjacency)) [
      | inl h ↦ h
      | inr h ↦ absurd (Memᴰ.not-nil (rw (outgoing_missing u g h) at mem))
    ]

    unchanged :
        ((u : V) (d : Edge V W) → Memᴰ d (outgoing u g) → kept (key_of d) ≡ true)
        → Restricts kept g g
    unchanged all = record {
      lists = λ u. sym (keep_if-all (λ d. kept (key_of d)) (outgoing u g) (all u));
      keys = λ k. keys_kept k;
      vertices_listed = wf.listed;
      targets_stay = λ k _ h. h;
    }
      where
        keys_kept : (k : EdgeKey V) → Sets.contains k g.edges ≡ (Sets.contains k g.edges && kept k)
        keys_kept k = elim (Bool-cases (Sets.contains k g.edges)) [
          | inl h ↦
              let (d, mem, eq) = edge_of_key k h in
              rw h (sym (sym (ap kept eq) ∙ all k.source d mem))
          | inr h ↦ rw h
        ]

    replaced :
        (l : List (Edge V W)) (keys : List (EdgeKey V))
        → l ≡ keep_if (λ d. kept (key_of d)) (outgoing s g)
        → ((k : EdgeKey V) → Sets.contains k keys ≡ (Sets.contains k g.edges && kept k))
        → Maps.has s g.adjacency ≡ true
        → Restricts kept g (record g { adjacency = Maps.insert s l g.adjacency; edges = keys })
    unfolding outgoing
    replaced l keys same erased has_s = record {
      lists = λ u. Maps.get_or-insert s u l [] g.adjacency ∙ lists_kept u;
      keys = erased;
      vertices_listed = λ v. wf.listed v ∙ sym (has_kept v);
      targets_stay = λ k _ h. has_kept k.target ∙ h;
    }
      where
        has_kept : (v : V) → Maps.has v (Maps.insert s l g.adjacency) ≡ Maps.has v g.adjacency
        has_kept v = ground (
          arith,
          e.same_iff s v,
          Maps.has-insert s v l g.adjacency,
          λ (p : s ≡ v). ap (λ y. Maps.has y g.adjacency) p,
        )

        lists_kept :
            (u : V)
            → (if s == u then l else Maps.get_or u g.adjacency [])
              ≡ keep_if (λ d. kept (key_of d)) (Maps.get_or u g.adjacency [])
        lists_kept u =
            if_elim (λ z. z ≡ keep_if (λ d. kept (key_of d)) (Maps.get_or u g.adjacency []))
              (s == u)
              (λ eq.
                same
                ∙ ap (λ y. keep_if (λ d. kept (key_of d)) (Maps.get_or y g.adjacency []))
                    (eq_of s u eq))
              (λ ne. sym (
                keep_if-all (λ d. kept (key_of d)) (Maps.get_or u g.adjacency [])
                  (λ d mem.
                    ground
                      (arith, (wf.good u d mem).at_source, e.same_iff s u, e.same_iff d.source s))))

    abbrev pub named : Edge V W → Bool
    named d = names s t m (key_of d)

    -- What the call drops, and what it answers.
    abbrev pub Removes : Graph V W × Bool → Type 0
    Removes r = Restricts kept g r.0 × (r.1 ≡ any named (outgoing s g))

    not_named :
        (u : V) (d : Edge V W) → Memᴰ d (outgoing u g) → named d ≡ false → kept (key_of d) ≡ true
    not_named u d mem h = rw h

    -- An edge that is named would have both ends in the graph.
    refused :
        (not (Maps.has s g.adjacency) || not (Maps.has t g.adjacency)) ≡ true → Removes (g, false)
    refused h = (
      unchanged (λ u d mem. not_named u d mem (none_named u d mem)),
      sym (any-false named (outgoing s g) (none_named s)),
    )
      where
        none_named : (u : V) (d : Edge V W) → Memᴰ d (outgoing u g) → named d ≡ false
        none_named u d mem =
            let ok = wf.good u d mem in
            ground (
              arith,
              ok.at_source,
              ok.has_target,
              mem-has u d mem,
              e.same_iff d.source s,
              e.same_iff d.target t,
              λ (p : d.source ≡ s). ap (λ y. Maps.has y g.adjacency) p,
              λ (p : d.target ≡ t). ap (λ y. Maps.has y g.adjacency) p,
            )

    removed_all :
        (m ≡ Mode.any)
        → Maps.has s g.adjacency ≡ true
        → Removes (
          record g {
            adjacency =
                Maps.insert s (keep_if (λ d. not (d.target == t)) (outgoing s g)) g.adjacency;
            edges = erase_keys s t (outgoing s g) g.edges;
          },
          any (λ d. d.target == t) (outgoing s g),
        )
    removed_all every has_s = (
      replaced _ _
          (keep_if-congr (λ d. not (d.target == t)) (λ d. kept (key_of d)) (outgoing s g)
            (λ d mem. ap not (by_target d mem)))
          erased has_s,
      any-congr (λ d. d.target == t) named (outgoing s g) by_target,
    )
      where
        by_target : (d : Edge V W) → Memᴰ d (outgoing s g) → (d.target == t) ≡ named d
        by_target d mem = ground (
          arith,
          every,
          (wf.good s d mem).at_source,
          e.same_iff d.source s,
          mode_eq.same_iff m Mode.any,
        )

        present :
            (k : EdgeKey V)
            → Sets.contains k g.edges ≡ true
            → k.source ≡ s
            → k.target ≡ t
            → any (matches t k.mode) (outgoing s g) ≡ true
        present k h ks kt =
            let (d, mem, eq) = edge_of_key k h in
            any_intro (matches t k.mode) (outgoing s g) (subst (λ y. Memᴰ d (outgoing y g)) ks mem)
              (ground (
                arith,
                ap (λ y. y.target) eq,
                ap (λ y. y.mode) eq,
                e.same_iff d.target t,
                mode_eq.same_iff d.mode k.mode,
              ))

        erased :
            (k : EdgeKey V)
            → Sets.contains k (erase_keys s t (outgoing s g) g.edges)
              ≡ (Sets.contains k g.edges && kept k)
        erased k = ground (
          arith,
          every,
          contains-erase_keys s t (outgoing s g) g.edges k,
          present k,
          e.same_iff k.source s,
          e.same_iff k.target t,
          mode_eq.same_iff m Mode.any,
        )

    removed_one :
        (m ≢ Mode.any)
        → Maps.has s g.adjacency ≡ true
        → any (matches t m) (outgoing s g) ≡ true
        → Removes (
          record g {
            adjacency = Maps.insert s (erase_first (matches t m) (outgoing s g)) g.adjacency;
            edges = Sets.remove (record { source = s; target = t; mode = m }) g.edges;
          },
          true,
        )
    unfolding key_beq
    removed_one one has_s hit = (
      replaced _ _
          (erase_first-eq s t m (outgoing s g) (wf.distinct s)
              (λ d mem. (wf.good s d mem).at_source)
            ∙ keep_if-congr (λ d. not (matches t m d)) (λ d. kept (key_of d)) (outgoing s g)
                (λ d mem. ap not (by_mode d mem)))
          erased has_s,
      sym hit ∙ any-congr (matches t m) named (outgoing s g) by_mode,
    )
      where
        by_mode : (d : Edge V W) → Memᴰ d (outgoing s g) → matches t m d ≡ named d
        by_mode d mem = ground (
          arith,
          one,
          (wf.good s d mem).at_source,
          e.same_iff d.source s,
          mode_eq.same_iff m Mode.any,
        )

        erased :
            (k : EdgeKey V)
            → Sets.contains k (Sets.remove (record { source = s; target = t; mode = m }) g.edges)
              ≡ (Sets.contains k g.edges && kept k)
        erased k = ground (
          arith,
          one,
          Sets.contains-remove (record { source = s; target = t; mode = m }) k g.edges,
          e.same_iff k.source s,
          e.same_iff s k.source,
          e.same_iff k.target t,
          e.same_iff t k.target,
          mode_eq.same_iff m k.mode,
          mode_eq.same_iff k.mode m,
          mode_eq.same_iff m Mode.any,
        )

    missed : (m ≢ Mode.any) → any (matches t m) (outgoing s g) ≡ false → Removes (g, false)
    missed one miss = (
      unchanged (λ u d mem. not_named u d mem (none_named u d mem)),
      sym (any-false named (outgoing s g) (none_named s)),
    )
      where
        from_s : (u : V) (d : Edge V W) → Memᴰ d (outgoing u g) → u ≡ s → matches t m d ≡ false
        from_s u d mem us =
            any-false_elim (matches t m) (outgoing s g) miss
              (subst (λ y. Memᴰ d (outgoing y g)) us mem)

        none_named : (u : V) (d : Edge V W) → Memᴰ d (outgoing u g) → named d ≡ false
        none_named u d mem = ground (
          arith,
          one,
          from_s u d mem,
          (wf.good u d mem).at_source,
          e.same_iff d.source s,
          mode_eq.same_iff m Mode.any,
        )

    -- `removeEdge` drops exactly the edges that its arguments name, whether it refuses, finds none,
    -- or removes some, and answers whether there was one.
    pub remove_edge-Removes : Removes (remove_edge s t m g)
    unfolding remove_edge outgoing
    remove_edge-Removes =
        if_elim Removes (not (Maps.has s g.adjacency) || not (Maps.has t g.adjacency)) refused
          (λ inside.
            let has_s : Maps.has s g.adjacency ≡ true = ground arith in
            if_elim Removes (m == Mode.any)
              (λ every. removed_all ((mode_eq.same_iff m Mode.any).0 every) has_s)
              (λ one.
                let concrete : m ≢ Mode.any = ground (arith, mode_eq.same_iff m Mode.any) in
                if_elim Removes (any (matches t m) (Maps.get_or s g.adjacency []))
                  (removed_one concrete has_s) (missed concrete)))

    -- So it keeps a graph well formed.
    pub remove_edge-WellFormed : WellFormed (remove_edge s t m g).0
    remove_edge-WellFormed = Restricts-WellFormed kept g _ remove_edge-Removes.0 wf
