-- ===== src/Graph/WellFormed.antt =====
-- The invariant that ties the three collections of a graph together.
use mathlib.Core.List.Memᴰ
use terminal_sim.Prelude.{
  ◌≡◌, ◌≢◌, ◌⊎◌, inl, inr, refl, sym, ap, ◌∙◌, subst, ⊎_elim, Bool, true, false, ◌||◌, List, [],
  ◌∷◌, ◌++◌, Memᴰ, arith, Eq, ◌==◌, eq_of, if◌then◌else◌, if_elim, any, any-append, Memᴰ-concat,
}
use terminal_sim.Prelude.Maps
use terminal_sim.Prelude.Sets
use terminal_sim.Common.{Mode, mode_eq}
use terminal_sim.Graph.{
  Edge, EdgeKey, Graph, key_eq, key_of, key_beq, key_beq_iff, empty, add_vertex, add_edge, outgoing,
}

module _ {V W : Type 0} ⦃e : Eq V⦄ where
  -- No two edges of a list share source, target and mode.
  abbrev pub Distinct : List (Edge V W) → Type 0
  Distinct [] = Unit {0}
  Distinct (d ∷ ds) = (any (λ x. key_of x == key_of d) ds ≡ false) × Distinct ds

  abbrev pub holds_key : EdgeKey V → List (Edge V W) → Bool
  holds_key k = any λ d. key_of d == k

  pub record IsGoodEdge (g : Graph V W) (u : V) (d : Edge V W) : Type 0 where
    pub at_source : d.source ≡ u
    pub has_target : Maps.has d.target g.adjacency ≡ true
    pub concrete : d.mode ≢ Mode.any

  -- The set of vertices lists the keys of the adjacency map; each list holds edges of its vertex
  -- alone, to vertices of the graph, under a concrete mode, and no two of one mode to one target;
  -- the set of edge keys holds exactly the keys of these edges.
  pub record WellFormed (g : Graph V W) : Type 0 where
    pub listed : (v : V) → Sets.contains v g.vertices ≡ Maps.has v g.adjacency
    pub good : (u : V) (d : Edge V W) → Memᴰ d (outgoing u g) → IsGoodEdge g u d
    pub distinct : (u : V) → Distinct (outgoing u g)
    pub keyed : (k : EdgeKey V) → Sets.contains k g.edges ≡ holds_key k (outgoing k.source g)

  -- The empty graph is well formed.
  pub empty-WellFormed : WellFormed (empty {V = V} {W = W})
  unfolding empty outgoing Maps.has Maps.get_or Sets.contains any
  empty-WellFormed = record {
    listed = λ v. refl;
    good = λ u d m. absurd (Memᴰ.not-nil m);
    distinct = λ u. tt;
    keyed = λ k. refl;
  }

  pub outgoing_missing :
      (u : V) (g : Graph V W) → Maps.has u g.adjacency ≡ false → outgoing u g ≡ []
  unfolding outgoing
  outgoing_missing u g h = Maps.get_or_missing u g.adjacency [] h

  pub has-add_vertex :
      (id v : V) (g : Graph V W)
      → Maps.has v (add_vertex id g).0.adjacency ≡ (id == v || Maps.has v g.adjacency)
  unfolding add_vertex
  has-add_vertex id v g = ground (arith, e.same_iff id v, Maps.has-insert id v [] g.adjacency)

  pub outgoing-add_vertex :
      (id v : V) (g : Graph V W) → outgoing v (add_vertex id g).0 ≡ outgoing v g
  unfolding add_vertex outgoing
  outgoing-add_vertex id v g = ground (
    arith,
    e.same_iff id v,
    Maps.get_or-insert id v [] [] g.adjacency,
    Maps.get_or_missing v g.adjacency [],
  )

  edges-add_vertex : (id : V) (g : Graph V W) → (add_vertex id g).0.edges ≡ g.edges
  unfolding add_vertex
  edges-add_vertex id g = ground arith

  contains-add_vertex :
      (id v : V) (g : Graph V W)
      → WellFormed g
      → Sets.contains v (add_vertex id g).0.vertices ≡ (id == v || Sets.contains v g.vertices)
  unfolding add_vertex
  contains-add_vertex id v g wf =
      ground
        (arith, e.same_iff id v, Sets.contains-insert id v g.vertices, wf.listed id, wf.listed v)

  -- Adding a vertex keeps a graph well formed.
  pub add_vertex-WellFormed :
      (id : V) (g : Graph V W) → WellFormed g → WellFormed (add_vertex id g).0
  add_vertex-WellFormed id g wf = record {
    listed = λ v. rw has-add_vertex (contains-vertices v);
    good = λ u d m.
        let old = wf.good u d (rw outgoing-add_vertex at m) in
        record {
          at_source = old.at_source;
          has_target = rw has-add_vertex (ground (arith, old.has_target));
          concrete = old.concrete;
        };
    distinct = λ u. rw outgoing-add_vertex (wf.distinct u);
    keyed = λ k. rw (outgoing-add_vertex, edges-add_vertex) (wf.keyed k);
  }
    where
      contains-vertices :
          (v : V)
          → Sets.contains v (add_vertex id g).0.vertices ≡ (id == v || Maps.has v g.adjacency)
      contains-vertices v = contains-add_vertex id v g wf ∙ ap (◌||◌ (id == v)) (wf.listed v)

  Distinct-concat :
      (d : Edge V W) (ds : List (Edge V W))
      → Distinct ds
      → holds_key (key_of d) ds ≡ false
      → Distinct (ds ++ d ∷ [])
  unfolding any
  Distinct-concat d [] h k = (refl, tt)
  Distinct-concat d (x ∷ ds) h k = ground (
    arith,
    Distinct-concat d ds h.1,
    any-append (λ y. key_of y == key_of x) ds (d ∷ []),
    key_beq_iff (key_of d) (key_of x),
    key_beq_iff (key_of x) (key_of d),
  )

  module _ (s t : V) (x : W) (m : Mode) (g : Graph V W) where
    abbrev added : Edge V W
    added = record { source = s; target = t; weight = x; mode = m }

    abbrev edge_added : Graph V W
    edge_added = record g {
      adjacency = Maps.insert s (Maps.get_or s g.adjacency [] ++ added ∷ []) g.adjacency;
      edges = Sets.insert (key_of added) g.edges;
    }

    abbrev IsAddable : Type 0
    IsAddable =
        (m ≢ Mode.any)
        × (Maps.has s g.adjacency ≡ true)
        × (Maps.has t g.adjacency ≡ true)
        × (Sets.contains (key_of added) g.edges ≡ false)

    -- `add_edge` either refuses and changes nothing, or adds an edge that was allowed.
    add_edge_cases :
        (add_edge s t x m g ≡ (g, false)) ⊎ (IsAddable × (add_edge s t x m g ≡ (edge_added, true)))
    unfolding add_edge
    add_edge_cases = ground (arith, mode_eq.same_iff m Mode.any)

    outgoing-edge_added :
        (u : V)
        → outgoing u edge_added ≡ (if s == u then outgoing s g ++ added ∷ [] else outgoing u g)
    unfolding outgoing
    outgoing-edge_added u = Maps.get_or-insert s u _ [] g.adjacency

    has-edge_added :
        Maps.has s g.adjacency ≡ true
        → (v : V) → Maps.has v edge_added.adjacency ≡ Maps.has v g.adjacency
    has-edge_added h v = ground (
      arith,
      e.same_iff s v,
      Maps.has-insert s v (Maps.get_or s g.adjacency [] ++ added ∷ []) g.adjacency,
      λ (p : s ≡ v). ap (λ y. Maps.has y g.adjacency) p,
    )

    mem-edge_added :
        (u : V) (d : Edge V W)
        → Memᴰ d (outgoing u edge_added)
        → Memᴰ d (outgoing u g) ⊎ ((s ≡ u) × (d ≡ added))
    mem-edge_added u d h =
        if_elim (λ l. Memᴰ d l → Memᴰ d (outgoing u g) ⊎ ((s ≡ u) × (d ≡ added))) (s == u)
          (λ q n.
            ⊎_elim (λ o. inl (subst (λ v. Memᴰ d (outgoing v g)) (eq_of s u q) o))
              (λ p. inr (eq_of s u q, p)) ((Memᴰ-concat d added (outgoing s g)).0 n))
          (λ _ n. inl n) (rw outgoing-edge_added at h)

    module _ (ok : IsAddable) (wf : WellFormed g) where
      keyed-edge_added :
          (k : EdgeKey V)
          → Sets.contains k edge_added.edges ≡ holds_key k (outgoing k.source edge_added)
      unfolding key_beq any
      keyed-edge_added k = rw outgoing-edge_added (
          ground (
            arith,
            Sets.contains-insert (key_of added) k g.edges,
            any-append (λ d. key_of d == k) (outgoing s g) (added ∷ []),
            wf.keyed k,
            e.same_iff s k.source,
            λ (p : s ≡ k.source). ap (λ y. holds_key k (outgoing y g)) p,
          ))

      edge_added-WellFormed : WellFormed edge_added
      edge_added-WellFormed = record {
        listed = λ v. wf.listed v ∙ sym (has-edge_added ok.1 v);
        good = λ u d h. elim (mem-edge_added u d h) [
          | inl old ↦
              let was = wf.good u d old in
              record {
                at_source = was.at_source;
                has_target = has-edge_added ok.1 d.target ∙ was.has_target;
                concrete = was.concrete;
              }
          | inr (su, da) ↦ record {
            at_source = ap (λ y. y.source) da ∙ su;
            has_target =
                ap (λ y. Maps.has y.target edge_added.adjacency) da ∙ has-edge_added ok.1 t ∙ ok.2;
            concrete = λ any_mode. ok.0 (sym (ap (λ y. y.mode) da) ∙ any_mode);
          }
        ];
        distinct = λ u. rw outgoing-edge_added (
            if_elim Distinct (s == u)
              (λ _.
                Distinct-concat added (outgoing s g) (wf.distinct s)
                  (sym (wf.keyed (key_of added)) ∙ ok.3))
              (λ _. wf.distinct u));
        keyed = keyed-edge_added;
      }

  -- An edge of the graph after `addEdge` was there before or is the added one.
  pub mem-add_edge :
      (s t : V) (x : W) (m : Mode) (g : Graph V W) (u : V) (d : Edge V W)
      → Memᴰ d (outgoing u (add_edge s t x m g).0)
      → Memᴰ d (outgoing u g)
        ⊎ ((s ≡ u) × (d ≡ record { source = s; target = t; weight = x; mode = m }))
  mem-add_edge s t x m g u d h = elim (add_edge_cases s t x m g) [
    | inl same ↦ inl (rw same at h)
    | inr (ok, new) ↦ mem-edge_added s t x m g u d (rw new at h)
  ]

  pub has-add_edge :
      (s t : V) (x : W) (m : Mode) (g : Graph V W) (v : V)
      → Maps.has v (add_edge s t x m g).0.adjacency ≡ Maps.has v g.adjacency
  has-add_edge s t x m g v = elim (add_edge_cases s t x m g) [
    | inl same ↦ rw same refl
    | inr (ok, new) ↦ rw new (has-edge_added s t x m g ok.1 v)
  ]

  -- Adding an edge keeps a graph well formed, whether it is refused or not.
  pub add_edge-WellFormed :
      (s t : V) (x : W) (m : Mode) (g : Graph V W)
      → WellFormed g
      → WellFormed (add_edge s t x m g).0
  add_edge-WellFormed s t x m g wf = elim (add_edge_cases s t x m g) [
    | inl same ↦ rw same wf
    | inr (ok, new) ↦ rw new (edge_added-WellFormed s t x m g ok wf)
  ]

  -- An edge of the graph is there after `addEdge` too.
  pub add_edge-keeps :
      (s t : V) (x : W) (m : Mode) (g : Graph V W) (u : V) (d : Edge V W)
      → Memᴰ d (outgoing u g)
      → Memᴰ d (outgoing u (add_edge s t x m g).0)
  add_edge-keeps s t x m g u d h = elim (add_edge_cases s t x m g) [
    | inl same ↦ rw same h
    | inr (ok, new) ↦ rw new (
        rw outgoing-edge_added (
          if_elim (λ l. Memᴰ d l) (s == u)
            (λ q.
              (Memᴰ-concat d (added s t x m g) (outgoing s g)).1
                (inl (subst (λ v. Memᴰ d (outgoing v g)) (sym (eq_of s u q)) h)))
            (λ _. h)))
  ]

  -- An edge that `addEdge` may add is there afterwards.
  pub add_edge-adds :
      (d : Edge V W) (g : Graph V W)
      → d.mode ≢ Mode.any
      → Maps.has d.source g.adjacency ≡ true
      → Maps.has d.target g.adjacency ≡ true
      → Sets.contains (key_of d) g.edges ≡ false
      → Memᴰ d (outgoing d.source (add_edge d.source d.target d.weight d.mode g).0)
  unfolding add_edge
  add_edge-adds d g concrete from to new =
      let goes_in : add_edge d.source d.target d.weight d.mode g
          ≡ (edge_added d.source d.target d.weight d.mode g, true) =
        ground (arith, mode_eq.same_iff d.mode Mode.any, concrete, from, to, new) in
      rw goes_in (
        rw outgoing-edge_added (
          if_elim (λ l. Memᴰ d l) (d.source == d.source)
            (λ _. (Memᴰ-concat d d (outgoing d.source g)).1 (inr refl))
            (λ other. absurd (ground (arith, other, e.same_iff d.source d.source)))))
