-- ===== src/Graph/Removal.antt =====
-- `Graph::removeEdge` and `Graph::removeVertex` drop what they name and nothing else.
use terminal_sim.Prelude.{
  ◌≡◌, refl, sym, ap, ◌∙◌, Bool, true, false, not, ◌&&◌, ◌||◌, List, [], ◌∷◌, arith, Eq, ◌==◌,
  if◌then◌else◌, if_elim, any, keep_if, any-keep_if, Memᴰ-keep_if, keep_if-none,
}
use terminal_sim.Prelude.Maps
use terminal_sim.Prelude.Sets
use terminal_sim.Common.{Mode, mode_eq}
use terminal_sim.Graph.{
  Edge, EdgeKey, Graph, key_eq, key_of, key_beq_iff, outgoing, incident, remove_vertex,
}
use terminal_sim.Graph.WellFormed.{Distinct, holds_key, WellFormed}

module _ {V : Type 0} ⦃e : Eq V⦄ where
  -- The keys that `removeVertex id` keeps.
  abbrev pub away_from : V → EdgeKey V → Bool
  away_from id k = not (k.source == id || k.target == id)

  -- The keys that `removeEdge s t m` names: those of every mode, if `m` is `Any`.
  abbrev pub names : V → V → Mode → EdgeKey V → Bool
  names s t m k = k.source == s && k.target == t && (m == Mode.any || k.mode == m)

module _ {V W : Type 0} ⦃e : Eq V⦄ where
  -- `h` keeps the edges of `g` whose key passes `q`, in their order, and no others.
  pub record Restricts (q : EdgeKey V → Bool) (g h : Graph V W) : Type 0 where
    pub lists : (u : V) → outgoing u h ≡ keep_if (λ d. q (key_of d)) (outgoing u g)
    pub keys : (k : EdgeKey V) → Sets.contains k h.edges ≡ (Sets.contains k g.edges && q k)
    pub vertices_listed : (v : V) → Sets.contains v h.vertices ≡ Maps.has v h.adjacency
    pub targets_stay :
        (k : EdgeKey V)
        → q k ≡ true
        → Maps.has k.target g.adjacency ≡ true
        → Maps.has k.target h.adjacency ≡ true

  any-keep_if-false :
      (p q : Edge V W → Bool) (ds : List (Edge V W))
      → any p ds ≡ false
      → any p (keep_if q ds) ≡ false
  unfolding any keep_if
  any-keep_if-false p q [] h = refl
  any-keep_if-false p q (d ∷ ds) h = ground (arith, any-keep_if-false p q ds)

  Distinct-keep_if :
      (q : Edge V W → Bool) (ds : List (Edge V W)) → Distinct ds → Distinct (keep_if q ds)
  unfolding keep_if
  Distinct-keep_if q [] h = tt
  Distinct-keep_if q (d ∷ ds) h =
      if_elim Distinct (q d)
        (λ _. (any-keep_if-false (λ x. key_of x == key_of d) q ds h.0, Distinct-keep_if q ds h.1))
        (λ _. Distinct-keep_if q ds h.1)

  pub holds_key-keep_if :
      (q : EdgeKey V → Bool) (k : EdgeKey V) (ds : List (Edge V W))
      → holds_key k (keep_if (λ d. q (key_of d)) ds) ≡ (holds_key k ds && q k)
  holds_key-keep_if q k ds =
      any-keep_if (λ d. key_of d == k) (λ d. q (key_of d)) (q k) ds
        (λ d h. ap q ((key_beq_iff (key_of d) k).0 h))

  -- What is left of a well-formed graph is well formed.
  pub Restricts-WellFormed :
      (q : EdgeKey V → Bool) (g h : Graph V W) → Restricts q g h → WellFormed g → WellFormed h
  Restricts-WellFormed q g h r wf = record {
    listed = r.vertices_listed;
    good = λ u d m.
        let (old, kept) = (Memᴰ-keep_if (λ x. q (key_of x)) d (outgoing u g)).0 (rw r.lists at m) in
        let was = wf.good u d old in
        record {
          at_source = was.at_source;
          has_target = r.targets_stay (key_of d) kept was.has_target;
          concrete = was.concrete;
        };
    distinct =
        λ u. rw r.lists (Distinct-keep_if (λ d. q (key_of d)) (outgoing u g) (wf.distinct u));
    keyed = λ k.
        rw (r.lists, r.keys)
          (ap (λ b. b && q k) (wf.keyed k) ∙ sym (holds_key-keep_if q k (outgoing k.source g)));
  }

  module _ (id : V) (g : Graph V W) (wf : WellFormed g) where
    lists-remove_vertex :
        (u : V)
        → (if id == u then [] else keep_if (λ d. not (incident id d)) (outgoing u g))
          ≡ keep_if (λ d. away_from id (key_of d)) (outgoing u g)
    lists-remove_vertex u =
        if_elim (λ l. l ≡ keep_if (λ d. away_from id (key_of d)) (outgoing u g)) (id == u)
          (λ same. sym (
            keep_if-none (λ d. away_from id (key_of d)) (outgoing u g)
              (λ d m.
                let at = (wf.good u d m).at_source in
                ground (arith, e.same_iff id u, e.same_iff d.source id))))
          (λ _. refl)

    -- Of the edges, those that leave or enter the vertex go, and no others.
    pub remove_vertex-Restricts :
        Maps.has id g.adjacency ≡ true → Restricts (away_from id) g (remove_vertex id g).0
    unfolding remove_vertex outgoing keep_if
    remove_vertex-Restricts h = rw h (record {
      lists = λ u.
          Maps.get_or-remove id u []
            (Maps.map_values (keep_if (λ d. not (incident id d))) g.adjacency)
          ∙ ap (λ l. if id == u then [] else l)
              (Maps.get_or-map_values (keep_if (λ d. not (incident id d))) u g.adjacency [] refl)
          ∙ lists-remove_vertex u;
      keys = λ k. Sets.contains-keep_if (away_from id) k g.edges;
      vertices_listed = λ v. ground (
        arith,
        Sets.contains-remove id v g.vertices,
        Maps.has-remove id v (Maps.map_values (keep_if (λ d. not (incident id d))) g.adjacency),
        Maps.has-map_values (keep_if (λ d. not (incident id d))) v g.adjacency,
        wf.listed v,
      );
      targets_stay = λ k kept was. ground (
        arith,
        e.same_iff id k.target,
        e.same_iff k.target id,
        Maps.has-remove id k.target
            (Maps.map_values (keep_if (λ d. not (incident id d))) g.adjacency),
        Maps.has-map_values (keep_if (λ d. not (incident id d))) k.target g.adjacency,
      );
    })

    -- On a well-formed graph, `removeVertex` of a present vertex answers true, takes that vertex out
    -- and no other, and drops the edges that leave or enter it and no others, from the lists, whose
    -- order stays, and from the set of keys.
    pub remove_vertex-exact :
        Maps.has id g.adjacency ≡ true
        → ((remove_vertex id g).1 ≡ true)
          × ((v : V)
              → Maps.has v (remove_vertex id g).0.adjacency
                ≡ (if id == v then false else Maps.has v g.adjacency))
          × Restricts (away_from id) g (remove_vertex id g).0
    unfolding remove_vertex
    remove_vertex-exact h = (rw h refl, λ v. rw h (others v), remove_vertex-Restricts h)
      where
        others :
            (v : V)
            → Maps.has v
                (Maps.remove id (Maps.map_values (keep_if (λ d. not (incident id d))) g.adjacency))
              ≡ (if id == v then false else Maps.has v g.adjacency)
        others v =
            Maps.has-remove id v (Maps.map_values (keep_if (λ d. not (incident id d))) g.adjacency)
            ∙ ap (λ b. if id == v then false else b)
                (Maps.has-map_values (keep_if (λ d. not (incident id d))) v g.adjacency)
