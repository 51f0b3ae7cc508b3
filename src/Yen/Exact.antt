-- ===== src/Yen/Exact.antt =====
-- The edges of the graph that `createModifiedGraph` of src/graph/Algorithms.h builds.
use mathlib.Core.List.Memᴰ
use terminal_sim.Prelude.{
  ◌≡◌, inl, inr, refl, sym, ap, ◌∙◌, subst, Bool, Bool-cases, true, false, ◌||◌, List, [], ◌∷◌,
  Memᴰ, Memᴰ-cons, Eq, if_elim, if◌then◌else◌, arith, any_elim, any_intro, ◌==◌,
}
use terminal_sim.Prelude.Maps
use terminal_sim.Prelude.Sets
use terminal_sim.Weight.{Weight}
use terminal_sim.Graph.{
  Edge, Graph, add_edge, add_vertex, add_vertices, edge_beq, empty, key_eq, key_beq_iff, key_of,
  outgoing,
}
use terminal_sim.Graph.WellFormed.{
  Distinct, WellFormed, add_edge-WellFormed, add_edge-adds, add_edge-keeps, empty-WellFormed,
  has-add_edge, has-add_vertex, mem-add_edge, outgoing_missing,
}
use terminal_sim.Graph.Copies.{add_vertices-WellFormed}
use terminal_sim.Common.{mode_eq}
use terminal_sim.Dijkstra.{PathInfo}
use terminal_sim.Yen.{last}
use terminal_sim.Yen.Modified.{IsPartOf, no_edges}

module _ {V W : Type 0} ⦃e : Eq V⦄ where
  -- Of edges without repetition two of one key are the same.
  same_edge :
      (ds : List (Edge V W)) (a b : Edge V W)
      → Distinct ds
      → Memᴰ a ds
      → Memᴰ b ds
      → key_of a ≡ key_of b
      → a ≡ b
  same_edge [] a b h m n k = absurd (Memᴰ.not-nil m)
  same_edge (x ∷ xs) a b h m n k = elim ((Memᴰ-cons a x xs).0 m) [
    | inl p ↦ elim ((Memᴰ-cons b x xs).0 n) [
      | inl q ↦ p ∙ sym q
      | inr n' ↦
          let twice =
            any_intro (λ y. key_of y == key_of x) xs n'
              ((key_beq_iff (key_of b) (key_of x)).1 (sym k ∙ ap key_of p)) in
          cc (twice, h.0)
    ]
    | inr m' ↦ elim ((Memᴰ-cons b x xs).0 n) [
      | inl q ↦
          let twice =
            any_intro (λ y. key_of y == key_of x) xs m'
              ((key_beq_iff (key_of a) (key_of x)).1 (k ∙ ap key_of q)) in
          cc (twice, h.0)
      | inr n' ↦ same_edge xs a b h.1 m' n' k
    ]
  ]

  has-add_vertices :
      (vs : List V) (h : Graph V W) (v : V)
      → Maps.has v (add_vertices vs h).adjacency ≡ (Sets.contains v vs || Maps.has v h.adjacency)
  unfolding add_vertices Sets.contains
  has-add_vertices [] h v = refl
  has-add_vertices (x ∷ xs) h v =
      ground (arith, has-add_vertices xs (add_vertex x h).0 v, has-add_vertex x v h)

  module _ (g : Graph V W) (skip : V → Edge V W → Bool) (wf : WellFormed g) where
    -- A copy of a part of the graph, without the edges that are skipped.
    pub record IsCopy (h : Graph V W) : Type 0 where
      pub well : WellFormed h
      pub part : IsPartOf g h
      pub unskipped : (u : V) (d : Edge V W) → Memᴰ d (outgoing u h) → skip u d ≡ false
      pub vertices : (v : V) → Maps.has v h.adjacency ≡ Maps.has v g.adjacency

    abbrev pub Grows : Graph V W → Graph V W → Type 0
    Grows h k = (u : V) (d : Edge V W) → Memᴰ d (outgoing u h) → Memᴰ d (outgoing u k)

    abbrev pub step : V → Edge V W → Graph V W → Graph V W
    step u d h = if skip u d then h else (add_edge d.source d.target d.weight d.mode h).0

    pub step-IsCopy :
        (u : V) (d : Edge V W) (h : Graph V W)
        → Memᴰ d (outgoing u g)
        → IsCopy h
        → IsCopy (step u d h)
    step-IsCopy u d h here copy =
        let from = (wf.good u d here).at_source in
        if_elim IsCopy (skip u d) (λ _. copy)
          (λ kept. record {
            well = add_edge-WellFormed d.source d.target d.weight d.mode h copy.well;
            part = λ v x m. elim (mem-add_edge d.source d.target d.weight d.mode h v x m) [
              | inl old ↦ copy.part v x old
              | inr (at, same) ↦ rw same (subst (λ y. Memᴰ d (outgoing y g)) (sym from ∙ at) here)
            ];
            unskipped = λ v x m. elim (mem-add_edge d.source d.target d.weight d.mode h v x m) [
              | inl old ↦ copy.unskipped v x old
              | inr (at, same) ↦ rw same (subst (λ y. skip y d ≡ false) (sym from ∙ at) kept)
            ];
            vertices = λ v. has-add_edge d.source d.target d.weight d.mode h v ∙ copy.vertices v;
          })

    pub step-Grows : (u : V) (d : Edge V W) (h : Graph V W) → Grows h (step u d h)
    step-Grows u d h =
        if_elim (Grows h) (skip u d) (λ _ v x m. m)
          (λ _ v x m. add_edge-keeps d.source d.target d.weight d.mode h v x m)

    -- A vertex with an edge is a vertex of the graph.
    present : (u : V) (d : Edge V W) → Memᴰ d (outgoing u g) → Maps.has u g.adjacency ≡ true
    present u d here = elim (Bool-cases (Maps.has u g.adjacency)) [
      | inl h ↦ h
      | inr h ↦ absurd (Memᴰ.not-nil (subst (λ ds. Memᴰ d ds) (outgoing_missing u g h) here))
    ]

    pub step-adds :
        (u : V) (d : Edge V W) (h : Graph V W)
        → Memᴰ d (outgoing u g)
        → IsCopy h
        → skip u d ≡ false
        → Memᴰ d (outgoing u (step u d h))
    step-adds u d h here copy kept =
        let good = wf.good u d here in
        let source_there =
          copy.vertices d.source
          ∙ ap (λ y. Maps.has y g.adjacency) good.at_source
          ∙ present u d here in
        let added : Memᴰ d (outgoing d.source (add_edge d.source d.target d.weight d.mode h).0) =
          elim (Bool-cases (Sets.contains (key_of d) h.edges)) [
            | inr new ↦
                add_edge-adds d h good.concrete source_there
                  (copy.vertices d.target ∙ good.has_target) new
            | inl old ↦
                let (x, there, same) =
                  any_elim (λ y. key_of y == key_of d) (outgoing d.source h)
                    (sym (copy.well.keyed (key_of d)) ∙ old) in
                let equal =
                  same_edge (outgoing d.source g) x d (wf.distinct d.source)
                    (copy.part d.source x there)
                    (subst (λ y. Memᴰ d (outgoing y g)) (sym good.at_source) here)
                    ((key_beq_iff (key_of x) (key_of d)).0 same) in
                add_edge-keeps d.source d.target d.weight d.mode h d.source d
                  (subst (λ y. Memᴰ y (outgoing d.source h)) equal there)
          ] in
        rw kept (
          subst (λ y. Memᴰ d (outgoing y (add_edge d.source d.target d.weight d.mode h).0))
            good.at_source added)

    -- What the loop over the edges of a vertex does.
    Filled : V → List (Edge V W) → Graph V W → Graph V W → Type 0
    Filled u ds h k =
        IsCopy k
        × Grows h k
        × ((d : Edge V W) → Memᴰ d ds → skip u d ≡ false → Memᴰ d (outgoing u k))

    CopiedAll : List V → Graph V W → Graph V W → Type 0
    CopiedAll us h k =
        IsCopy k
        × Grows h k
        × ((u : V) (d : Edge V W)
            → Sets.contains u us ≡ true
            → Memᴰ d (outgoing u g)
            → skip u d ≡ false
            → Memᴰ d (outgoing u k))

    pub start-IsCopy : IsCopy (add_vertices g.vertices empty)
    unfolding empty outgoing Maps.get_or Maps.has
    start-IsCopy = record {
      well = add_vertices-WellFormed g.vertices empty empty-WellFormed;
      part = no_edges g.vertices g (λ u d m. absurd (Memᴰ.not-nil m));
      unskipped = λ u d m. absurd (Memᴰ.not-nil (no_edges g.vertices empty (λ v x k. k) u d m));
      vertices = λ v. ground (arith, has-add_vertices g.vertices empty v, wf.listed v);
    }

module _ {V W : Type 0} ⦃e : Eq V⦄ ⦃w : Weight W⦄ where
  -- The vertex that the search goes on from.
  abbrev pub spur_of : List (Edge V W) → List V → V → V
  spur_of [] vs source = last source vs
  spur_of (d ∷ _) vs source = last d.source vs

  -- A path begins with the edges of `root` and goes on with an edge of the key of `d`.
  unfoldable pub Continues : List (Edge V W) → Edge V W → List (Edge V W) → Type 0
  Continues [] d [] = ⊥
  Continues [] d (n ∷ path) = key_of n ≡ key_of d
  Continues (r ∷ root) d [] = ⊥
  Continues (r ∷ root) d (x ∷ path) = (edge_beq x r ≡ true) × Continues root d path

  -- At the spur node a known path goes on with the edge, after the root.
  abbrev pub IsTaken : V → List (Edge V W) → List (PathInfo V W) → V → Edge V W → Type 0
  IsTaken spur root found u d =
      (u ≡ spur) × ((p : PathInfo V W) × Memᴰ p found × Continues root d p.path)
