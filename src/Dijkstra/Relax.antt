-- ===== src/Dijkstra/Relax.antt =====
-- One relaxation keeps the invariant, lowers distances, and leaves visited vertices alone.
use terminal_sim.Prelude.{
  ◌≡◌, ◌⊎◌, inl, inr, ⊎_elim, sym, ap, ◌∙◌, subst, Bool, true, false, ◌∷◌, Memᴰ, arith,
  if◌then◌else◌, if_elim, Eq, ◌==◌, Bool-cases, Memᴰ-cons, eq_of,
}
use terminal_sim.Prelude.Maps
use terminal_sim.Prelude.Sets
use terminal_sim.Common.{Mode}
use terminal_sim.Weight.{Weight, ◌≼◌, IsOrdered, lt_of_lt_of_le}
use terminal_sim.Graph.{Edge, Graph, outgoing}
use terminal_sim.Dijkstra.{Item, Search, dist, skips, improved}
use terminal_sim.Dijkstra.Invariant.{Reached, IsFinite, Inv}
use terminal_sim.Dijkstra.Lowers.{Lowers, Ranked-Lowers}

module _ {V W : Type 0} ⦃e : Eq V⦄ ⦃w : Weight W⦄ where
  -- The vertex whose edges are being relaxed.
  pub record Front (u : V) (du : W) (s : Search V W) : Type 0 where
    pub is_visited : Sets.contains u s.visited ≡ true
    pub at : dist s u ≡ du
    pub latest : (x : V) → Sets.contains x s.visited ≡ true → dist s x ≼ du
    pub nonneg : w.nought ≼ du

module _ {V W : Type 0} ⦃e : Eq V⦄ ⦃w : Weight W⦄ (laws : IsOrdered W) (g : Graph V W) (mode : Mode)
    (known : V → Bool) (source : V) where
  open laws use {le_refl, le_trans, le_antisymm, le_of_lt, add_mono, le-add}

  module _ (u : V) (du : W) (s : Search V W) (d : Edge V W) (inv : Inv g mode known source s)
      (front : Front u du s) (mem : Memᴰ d (outgoing u g)) (from_u : d.source ≡ u)
      (target_known : known d.target ≡ true) (admitted : skips mode d ≡ false)
      (weight_nonneg : w.nought ≼ d.weight)
      (better : w.lt (w.add du d.weight) (dist s d.target) ≡ true) where
    abbrev new : W
    new = w.add du d.weight

    du-le-new : du ≼ new
    du-le-new = le-add du d.weight weight_nonneg

    -- No vertex at most as far as `u` is improved.
    not_better : (v : V) → dist s v ≼ du → (d.target == v) ≡ false
    not_better v h = elim (Bool-cases (d.target == v)) [
      | inl same ↦
          let le : dist s d.target ≼ new =
            subst (λ y. dist s y ≼ new) (sym (eq_of d.target v same))
              (le_trans (dist s v) du new h du-le-new) in
          cc (better, le)
      | inr other ↦ other
    ]

    fresh : (v : V) → Sets.contains v s.visited ≡ true → (d.target == v) ≡ false
    fresh v h = not_better v (front.latest v h)

    pub dist-improved :
        (v : V) → dist (improved du s d) v ≡ (if d.target == v then new else dist s v)
    dist-improved v = Maps.get_or-insert d.target v new w.nought s.distance

    pub Lowers-improved : Lowers s.visited s (improved du s d)
    Lowers-improved = record {
      lower = λ v. rw (dist-improved v) (
          if_elim (λ (y : W). y ≼ dist s v) (d.target == v)
            (λ same.
              subst (λ y. new ≼ dist s y) (eq_of d.target v same)
                (le_of_lt new (dist s d.target) better))
            (λ _. le_refl (dist s v)));
      settled = λ v h. ground (arith, dist-improved v, fresh v h);
      linked = λ v h. ground (arith, Maps.lookup-insert d.target v d s.previous, fresh v h);
    }

    new-IsFinite : IsFinite new
    new-IsFinite =
        lt_of_lt_of_le laws new (dist s d.target) w.infinity better (inv.bounded d.target)

    abbrev new_item : Item V W
    new_item = record { dist = new; vertex = d.target }

    nonneg_new : w.nought ≼ new
    nonneg_new = le_trans w.nought du new front.nonneg du-le-new

    queued-improved :
        (x : Item V W)
        → Memᴰ x (improved du s d).queue
        → (dist (improved du s d) x.vertex ≼ x.dist) × (w.nought ≼ x.dist) × IsFinite x.dist
    queued-improved x m = elim ((Memᴰ-cons x _ s.queue).0 m) [
      | inl same ↦
          subst
            (λ (y : Item V W).
              (dist (improved du s d) y.vertex ≼ y.dist) × (w.nought ≼ y.dist) × IsFinite y.dist)
            (sym same)
            (
              ground (arith, dist-improved d.target, le_refl new, e.same_iff d.target d.target),
              nonneg_new,
              new-IsFinite,
            )
      | inr old ↦
          let (le, rest) = split (inv.queued x old) in
          (
            le_trans (dist (improved du s d) x.vertex) (dist s x.vertex) x.dist
                (Lowers-improved.lower x.vertex) le,
            rest.0,
            rest.1,
          )
    ]
      where
        split : {A B C : Type 0} → A × B × C → A × (B × C)
        split t = (t.0, (t.1, t.2))

    waiting-improved :
        (v : V)
        → known v ≡ true
        → Sets.contains v s.visited ≡ false
        → IsFinite (dist (improved du s d) v)
        → Memᴰ (record { dist = dist (improved du s d) v; vertex = v }) (new_item ∷ s.queue)
    waiting-improved v k h fin = elim (Bool-cases (d.target == v)) [
      | inl same ↦ Memᴰ.head (ground (arith, dist-improved v, e.same_iff d.target v))
      | inr other ↦
          let kept : dist (improved du s d) v ≡ dist s v = ground (arith, dist-improved v) in
          Memᴰ.tail (
            subst (λ y. Memᴰ (record { dist = y; vertex = v }) s.queue) (sym kept)
              (inv.waiting v k h (subst (λ y. IsFinite y) kept fin)))
    ]

    reached-improved :
        (v : V)
        → known v ≡ true
        → IsFinite (dist (improved du s d) v)
        → (v ≡ source) ⊎ ((c : Edge V W) × Reached g mode (improved du s d) s.visited v c)
    reached-improved v k fin = elim (Bool-cases (d.target == v)) [
      | inl same ↦ inr (
        d,
        record {
          recorded = ground (arith, Maps.lookup-insert d.target v d s.previous);
          usable = record {
            listed = subst (λ y. Memᴰ d (outgoing y g)) (sym from_u) mem;
            admitted = admitted;
          };
          arrives = eq_of d.target v same;
          from_done = subst (λ y. Sets.contains y s.visited ≡ true) (sym from_u) front.is_visited;
          sums = ground (
            arith,
            dist-improved v,
            Lowers-improved.settled u front.is_visited,
            front.at,
            from_u,
            ap (dist (improved du s d)) from_u,
          );
        },
      )
      | inr other ↦
          let kept : dist (improved du s d) v ≡ dist s v = ground (arith, dist-improved v) in
          ⊎_elim inl
            (λ (c, r). inr (
              c,
              record {
                recorded = ground (arith, Maps.lookup-insert d.target v d s.previous, r.recorded);
                usable = r.usable;
                arrives = r.arrives;
                from_done = r.from_done;
                sums =
                    kept
                    ∙ r.sums
                    ∙ ap (λ y. w.add y c.weight)
                        (sym (Lowers-improved.settled c.source r.from_done));
              },
            ))
            (inv.reached v k (subst (λ y. IsFinite y) kept fin))
    ]

    pub Inv-improved : Inv g mode known source (improved du s d)
    Inv-improved = record {
      source_zero = Lowers-improved_source ∙ inv.source_zero;
      bounded = λ v.
          le_trans (dist (improved du s d) v) (dist s v) w.infinity (Lowers-improved.lower v)
            (inv.bounded v);
      queued = queued-improved;
      queued_known = λ x m.
          ⊎_elim (λ same. subst (λ y. known y.vertex ≡ true) (sym same) target_known)
            (inv.queued_known x) ((Memᴰ-cons x _ s.queue).0 m);
      settled_first = λ x h y m.
          subst (λ z. z ≼ y.dist) (sym (Lowers-improved.settled x h)) (settled_old x h y m);
      waiting = waiting-improved;
      reached = reached-improved;
      ranked =
          Ranked-Lowers g mode source s.visited s (improved du s d) Lowers-improved s.visited
            (λ x h. h) inv.ranked;
    }
      where
        Lowers-improved_source : dist (improved du s d) source ≡ dist s source
        Lowers-improved_source = ground (
          arith,
          dist-improved source,
          not_better source (subst (λ y. y ≼ du) (sym inv.source_zero) front.nonneg),
        )

        settled_old :
            (x : V)
            → Sets.contains x s.visited ≡ true
            → (y : Item V W) → Memᴰ y (improved du s d).queue
            → dist s x ≼ y.dist
        settled_old x h y m = elim ((Memᴰ-cons y _ s.queue).0 m) [
          | inl same ↦
              subst (λ (z : Item V W). dist s x ≼ z.dist) (sym same)
                (le_trans (dist s x) du new (front.latest x h) du-le-new)
          | inr old ↦ inv.settled_first x h y old
        ]
