-- ===== src/Dijkstra/Rounds.antt =====
-- One round of the main loop: taking a pair from the queue, and what the loop ends with.
use terminal_sim.Prelude.{
  ◌≡◌, ◌≢◌, ◌⊎◌, inl, inr, ⊎_elim, refl, sym, ap, ◌∙◌, subst, Bool, true, false, List, [], ◌∷◌,
  Memᴰ, arith, Eq,
}
use terminal_sim.Prelude.Sets
use terminal_sim.Common.{Mode}
use terminal_sim.Weight.{Weight, ◌≼◌, IsOrdered, lt_of_le_of_lt}
use terminal_sim.Graph.{Edge, Graph, outgoing}
use terminal_sim.Dijkstra.{Item, Search, dist, skips}
use terminal_sim.Dijkstra.Queue.{Pops}
use terminal_sim.Dijkstra.Invariant.{IsFinite, Inv, Ranked, Reached}
use terminal_sim.Dijkstra.Relax.{Front}
use terminal_sim.Dijkstra.Expand.{IsSound, Expands}

module _ {V W : Type 0} ⦃e : Eq V⦄ ⦃w : Weight W⦄ (laws : IsOrdered W) (g : Graph V W) (mode : Mode)
    (known : V → Bool) (source : V) where
  open laws use {le_refl, le_trans, le_antisymm}

  -- The edges of `u` cannot improve any distance.
  abbrev pub IsClosedAt : Search V W → V → Type 0
  IsClosedAt s u =
      (d : Edge V W)
      → Memᴰ d (outgoing u g)
      → skips mode d ≡ false
      → dist s d.target ≼ w.add (dist s u) d.weight

  pub record Between (s : Search V W) : Type 0 where
    pub inv : Inv g mode known source s
    pub closed : (u : V) → Sets.contains u s.visited ≡ true → IsClosedAt s u

  -- How the loop ends: no vertex nearer than `limit` is left to expand.
  pub record Ended (target : V) (t : Search V W) : Type 0 where
    pub inv : Inv g mode known source t
    pub limit : W
    pub target_within : dist t target ≼ limit
    pub each : (u : V) → known u ≡ true → (limit ≼ dist t u) ⊎ IsClosedAt t u

  -- A state with the distances and previous edges of `s`.
  abbrev moved : Search V W → List (Item V W) → List V → Search V W
  moved s q l = record s { queue = q; visited = l }

  Reached-moved :
      (s : Search V W) (q : List (Item V W)) (l older newer : List V) (v : V) (d : Edge V W)
      → (Sets.contains d.source older ≡ true → Sets.contains d.source newer ≡ true)
      → Reached g mode s older v d
      → Reached g mode (moved s q l) newer v d
  Reached-moved s q l older newer v d more r = record {
    recorded = r.recorded;
    usable = r.usable;
    arrives = r.arrives;
    from_done = more r.from_done;
    sums = r.sums;
  }

  Ranked-moved :
      (s : Search V W) (q : List (Item V W)) (l older : List V)
      → Ranked g mode source s older
      → Ranked g mode source (moved s q l) older
  Ranked-moved s q l [] r = tt
  Ranked-moved s q l (v ∷ older) r = (
    ⊎_elim inl (λ (d, c). inr (d, Reached-moved s q l older older v d (λ h. h) c)) r.0,
    Ranked-moved s q l older r.1,
  )

  module _ (s : Search V W) (x : Item V W) (rest : List (Item V W))
      (inv : Inv g mode known source s) (pops : Pops s.queue x rest) where
    pub in_queue : Memᴰ x s.queue
    in_queue = (pops.splits x).1 (inl refl)

    in_rest : (y : Item V W) → Memᴰ y rest → Memᴰ y s.queue
    in_rest y m = (pops.splits y).1 (inr m)

    pub least : (y : Item V W) → Memᴰ y s.queue → x.dist ≼ y.dist
    least y m =
        ⊎_elim (λ same. subst (λ z. x.dist ≼ z.dist) (sym same) (le_refl x.dist)) (pops.least y)
          ((pops.splits y).0 m)

    -- A pair of a visited vertex is dropped.
    pub skip-Inv :
        Sets.contains x.vertex s.visited ≡ true
        → Inv g mode known source (record s { queue = rest })
    skip-Inv seen = record {
      source_zero = inv.source_zero;
      bounded = inv.bounded;
      queued = λ y m. inv.queued y (in_rest y m);
      queued_known = λ y m. inv.queued_known y (in_rest y m);
      settled_first = λ v h y m. inv.settled_first v h y (in_rest y m);
      waiting = λ v k h fin.
          ⊎_elim
            (λ same. cc (h, ap (λ (y : Item V W). Sets.contains y.vertex s.visited) same, seen))
            (λ m. m) ((pops.splits _).0 (inv.waiting v k h fin));
      reached = λ v k fin.
          ⊎_elim inl
            (λ (d, r). inr (d, Reached-moved s rest s.visited s.visited s.visited v d (λ h. h) r))
            (inv.reached v k fin);
      ranked = Ranked-moved s rest s.visited s.visited inv.ranked;
    }

    module _ (unseen : Sets.contains x.vertex s.visited ≡ false) where
      abbrev visiting : Search V W
      visiting = moved s rest (x.vertex ∷ s.visited)

      at_vertex : dist s x.vertex ≡ x.dist
      at_vertex =
          let (near, _, fin) = inv.queued x in_queue in
          let waits =
            inv.waiting x.vertex (inv.queued_known x in_queue) unseen
              (lt_of_le_of_lt laws (dist s x.vertex) x.dist w.infinity near fin) in
          le_antisymm (dist s x.vertex) x.dist near (least _ waits)

      grows : (v : V) → Sets.contains v s.visited ≡ true → Sets.contains v visiting.visited ≡ true
      grows v h = ground (arith, Sets.contains-cons v x.vertex s.visited)

      shrinks :
          (v : V)
          → Sets.contains v visiting.visited ≡ false
          → (Sets.contains v s.visited ≡ false) × (x.vertex ≢ v)
      shrinks v h = (
        ground (arith, Sets.contains-cons v x.vertex s.visited),
        λ same. ground (arith, Sets.contains-cons v x.vertex s.visited, e.same_iff x.vertex v),
      )

      one_of :
          (v : V)
          → Sets.contains v visiting.visited ≡ true
          → (x.vertex ≡ v) ⊎ (Sets.contains v s.visited ≡ true)
      one_of v h = ground (arith, Sets.contains-cons v x.vertex s.visited, e.same_iff x.vertex v)

      latest : (v : V) → Sets.contains v visiting.visited ≡ true → dist s v ≼ x.dist
      latest v h =
          ⊎_elim (λ same. subst (λ y. dist s y ≼ x.dist) same (inv.queued x in_queue).0)
            (λ old. inv.settled_first v old x in_queue) (one_of v h)

      reached_before :
          (v : V)
          → known v ≡ true
          → IsFinite (dist s v)
          → (v ≡ source) ⊎ ((d : Edge V W) × Reached g mode visiting s.visited v d)
      reached_before v k fin =
          ⊎_elim inl
            (λ (d, r).
              inr (d, Reached-moved s rest visiting.visited s.visited s.visited v d (λ h. h) r))
            (inv.reached v k fin)

      pub visit-Inv : Inv g mode known source visiting
      visit-Inv = record {
        source_zero = inv.source_zero;
        bounded = inv.bounded;
        queued = λ y m. inv.queued y (in_rest y m);
        queued_known = λ y m. inv.queued_known y (in_rest y m);
        settled_first = λ v h y m. le_trans (dist s v) x.dist y.dist (latest v h) (pops.least y m);
        waiting = λ v k h fin.
            let (out, other) = shrinks v h in
            ⊎_elim (λ same. absurd (other (sym (ap (λ (y : Item V W). y.vertex) same)))) (λ m. m)
              ((pops.splits _).0 (inv.waiting v k out fin));
        reached = λ v k fin.
            ⊎_elim inl
              (λ (d, r). inr (
                d,
                Reached-moved s rest visiting.visited s.visited visiting.visited v d
                    (grows d.source)
                    (record {
                      recorded = r.recorded;
                      usable = r.usable;
                      arrives = r.arrives;
                      from_done = r.from_done;
                      sums = r.sums;
                    }),
              ))
              (reached_before v k fin);
        ranked = (
          reached_before x.vertex (inv.queued_known x in_queue)
              (subst (λ y. IsFinite y) (sym at_vertex) (inv.queued x in_queue).2),
          Ranked-moved s rest visiting.visited s.visited inv.ranked,
        );
      }

      pub visit-Front : Front x.vertex x.dist visiting
      visit-Front = record {
        is_visited =
            ground
              (arith, Sets.contains-cons x.vertex x.vertex s.visited, e.same_iff x.vertex x.vertex);
        at = at_vertex;
        latest = latest;
        nonneg = (inv.queued x in_queue).1;
      }

  module _ (target : V)
      (sound : (u : V) (d : Edge V W)
        → Memᴰ d (outgoing u g)
        → IsSound laws g mode known source u d) where
    pub expand-Between :
        (s t : Search V W) (u : V) (du : W) (old : List V)
        → s.visited ≡ u ∷ old
        → ((v : V) → Sets.contains v old ≡ true → IsClosedAt s v)
        → Expands laws g mode known source u du s t
        → IsClosedAt t u
        → Between t
    expand-Between s t u du old vis was ex here = record {
      inv = ex.inv;
      closed = λ v h.
          let both : (u ≡ v) ⊎ (Sets.contains v old ≡ true) = ground (
            arith,
            ex.same_visited,
            vis,
            ap (Sets.contains v) (ex.same_visited ∙ vis),
            Sets.contains-cons v u old,
            e.same_iff u v,
          ) in
          ⊎_elim (λ same. subst (IsClosedAt t) same here)
            (λ (past : Sets.contains v old ≡ true) d m take.
              le_trans _ _ _ (ex.lowers.lower d.target) (
                subst (λ y. dist s d.target ≼ w.add y d.weight)
                  (sym (ex.lowers.settled v (rw vis (ground (arith, Sets.contains-cons v u old)))))
                  (was v past d m take)))
            both;
    }
