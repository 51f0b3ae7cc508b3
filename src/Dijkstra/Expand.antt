-- ===== src/Dijkstra/Expand.antt =====
-- Relaxing the edges of a vertex: the invariant is kept, and afterwards none of them can improve.
use mathlib.Core.List.Memᴰ
use terminal_sim.Prelude.{
  ◌≡◌, inl, inr, refl, ap, ◌∙◌, subst, Bool, true, false, List, [], ◌∷◌, Memᴰ, arith, Eq,
  Bool-cases, Memᴰ-cons, sym,
}
use terminal_sim.Prelude.Maps
use terminal_sim.Common.{Mode}
use terminal_sim.Weight.{Weight, ◌≼◌, IsOrdered}
use terminal_sim.Graph.{Edge, Graph, outgoing}
use terminal_sim.Dijkstra.{Search, dist, skips, improved, relax, relax_all}
use terminal_sim.Dijkstra.Invariant.{Inv}
use terminal_sim.Dijkstra.Lowers.{Lowers, Lowers-refl, Lowers-trans}
use terminal_sim.Dijkstra.Relax.{Front, Inv-improved, Lowers-improved}

module _ {V W : Type 0} ⦃e : Eq V⦄ ⦃w : Weight W⦄ (laws : IsOrdered W) (g : Graph V W) (mode : Mode)
    (known : V → Bool) (source : V) where
  open laws use {le_refl, le_trans, le_of_lt}

  -- What `relax` may count on for an edge out of `u`.
  pub record IsSound (u : V) (d : Edge V W) : Type 0 where
    pub listed : Memᴰ d (outgoing u g)
    pub from_here : d.source ≡ u
    pub to_known : known d.target ≡ true
    pub not_negative : w.nought ≼ d.weight

  -- `t` comes from `s` by relaxing edges of `u`, which was taken from the queue at `du`.
  pub record Expands (u : V) (du : W) (s t : Search V W) : Type 0 where
    pub same_visited : t.visited ≡ s.visited
    pub inv : Inv g mode known source t
    pub front : Front u du t
    pub lowers : Lowers s.visited s t

  module _ (u : V) (du : W) where
    improved-Expands :
        (s : Search V W) (d : Edge V W)
        → Inv g mode known source s
        → Front u du s
        → IsSound u d
        → skips mode d ≡ false
        → w.lt (w.add du d.weight) (dist s d.target) ≡ true
        → Expands u du s (improved du s d)
    improved-Expands s d inv front ok admitted better =
        let low =
          Lowers-improved laws g mode known source u du s d inv front ok.listed ok.from_here
            ok.to_known admitted ok.not_negative better in
        record {
          same_visited = refl;
          inv =
              Inv-improved laws g mode known source u du s d inv front ok.listed ok.from_here
                ok.to_known admitted ok.not_negative better;
          front = record {
            is_visited = front.is_visited;
            at = low.settled u front.is_visited ∙ front.at;
            latest = λ x h. subst (λ y. y ≼ du) (sym (low.settled x h)) (front.latest x h);
            nonneg = front.nonneg;
          };
          lowers = low;
        }

    improved-target :
        (s : Search V W) (d : Edge V W) → dist (improved du s d) d.target ≼ w.add du d.weight
    improved-target s d = ground (
      arith,
      Maps.get_or-insert d.target d.target (w.add du d.weight) w.nought s.distance,
      e.same_iff d.target d.target,
      le_refl (w.add du d.weight),
    )

    relax-Expands :
        (s : Search V W) (d : Edge V W)
        → Inv g mode known source s
        → Front u du s
        → IsSound u d
        → Expands u du s (relax mode du s d)
          × (skips mode d ≡ false → dist (relax mode du s d) d.target ≼ w.add du d.weight)
    unfolding relax
    relax-Expands s d inv front ok = elim (Bool-cases (skips mode d)) [
      | inl skip ↦ rw skip (same, λ h. cc)
      | inr take ↦ rw take (elim (Bool-cases (w.lt (w.add du d.weight) (dist s d.target))) [
        | inl better ↦
            rw better (improved-Expands s d inv front ok take better, λ _. improved-target s d)
        | inr worse ↦ rw worse (same, λ _. worse)
      ])
    ]
      where
        same : Expands u du s s
        same = record {
          same_visited = refl;
          inv = inv;
          front = front;
          lowers = Lowers-refl laws s.visited s;
        }

    Expands-trans : (r s t : Search V W) → Expands u du r s → Expands u du s t → Expands u du r t
    Expands-trans r s t a b = record {
      same_visited = b.same_visited ∙ a.same_visited;
      inv = b.inv;
      front = b.front;
      lowers =
          Lowers-trans laws r.visited r s t a.lowers
            (subst (λ l. Lowers l s t) a.same_visited b.lowers);
    }

    -- After the loop over the edges of `u`, none of them leads to a shorter distance.
    pub relax_all-Expands :
        (ds : List (Edge V W)) (s : Search V W)
        → Inv g mode known source s
        → Front u du s
        → ((d : Edge V W) → Memᴰ d ds → IsSound u d)
        → Expands u du s (relax_all mode du s ds)
          × ((d : Edge V W)
              → Memᴰ d ds
              → skips mode d ≡ false
              → dist (relax_all mode du s ds) d.target ≼ w.add du d.weight)
    unfolding relax_all
    relax_all-Expands [] s inv front ok = (
      record {
        same_visited = refl;
        inv = inv;
        front = front;
        lowers = Lowers-refl laws s.visited s;
      },
      λ d m. absurd (Memᴰ.not-nil m),
    )
    relax_all-Expands (c ∷ ds) s inv front ok =
        let (first, here) = relax-Expands s c inv front (ok c (Memᴰ.head refl)) in
        let (rest, there) =
          relax_all-Expands ds (relax mode du s c) first.inv first.front
            (λ d m. ok d (Memᴰ.tail m)) in
        (
          Expands-trans s (relax mode du s c) (relax_all mode du (relax mode du s c) ds) first rest,
          λ d m take. elim ((Memᴰ-cons d c ds).0 m) [
            | inl same ↦
                subst
                  (λ (x : Edge V W).
                    dist (relax_all mode du (relax mode du s c) ds) x.target ≼ w.add du x.weight)
                  (sym same)
                  (le_trans _ _ _ (rest.lowers.lower c.target)
                    (here (sym (ap (skips mode) same) ∙ take)))
            | inr later ↦ there d later take
          ],
        )
