-- ===== src/Terminal/Reservations/Kept.antt =====
-- The reservation operations and the predicate `Consistent`.
use terminal_sim.Prelude.{
  ◌≡◌, ◌∙◌, refl, ap, true, false, none, some, List, [], Text, text_eq, arith, Option-cases,
  if_elim, inl, inr,
}
use terminal_sim.Prelude.Maps
use terminal_sim.Prelude.Sets
use terminal_sim.Real.{Real}
use terminal_sim.Terminal.{Env, Reservation, Response, Reply, Terminal, Criteria, ok, throws}
use terminal_sim.Terminal.Pickup.{
  exhausted, select_container_ids, within_capacity, containers_snapshot,
}
use terminal_sim.Terminal.Pickup.Selection.{select_from-unreserved}
use terminal_sim.Terminal.Reservations.{
  drop, ids_held, release, reserve, reserve_new, complete, committed_response, active_response,
}
use terminal_sim.Terminal.Reservations.Consistent.{
  Consistent, holds, claims, activate-Consistent, drop-Consistent,
}

absent :
    {V : Type 0} (k : Text) (m : List (Text × V)) → Maps.lookup k m ≡ none → Maps.has k m ≡ false
absent k m h = ground (arith, h, Maps.has-lookup k m)

module _ {C S T : Type 0} where
  -- `releaseContainerReservation` of a normalized id.
  pub release-Consistent :
      (rid : Text) (t : Terminal C S T) → Consistent t → Consistent (release rid t).0
  unfolding release drop holds claims ids_held
  release-Consistent rid t k = elim (Option-cases (Maps.lookup rid t.completed)) [
    | inr (response, h) ↦ rw (h, release) k
    | inl h ↦
        let d = drop-Consistent rid t k in
        rw (h, release)
          (record {
            agree = d.agree;
            not_completed = d.not_completed;
            not_released = λ o m.
                Maps.has-remove rid o t.reservations
                ∙ ground (arith, Sets.contains-insert rid o t.released, k.not_released o);
            never_both = λ o m. ground (
              arith,
              Sets.contains-insert rid o t.released,
              k.never_both o,
              absent rid t.completed h,
              text_eq.same_iff rid o,
              λ (p : rid ≡ o). ap (λ x. Maps.has x t.completed) p,
            );
          })
  ]

  pub complete-Consistent :
      (rid : Text) (x : Terminal C S T × Reply (List C))
      → Consistent x.0
      → Maps.has rid x.0.reservations ≡ false
      → Sets.contains rid x.0.released ≡ false
      → Consistent (complete rid x).0
  unfolding complete holds claims ids_held
  complete-Consistent rid (t, throws f) k gone kept = k
  complete-Consistent rid (t, ok cs) k gone kept = record {
    agree = k.agree;
    not_completed = λ o m. ground (
      arith,
      k.not_completed o,
      Maps.has-insert rid o (committed_response rid cs) t.completed,
      text_eq.same_iff rid o,
      gone,
      λ (p : rid ≡ o). ap (λ x. Maps.has x t.reservations) p,
    );
    not_released = k.not_released;
    never_both = λ o m. ground (
      arith,
      k.never_both o m,
      Maps.has-insert rid o (committed_response rid cs) t.completed,
      text_eq.same_iff rid o,
      m,
      kept,
      λ (p : rid ≡ o). ap (λ x. Sets.contains x t.released) p,
    );
  }

module _ {C S F T : Type 0} (env : Env C S F T) ⦃r : Real T⦄ where
  reserve_new-Consistent :
      (rid : Text) (criteria : Criteria F) (t : Terminal C S T)
      → Consistent t
      → Maps.has rid t.reservations ≡ false
      → Maps.has rid t.completed ≡ false
      → Sets.contains rid t.released ≡ false
      → Consistent (reserve_new env rid criteria t).0
  unfolding reserve_new select_container_ids Sets.contains
  reserve_new-Consistent rid criteria t k new open_ kept =
      let c = within_capacity env t criteria in
      let ids = select_container_ids env t c true in
      let made : Reservation C = record {
        container_ids = ids;
        snapshot = containers_snapshot env t.storage ids;
      } in
      if_elim (λ (x : Terminal C S T × Reply (Response C)). Consistent x.0) (exhausted env t)
        (λ _. k)
        (λ _. activate-Consistent rid made t k new open_ kept (λ id m.
          select_from-unreserved env t.reserved_ids c.limit [] (env.matching t.storage c.filter) id
            m refl))

  pub reserve-Consistent :
      (rid : Text) (criteria : Criteria F) (t : Terminal C S T)
      → Consistent t
      → Consistent (reserve env rid criteria t).0
  unfolding reserve
  reserve-Consistent rid criteria t k = elim (Option-cases (Maps.lookup rid t.completed)) [
    | inr (response, h) ↦ rw (h, reserve) k
    | inl h ↦
        rw (h, reserve)
          (if_elim (λ (x : Terminal C S T × Reply (Response C)). Consistent x.0)
            (Sets.contains rid t.released) (λ _. k)
            (λ kept.
              elim (Option-cases (Maps.lookup rid t.reservations))
                as (λ _.
                  Consistent
                    (elim (Maps.lookup rid t.reservations)
                      as (λ _. Terminal C S T × Reply (Response C)) [
                        | some reservation ↦ (t, ok (active_response rid reservation))
                        | none ↦ reserve_new env rid criteria t
                      ]).0) [
                        | inr (x, old) ↦ rw old k
                        | inl new ↦ rw new (
                            reserve_new-Consistent rid criteria t k (absent rid t.reservations new)
                              (absent rid t.completed h) kept)
                      ]))
  ]
