-- ===== src/Terminal/Reservations/Consistent.antt =====
-- When the reservations and the map of reserved containers agree, and which operations on them keep
-- that.
use terminal_sim.Prelude.{
  ◌≡◌, refl, sym, ap, ◌∙◌, Bool, true, false, none, some, List, if◌then◌else◌, Text, text_eq, ◌==◌,
  arith, Option-cases, inl, inr,
}
use terminal_sim.Prelude.Maps
use terminal_sim.Prelude.Sets
use terminal_sim.Terminal.{Batch, DynamicsState, Reservation, Terminal}
use terminal_sim.Terminal.Reservations.{activate, drop, ids_held}
use terminal_sim.Terminal.Reservations.Ids.{lookup-claim_all, lookup-unclaim_all}

module _ {C S T : Type 0} where
  -- The active reservation `rid` lists the container `c`.
  unfoldable pub holds : Text → Text → Terminal C S T → Bool
  unfolding ids_held
  holds rid c t = Sets.contains c (ids_held rid t)

  -- The map of reserved containers gives `c` to `rid`.
  unfoldable pub claims : Text → Text → Terminal C S T → Bool
  claims rid c t = elim (Maps.lookup c t.reserved_ids) as (λ _. Bool) [
    | none ↦ false
    | some o ↦ o == rid
  ]

  pub record Consistent (t : Terminal C S T) : Type 0 where
    pub agree : (rid c : Text) → holds rid c t ≡ claims rid c t
    pub not_completed :
        (rid : Text) → Maps.has rid t.completed ≡ true → Maps.has rid t.reservations ≡ false
    pub not_released :
        (rid : Text) → Sets.contains rid t.released ≡ true → Maps.has rid t.reservations ≡ false
    pub never_both :
        (rid : Text) → Sets.contains rid t.released ≡ true → Maps.has rid t.completed ≡ false

  -- The store, the records and the dynamics play no part.
  pub refit-Consistent :
      (t : Terminal C S T) (s : S) (b : List (Text × List (Batch T))) (d : DynamicsState T)
      → Consistent t
      → Consistent (record t { storage = s; batches = b; dynamics = d })
  unfolding holds claims ids_held
  refit-Consistent t s b d k = record {
    agree = k.agree;
    not_completed = k.not_completed;
    not_released = k.not_released;
    never_both = k.never_both;
  }

  claims-activate :
      (rid : Text) (r : Reservation C) (t : Terminal C S T) (o c : Text)
      → claims o c (activate rid r t)
        ≡ (if Sets.contains c r.container_ids then rid == o else claims o c t)
  unfolding claims activate
  claims-activate rid r t o c =
      ground (arith, lookup-claim_all rid c r.container_ids t.reserved_ids)

  holds-activate :
      (rid : Text) (r : Reservation C) (t : Terminal C S T) (o c : Text)
      → holds o c (activate rid r t)
        ≡ (if rid == o then Sets.contains c r.container_ids else holds o c t)
  unfolding holds activate ids_held
  holds-activate rid r t o c = ground (arith, Maps.lookup-insert rid o r t.reservations)

  holds_nothing :
      (rid c : Text) (t : Terminal C S T)
      → Maps.has rid t.reservations ≡ false
      → holds rid c t ≡ false
  unfolding holds ids_held Sets.contains
  holds_nothing rid c t h = ground (arith, h, Maps.has-lookup rid t.reservations)

  unclaimed :
      (o c : Text) (t : Terminal C S T) → Maps.has c t.reserved_ids ≡ false → claims o c t ≡ false
  unfolding claims
  unclaimed o c t h = ground (arith, h, Maps.has-lookup c t.reserved_ids)

  -- A new reservation of containers that no other holds keeps the terminal consistent.
  pub activate-Consistent :
      (rid : Text) (r : Reservation C) (t : Terminal C S T)
      → Consistent t
      → Maps.has rid t.reservations ≡ false
      → Maps.has rid t.completed ≡ false
      → Sets.contains rid t.released ≡ false
      → ((c : Text) → Sets.contains c r.container_ids ≡ true → Maps.has c t.reserved_ids ≡ false)
      → Consistent (activate rid r t)
  unfolding activate
  activate-Consistent rid r t k new open_ kept free = record {
    agree = λ o c.
        holds-activate rid r t o c
        ∙ ground (
          arith,
          k.agree o c,
          k.agree rid c,
          free c,
          unclaimed o c t,
          holds_nothing rid c t new,
          text_eq.same_iff rid o,
          λ (p : rid ≡ o). ap (λ x. claims x c t) p,
        )
        ∙ sym (claims-activate rid r t o c);
    not_completed = λ o h.
        Maps.has-insert rid o r t.reservations
        ∙ ground (
          arith,
          k.not_completed o h,
          text_eq.same_iff rid o,
          λ (p : rid ≡ o). ap (λ x. Maps.has x t.completed) p,
        );
    not_released = λ o h.
        Maps.has-insert rid o r t.reservations
        ∙ ground (
          arith,
          k.not_released o h,
          text_eq.same_iff rid o,
          λ (p : rid ≡ o). ap (λ x. Sets.contains x t.released) p,
        );
    never_both = k.never_both;
  }

  holds_lem : (rid c : Text) (t : Terminal C S T) → holds rid c t ≡ Sets.contains c (ids_held rid t)
  unfolding holds
  holds_lem rid c t = refl

  claims-drop :
      (rid : Text) (ids : List Text) (t : Terminal C S T) (o c : Text)
      → claims o c (drop rid ids t) ≡ (if Sets.contains c ids then false else claims o c t)
  unfolding claims drop
  claims-drop rid ids t o c = ground (arith, lookup-unclaim_all c ids t.reserved_ids)

  holds-drop :
      (rid : Text) (ids : List Text) (t : Terminal C S T) (o c : Text)
      → holds o c (drop rid ids t) ≡ (if rid == o then false else holds o c t)
  unfolding holds drop ids_held Sets.contains
  holds-drop rid ids t o c = ground (arith, Maps.lookup-remove rid o t.reservations)

  one_claim :
      (rid o c : Text) (t : Terminal C S T) → claims rid c t ≡ true → claims o c t ≡ true → rid ≡ o
  unfolding claims
  one_claim rid o c t h k = elim (Option-cases (Maps.lookup c t.reserved_ids)) [
    | inl none_there ↦ ground (arith, h, none_there)
    | inr (x, there) ↦
        sym ((text_eq.same_iff x rid).0 (rw (there, claims) at h))
        ∙ (text_eq.same_iff x o).0 (rw (there, claims) at k)
  ]

  -- Dropping a reservation with the containers that it holds keeps the terminal consistent.
  pub drop-Consistent :
      (rid : Text) (t : Terminal C S T) → Consistent t → Consistent (drop rid (ids_held rid t) t)
  unfolding drop
  drop-Consistent rid t k = record {
    agree = λ o c.
        holds-drop rid (ids_held rid t) t o c
        ∙ ground (
          arith,
          k.agree o c,
          k.agree rid c,
          one_claim rid o c t,
          text_eq.same_iff rid o,
          holds_lem rid c t,
          λ (p : rid ≡ o). ap (λ x. claims x c t) p,
        )
        ∙ sym (claims-drop rid (ids_held rid t) t o c);
    not_completed =
        λ o h. Maps.has-remove rid o t.reservations ∙ ground (arith, k.not_completed o h);
    not_released = λ o h. Maps.has-remove rid o t.reservations ∙ ground (arith, k.not_released o h);
    never_both = k.never_both;
  }
