-- ===== src/Terminal/Reservations/Retries.antt =====
-- A commit that is sent again.
use terminal_sim.Prelude.{
  ◌≡◌, refl, ap, ◌∙◌, ℕ, Bool, true, none, some, List, length, Text, text_eq, arith, Option-cases,
  inl, inr, Bool-cases, if_elim,
}
use terminal_sim.Prelude.Maps
use terminal_sim.Prelude.Sets
use terminal_sim.Real.{Real}
use terminal_sim.Common.{Mode}
use terminal_sim.Reply.{ok_inj}
use terminal_sim.Terminal.{
  Criteria, Env, EventType, Handling, Reply, Response, Semantics, Status, Terminal, ok, throws,
}
use terminal_sim.Terminal.Arrivals.{Draws, add_container, add_containers, handle_arrival}
use terminal_sim.Terminal.Arrivals.Keeps.{add_container_keeps, add_containers_keeps}
use terminal_sim.Terminal.Batches.{is_empty}
use terminal_sim.Terminal.Capacity.{check_capacity_status}
use terminal_sim.Terminal.Dynamics.{update_system_dynamics}
use terminal_sim.Terminal.Dynamics.Updated.{update_system_dynamics-dynamics}
use terminal_sim.Terminal.Pickup.{
  dequeue_containers, depart, exhausted, remove_and_record, select_container_ids, within_capacity,
}
use terminal_sim.Terminal.Pickup.Removed.{remove_and_record-Touches}
use terminal_sim.Terminal.Reservations.{
  activate, commit, commit_reservation, committed_response, complete, drop, release,
  release_reservation, released_response, reserve, reserve_containers, reserve_new,
}
use terminal_sim.Terminal.Reservations.Steps.{Service, commits, dequeues, releases, reserves}

module _ {C S T : Type 0} where
  -- What is answered is what is kept.
  complete-kept :
      (rid : Text) (x : Terminal C S T × Reply (List C)) (a : Response C)
      → (complete rid x).1 ≡ ok a
      → Maps.lookup rid (complete rid x).0.completed ≡ some a
  unfolding complete
  complete-kept rid (t, throws f) a h = ground (arith, h)
  complete-kept rid (t, ok cs) a h =
      Maps.lookup-insert rid rid (committed_response rid cs) t.completed
      ∙ ground (arith, h, text_eq.same_iff rid rid)

module _ {C S F T : Type 0} (env : Env C S F T) ⦃r : Real T⦄ where
  -- What may happen to a terminal but `clear` and `resetRuntimeState`.
  pub data Goes : Terminal C S T → Terminal C S T → Type 0 where
    stays : (t : Terminal C S T) → Goes t t
    serves : (t u v : Terminal C S T) → Service env t u → Goes u v → Goes t v
    updates :
        (now step : T) (t v : Terminal C S T)
        → Goes (update_system_dynamics env now step t).0 v
        → Goes t v
    arrives :
        (d : Draws T) (c : C) (time : T) (mode : Mode) (semantics : Semantics)
        (t v : Terminal C S T)
        → Goes (add_container env d c time mode semantics t).0 v
        → Goes t v
    all_arrive :
        (cs : List (Draws T × C)) (time : T) (mode : Mode) (semantics : Semantics)
        (t v : Terminal C S T)
        → Goes (add_containers env cs time mode semantics t).0 v
        → Goes t v

  commit_kept :
      (rid : Text) (later : T) (t : Terminal C S T) (a : Response C)
      → Maps.lookup rid t.completed ≡ some a
      → commit env rid later t ≡ (t, ok a)
  unfolding commit
  commit_kept rid later t a h = rw (h, commit) refl

  -- An answer that says committed is kept.
  commit-kept :
      (rid : Text) (time : T) (t : Terminal C S T) (a : Response C)
      → (commit env rid time t).1 ≡ ok a
      → a.status ≡ Status.committed
      → Maps.lookup rid (commit env rid time t).0.completed ≡ some a
  unfolding commit
  commit-kept rid time t a h said = elim (Option-cases (Maps.lookup rid t.completed)) [
    | inr (response, c) ↦
        let same : response ≡ a = ok_inj (rw (c, commit) at h) in rw (c, commit) (c ∙ ap some same)
    | inl c ↦ elim (Option-cases (Maps.lookup rid t.reservations)) [
      | inl k ↦ elim (Bool-cases (Sets.contains rid t.released)) [
        | inl gone ↦
            let same : released_response rid none ≡ a = ok_inj (rw (c, k, gone, commit) at h) in
            let other = ap (λ (x : Response C). x.status) same in cc (other, said)
        | inr new ↦ let failed = rw (c, k, new, commit) at h in cc (failed)
      ]
      | inr (x, k) ↦ rw (c, k, commit) (complete-kept rid _ a (rw (c, k, commit) at h))
    ]
  ]

  module _ (rid : Text) (a : Response C) where
    -- The answer is kept under the id.
    abbrev Keeps : Terminal C S T → Type 0
    Keeps t = Maps.lookup rid t.completed ≡ some a

    left-Keeps :
        (ids : List Text) (type : EventType) (time : T) (n : ℕ) (t : Terminal C S T)
        → (remove_and_record env ids type time (depart env n t)).0.completed ≡ t.completed
    left-Keeps ids type time n t =
        let (s, b, same) = remove_and_record-Touches env ids type time (depart env n t) in
        rw same (
          if_elim (λ (u : Terminal C S T). u.completed ≡ t.completed) t.params.enabled (λ _. refl)
            (λ _. refl))

    complete-Keeps :
        (other : Text) (x : Terminal C S T × Reply (List C))
        → Keeps x.0
        → Maps.lookup other x.0.completed ≡ none
        → Keeps (complete other x).0
    unfolding complete
    complete-Keeps other (t, throws f) h new = h
    complete-Keeps other (t, ok cs) h new = ground (
      arith,
      Maps.lookup-insert other rid (committed_response other cs) t.completed,
      text_eq.same_iff other rid,
      λ (p : other ≡ rid). ap (λ x. Maps.lookup x t.completed) p,
      h,
      new,
    )

    commit-Keeps :
        (other : Text) (time : T) (t : Terminal C S T) → Keeps t → Keeps (commit env other time t).0
    unfolding commit drop
    commit-Keeps other time t h = elim (Option-cases (Maps.lookup other t.completed)) [
      | inr (response, c) ↦ rw (c, commit) h
      | inl c ↦ elim (Option-cases (Maps.lookup other t.reservations)) [
        | inl k ↦
            rw (c, k, commit)
              (if_elim (λ (x : Terminal C S T × Reply (Response C)). Keeps x.0)
                (Sets.contains other t.released) (λ _. h) (λ _. h))
        | inr (x, k) ↦
            let same =
              left-Keeps x.container_ids EventType.pickup_departure time (length x.container_ids)
                (drop other x.container_ids t) in
            rw (c, k, commit)
              (complete-Keeps other _ (ap (Maps.lookup rid) same ∙ h)
                (ap (Maps.lookup other) same ∙ c))
      ]
    ]

    release-Keeps : (other : Text) (t : Terminal C S T) → Keeps t → Keeps (release other t).0
    unfolding release drop
    release-Keeps other t h = elim (Option-cases (Maps.lookup other t.completed)) [
      | inr (response, c) ↦ rw (c, release) h
      | inl c ↦ rw (c, release) h
    ]

    reserve-Keeps :
        (other : Text) (criteria : Criteria F) (t : Terminal C S T)
        → Keeps t
        → Keeps (reserve env other criteria t).0
    unfolding reserve reserve_new activate
    reserve-Keeps other criteria t h = elim (Option-cases (Maps.lookup other t.completed)) [
      | inr (response, c) ↦ rw (c, reserve) h
      | inl c ↦ elim (Option-cases (Maps.lookup other t.reservations)) [
        | inr (x, k) ↦
            rw (c, k, reserve)
              (if_elim (λ (x : Terminal C S T × Reply (Response C)). Keeps x.0)
                (Sets.contains other t.released) (λ _. h) (λ _. h))
        | inl k ↦
            rw (c, k, reserve)
              (if_elim (λ (x : Terminal C S T × Reply (Response C)). Keeps x.0)
                (Sets.contains other t.released) (λ _. h)
                (λ _.
                  if_elim (λ (x : Terminal C S T × Reply (Response C)). Keeps x.0) (exhausted env t)
                    (λ _. h) (λ _. h)))
      ]
    ]

    Service-Keeps : (t u : Terminal C S T) → Service env t u → Keeps t → Keeps u
    unfolding reserve_containers commit_reservation release_reservation dequeue_containers
    Service-Keeps _ _ (reserves id criteria t) h =
        if_elim (λ (x : Terminal C S T × Reply (Response C)). Keeps x.0) (is_empty (env.trimmed id))
          (λ _. h) (λ _. reserve-Keeps (env.trimmed id) criteria t h)
    Service-Keeps _ _ (commits id time t) h =
        if_elim (λ (x : Terminal C S T × Reply (Response C)). Keeps x.0) (is_empty (env.trimmed id))
          (λ _. h) (λ _. commit-Keeps (env.trimmed id) time t h)
    Service-Keeps _ _ (releases id t) h =
        if_elim (λ (x : Terminal C S T × Reply (Response C)). Keeps x.0) (is_empty (env.trimmed id))
          (λ _. h) (λ _. release-Keeps (env.trimmed id) t h)
    Service-Keeps _ _ (dequeues criteria time t) h =
        let ids = select_container_ids env t (within_capacity env t criteria) true in
        if_elim (λ (x : Terminal C S T × Reply (List C)). Keeps x.0) (exhausted env t) (λ _. h)
          (λ _.
            ap (Maps.lookup rid) (left-Keeps ids EventType.pickup_departure time (length ids) t)
            ∙ h)

    arrival-Keeps :
        (d : Draws T) (c : C) (time : T) (mode : Mode) (runtime : Bool) (t : Terminal C S T)
        → Keeps t
        → Keeps (handle_arrival env d c time mode runtime t).0
    unfolding handle_arrival
    arrival-Keeps d c time mode runtime t h =
        if_elim (λ (x : Terminal C S T × Reply (Handling T)). Keeps x.0)
          (check_capacity_status env 1 t).0 (λ _. h) (λ _. h)

    Goes-Keeps : (t u : Terminal C S T) → Goes t u → Keeps t → Keeps u
    Goes-Keeps _ _ (stays t) h = h
    Goes-Keeps _ _ (serves t u v s rest) h = Goes-Keeps u v rest (Service-Keeps t u s h)
    Goes-Keeps _ _ (updates now step t v rest) h =
        let (d, same) = update_system_dynamics-dynamics env now step t in
        Goes-Keeps (update_system_dynamics env now step t).0 v rest (rw same h)
    Goes-Keeps _ _ (arrives d c time mode semantics t v rest) h =
        Goes-Keeps (add_container env d c time mode semantics t).0 v rest
          (add_container_keeps env Keeps arrival-Keeps (λ u b k. k) d c time mode semantics t h)
    Goes-Keeps _ _ (all_arrive cs time mode semantics t v rest) h =
        Goes-Keeps (add_containers env cs time mode semantics t).0 v rest
          (add_containers_keeps env Keeps arrival-Keeps (λ u b k. k) cs time mode semantics t h)

  -- A `commitContainerReservation` that answered with the state committed gives the same answer when
  -- it is sent again, and changes nothing, whatever reservations, commits, releases, pickups,
  -- arrivals and updates of the dynamics came between.
  pub commit_reservation-again :
      (reservation_id : Text) (time later : T) (t u : Terminal C S T) (a : Response C)
      → (commit_reservation env reservation_id time t).1 ≡ ok a
      → a.status ≡ Status.committed
      → Goes (commit_reservation env reservation_id time t).0 u
      → commit_reservation env reservation_id later u ≡ (u, ok a)
  unfolding commit_reservation
  commit_reservation-again reservation_id time later t u a h said run =
      elim (Bool-cases (is_empty (env.trimmed reservation_id))) [
        | inl none_given ↦ let failed = rw none_given at h in cc (failed)
        | inr given ↦
            let kept = commit-kept (env.trimmed reservation_id) time t a (rw given at h) said in
            rw given (
              commit_kept (env.trimmed reservation_id) later u a
                (Goes-Keeps (env.trimmed reservation_id) a _ u (rw given at run) kept))
      ]
