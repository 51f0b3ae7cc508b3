-- ===== src/Terminal/Reservations/Spending.antt =====
-- The operations of one time step and its service capacity.
use terminal_sim.Prelude.{
  ℕ, ◌+◌, ◌≤◌, ◌≡◌, refl, true, none, some, List, Text, text_eq, arith, Option-cases, if_elim, inl,
  inr, length,
}
use terminal_sim.Prelude.Maps
use terminal_sim.Prelude.Sets
use terminal_sim.Real.{Real}
use terminal_sim.Terminal.{
  Env, Reservation, Response, Reply, Terminal, Criteria, EventType, ok, throws,
}
use terminal_sim.Terminal.Batches.{is_empty}
use terminal_sim.Terminal.Pickup.{
  dequeue_containers, depart, exhausted, remove_and_record, select_container_ids, within_capacity,
}
use terminal_sim.Terminal.Reservations.{
  drop, ids_held, release, release_reservation, reserve, reserve_new, reserve_containers, commit,
  commit_reservation, complete, active_response,
}
use terminal_sim.Terminal.Reservations.Consistent.{Consistent}
use terminal_sim.Terminal.Reservations.Steps.{Service, reserves, commits, releases, dequeues}
use terminal_sim.Terminal.Reservations.Budget.{
  drop-length, drop-Budget, ListsOnce, selected_fits, removed-Budget, reserve_new-Budget, Budget,
}

module _ {C S T : Type 0} where
  complete-Budget :
      (b : ℕ) (rid : Text) (x : Terminal C S T × Reply (List C))
      → Budget b x.0
      → Budget b (complete rid x).0
  unfolding complete ids_held
  complete-Budget b rid (t, throws f) h = h
  complete-Budget b rid (t, ok cs) h = record {
    enabled = h.enabled;
    capacity = h.capacity;
    spent = h.spent;
    tidy = h.tidy;
  }

  release-Budget :
      (b : ℕ) (rid : Text) (t : Terminal C S T) → Budget b t → Budget b (release rid t).0
  unfolding release ids_held drop
  release-Budget b rid t h = elim (Option-cases (Maps.lookup rid t.completed)) [
    | inr (response, k) ↦ rw (k, release) h
    | inl k ↦
        let d = drop-Budget b rid (ids_held rid t) t h in
        rw (k, release)
          (record { enabled = d.enabled; capacity = d.capacity; spent = d.spent; tidy = d.tidy })
  ]

module _ {C S T : Type 0} where
  ids_held_found :
      (rid : Text) (t : Terminal C S T) (x : Reservation C)
      → Maps.lookup rid t.reservations ≡ some x
      → ids_held rid t ≡ x.container_ids
  unfolding ids_held
  ids_held_found rid t x found = rw (found, ids_held) refl

  spent-drop :
      (b : ℕ) (rid : Text) (ids : List Text) (t : Terminal C S T)
      → Budget b t
      → length (drop rid ids t).reserved_ids + length ids ≤ length t.reserved_ids
      → (drop rid ids t).dynamics.departures_this_step
          + length (drop rid ids t).reserved_ids
          + length ids
        ≤ b
  unfolding drop
  spent-drop b rid ids t h le = ground (arith, le, h.spent)

module _ {C S F T : Type 0} (env : Env C S F T) ⦃r : Real T⦄ where
  reserve-Budget :
      (b : ℕ) (rid : Text) (criteria : Criteria F) (t : Terminal C S T)
      → ListsOnce env
      → Budget b t
      → Budget b (reserve env rid criteria t).0
  unfolding reserve
  reserve-Budget b rid criteria t once h = elim (Option-cases (Maps.lookup rid t.completed)) [
    | inr (response, k) ↦ rw (k, reserve) h
    | inl k ↦
        rw (k, reserve)
          (if_elim (λ (x : Terminal C S T × Reply (Response C)). Budget b x.0)
            (Sets.contains rid t.released) (λ _. h)
            (λ _.
              elim (Option-cases (Maps.lookup rid t.reservations))
                as (λ _.
                  Budget b
                    (elim (Maps.lookup rid t.reservations)
                      as (λ _. Terminal C S T × Reply (Response C)) [
                        | some reservation ↦ (t, ok (active_response rid reservation))
                        | none ↦ reserve_new env rid criteria t
                      ]).0) [
                        | inr (x, old) ↦ rw old h
                        | inl new ↦ rw new (reserve_new-Budget env b rid criteria t once h)
                      ]))
  ]

  commit_found-Budget :
      (b : ℕ) (rid : Text) (time : T) (t : Terminal C S T) (x : Reservation C)
      → Maps.lookup rid t.reservations ≡ some x
      → Consistent t
      → Budget b t
      → Budget b
          (complete rid (
            remove_and_record env x.container_ids EventType.pickup_departure time
              (depart env (length x.container_ids) (drop rid x.container_ids t)))).0
  commit_found-Budget b rid time t x found k h = complete-Budget b rid _ (
      removed-Budget env b x.container_ids EventType.pickup_departure time (length x.container_ids)
        (drop rid x.container_ids t) (drop-Budget b rid x.container_ids t h)
        (spent-drop b rid x.container_ids t h
          (rw (ids_held_found rid t x found) at (drop-length b rid t k h))))

  commit-Budget :
      (b : ℕ) (rid : Text) (time : T) (t : Terminal C S T)
      → Consistent t
      → Budget b t
      → Budget b (commit env rid time t).0
  unfolding commit
  commit-Budget b rid time t k h = elim (Option-cases (Maps.lookup rid t.completed)) [
    | inr (response, m) ↦ rw (m, commit) h
    | inl m ↦ elim (Option-cases (Maps.lookup rid t.reservations)) [
      | inl none_active ↦
          rw (m, none_active, commit)
            (if_elim (λ (x : Terminal C S T × Reply (Response C)). Budget b x.0)
              (Sets.contains rid t.released) (λ _. h) (λ _. h))
      | inr (x, found) ↦ rw (m, found, commit) (commit_found-Budget b rid time t x found k h)
    ]
  ]

  -- With the dynamics enabled, in a step that may serve `b` containers, each of `reserveContainers`,
  -- `commitContainerReservation`, `releaseContainerReservation` and `dequeueContainers` keeps the
  -- containers that departed in the step and those that are reserved together at most `b`, and
  -- lists no container twice in a reservation. The terminal is to be consistent before, and
  -- `getContainers` to list no container twice.
  pub Service-Budget :
      (b : ℕ) (t u : Terminal C S T)
      → ListsOnce env
      → Service env t u
      → Consistent t
      → Budget b t
      → Budget b u
  unfolding reserve_containers commit_reservation release_reservation dequeue_containers
  Service-Budget b _ _ once (reserves rid criteria t) k h =
      if_elim (λ (x : Terminal C S T × Reply (Response C)). Budget b x.0)
        (is_empty (env.trimmed rid)) (λ _. h)
        (λ _. reserve-Budget b (env.trimmed rid) criteria t once h)
  Service-Budget b _ _ once (commits rid time t) k h =
      if_elim (λ (x : Terminal C S T × Reply (Response C)). Budget b x.0)
        (is_empty (env.trimmed rid)) (λ _. h) (λ _. commit-Budget b (env.trimmed rid) time t k h)
  Service-Budget b _ _ once (releases rid t) k h =
      if_elim (λ (x : Terminal C S T × Reply (Response C)). Budget b x.0)
        (is_empty (env.trimmed rid)) (λ _. h) (λ _. release-Budget b (env.trimmed rid) t h)
  Service-Budget b _ _ once (dequeues criteria time t) k h =
      let ids = select_container_ids env t (within_capacity env t criteria) true in
      if_elim (λ (x : Terminal C S T × Reply (List C)). Budget b x.0) (exhausted env t) (λ _. h)
        (λ open_.
          removed-Budget env b ids EventType.pickup_departure time (length ids) t h
            (selected_fits env b criteria t h open_))
