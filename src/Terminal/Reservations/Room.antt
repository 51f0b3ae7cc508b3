-- ===== src/Terminal/Reservations/Room.antt =====
-- The operations of a terminal and its capacity.
use terminal_sim.Prelude.{
  ap, ℕ, ◌≤◌, ◌≡◌, refl, subst, true, false, none, some, List, [], ◌∷◌, Text, text_eq, arith,
  Option-cases, if_elim, inl, inr, length, nat_eq,
}
use terminal_sim.Prelude.Maps
use terminal_sim.Prelude.Sets
use terminal_sim.Prelude.Int.{is_nat, to_nat}
use terminal_sim.Real.{Real}
use terminal_sim.Common.{Mode}
use terminal_sim.Terminal.{Criteria, Env, EventType, Reply, Response, Terminal, ok, throws}
use terminal_sim.Terminal.Arrivals.Keeps.{add_container_keeps, add_containers_keeps}
use terminal_sim.Terminal.Arrivals.Room.{AddsAtMostOne, WithinLimit, handle_arrival-WithinLimit}
use terminal_sim.Terminal.Batches.{extract_handling_metadata, is_empty}
use terminal_sim.Terminal.Dynamics.{int_max, reset_runtime_state}
use terminal_sim.Terminal.Dynamics.Updated.{update_system_dynamics-dynamics}
use terminal_sim.Terminal.Pickup.{
  Removal, dequeue_containers, depart, exhausted, remove_and_record, remove_each,
  select_container_ids, take_one, within_capacity,
}
use terminal_sim.Terminal.Reservations.{
  activate, active_response, commit, commit_reservation, complete, drop, release,
  release_reservation, reserve, reserve_containers, reserve_new,
}
use terminal_sim.Terminal.Reservations.Steps.{
  Service, Step, all_arrive, arrives, commits, dequeues, releases, reserves, resets, serves,
  updates,
}

-- The store holds nothing after it was cleared, and no more after a removal.
pub record Removes {C S F T : Type 0} (env : Env C S F T) : Type 0 where
  pub emptied : (s : S) → env.size (env.emptied s) ≡ 0
  pub erased : (id : Text) (s : S) → env.size (env.erase id s) ≤ env.size s

module _ {C S F T : Type 0} (env : Env C S F T) ⦃r : Real T⦄ (store : Removes env) where
  -- A terminal with the capacity of another holds no more than it.
  abbrev NoMore : Terminal C S T → Terminal C S T → Type 0
  NoMore t u = (env.size u.storage ≤ env.size t.storage) × (u.max_capacity ≡ t.max_capacity)

  fits : (t u : Terminal C S T) → NoMore t u → WithinLimit env t → WithinLimit env u
  fits t u (less, same) h limited =
      let before = h (subst (λ n. is_nat n int_max ≡ false) same limited) in
      omega (arith, ap to_nat same)

  remove_each-less :
      (t : Terminal C S T) (time : T) (x : Removal C S T) (ids : List Text)
      → env.size (remove_each env t time x ids).0.storage ≤ env.size x.storage
  unfolding remove_each take_one
  remove_each-less t time x [] = omega arith
  remove_each-less t time x (id ∷ ids) = elim (Option-cases (env.by_id x.storage id)) [
    | inl gone ↦ rw (gone, remove_each) (remove_each-less t time x ids)
    | inr (d, found) ↦ elim (Option-cases (extract_handling_metadata env t d Mode.any)) [
      | inl bad ↦ rw (found, bad, remove_each) (omega arith)
      | inr (m, good) ↦
          rw (found, good, remove_each)
            (omega (
              arith,
              remove_each-less t time (take_one env t time id d m x) ids,
              store.erased id x.storage,
            ))
    ]
  ]

  removed-NoMore :
      (ids : List Text) (type : EventType) (time : T) (t : Terminal C S T)
      → NoMore t (remove_and_record env ids type time t).0
  unfolding remove_and_record
  removed-NoMore ids type time t =
      let x : Removal C S T = record { storage = t.storage; taken = []; groups = [] } in
      let less = remove_each-less t time x ids in
      elim (Option-cases (remove_each env t time x ids).1) [
        | inl h ↦ rw (h, remove_and_record) (less, refl)
        | inr (f, h) ↦ rw (h, remove_and_record) (less, refl)
      ]

  left-NoMore :
      (ids : List Text) (type : EventType) (time : T) (n : ℕ) (t : Terminal C S T)
      → NoMore t (remove_and_record env ids type time (depart env n t)).0
  left-NoMore ids type time n t =
      let (less, same) = removed-NoMore ids type time (depart env n t) in
      if_elim
        (λ (u : Terminal C S T).
          NoMore u (remove_and_record env ids type time (depart env n t)).0
          → NoMore t (remove_and_record env ids type time (depart env n t)).0)
        t.params.enabled (λ _ h. h) (λ _ h. h) (less, same)

  complete-NoMore :
      (rid : Text) (t : Terminal C S T) (x : Terminal C S T × Reply (List C))
      → NoMore t x.0
      → NoMore t (complete rid x).0
  unfolding complete
  complete-NoMore rid t (u, throws f) h = h
  complete-NoMore rid t (u, ok cs) h = h

  commit-NoMore : (rid : Text) (time : T) (t : Terminal C S T) → NoMore t (commit env rid time t).0
  unfolding commit drop
  commit-NoMore rid time t = elim (Option-cases (Maps.lookup rid t.completed)) [
    | inr (response, m) ↦ rw (m, commit) (omega arith, refl)
    | inl m ↦ elim (Option-cases (Maps.lookup rid t.reservations)) [
      | inl none_active ↦
          rw (m, none_active, commit)
            (if_elim (λ (x : Terminal C S T × Reply (Response C)). NoMore t x.0)
              (Sets.contains rid t.released) (λ _. (omega arith, refl)) (λ _. (omega arith, refl)))
      | inr (x, found) ↦
          rw (m, found, commit)
            (complete-NoMore rid t _ (
              left-NoMore x.container_ids EventType.pickup_departure time (length x.container_ids)
                (drop rid x.container_ids t)))
    ]
  ]

  release-NoMore : (rid : Text) (t : Terminal C S T) → NoMore t (release rid t).0
  unfolding release drop
  release-NoMore rid t = elim (Option-cases (Maps.lookup rid t.completed)) [
    | inr (response, m) ↦ rw (m, release) (omega arith, refl)
    | inl m ↦ rw (m, release) (omega arith, refl)
  ]

  reserve_new-NoMore :
      (rid : Text) (criteria : Criteria F) (t : Terminal C S T)
      → NoMore t (reserve_new env rid criteria t).0
  unfolding reserve_new activate
  reserve_new-NoMore rid criteria t =
      if_elim (λ (x : Terminal C S T × Reply (Response C)). NoMore t x.0) (exhausted env t)
        (λ _. (omega arith, refl)) (λ _. (omega arith, refl))

  reserve-NoMore :
      (rid : Text) (criteria : Criteria F) (t : Terminal C S T)
      → NoMore t (reserve env rid criteria t).0
  unfolding reserve
  reserve-NoMore rid criteria t = elim (Option-cases (Maps.lookup rid t.completed)) [
    | inr (response, m) ↦ rw (m, reserve) (omega arith, refl)
    | inl m ↦
        rw (m, reserve)
          (if_elim (λ (x : Terminal C S T × Reply (Response C)). NoMore t x.0)
            (Sets.contains rid t.released) (λ _. (omega arith, refl))
            (λ _.
              elim (Option-cases (Maps.lookup rid t.reservations))
                as (λ _.
                  NoMore t
                    (elim (Maps.lookup rid t.reservations)
                      as (λ _. Terminal C S T × Reply (Response C)) [
                        | some reservation ↦ (t, ok (active_response rid reservation))
                        | none ↦ reserve_new env rid criteria t
                      ]).0) [
                        | inr (x, old) ↦ rw old (omega arith, refl)
                        | inl new ↦ rw new (reserve_new-NoMore rid criteria t)
                      ]))
  ]

  Service-NoMore : (t u : Terminal C S T) → Service env t u → NoMore t u
  unfolding reserve_containers commit_reservation release_reservation dequeue_containers
  Service-NoMore _ _ (reserves rid criteria t) =
      if_elim (λ (x : Terminal C S T × Reply (Response C)). NoMore t x.0)
        (is_empty (env.trimmed rid)) (λ _. (omega arith, refl))
        (λ _. reserve-NoMore (env.trimmed rid) criteria t)
  Service-NoMore _ _ (commits rid time t) =
      if_elim (λ (x : Terminal C S T × Reply (Response C)). NoMore t x.0)
        (is_empty (env.trimmed rid)) (λ _. (omega arith, refl))
        (λ _. commit-NoMore (env.trimmed rid) time t)
  Service-NoMore _ _ (releases rid t) =
      if_elim (λ (x : Terminal C S T × Reply (Response C)). NoMore t x.0)
        (is_empty (env.trimmed rid)) (λ _. (omega arith, refl))
        (λ _. release-NoMore (env.trimmed rid) t)
  Service-NoMore _ _ (dequeues criteria time t) =
      let ids = select_container_ids env t (within_capacity env t criteria) true in
      if_elim (λ (x : Terminal C S T × Reply (List C)). NoMore t x.0) (exhausted env t)
        (λ _. (omega arith, refl))
        (λ _. left-NoMore ids EventType.pickup_departure time (length ids) t)

  -- Each step keeps a terminal within its capacity.
  pub Step-WithinLimit :
      (t u : Terminal C S T)
      → AddsAtMostOne env
      → Step env t u
      → WithinLimit env t
      → WithinLimit env u
  unfolding reset_runtime_state
  Step-WithinLimit _ _ one (serves t u s) h = fits t u (Service-NoMore t u s) h
  Step-WithinLimit _ _ one (updates now step t) h =
      let (d, same) = update_system_dynamics-dynamics env now step t in rw same h
  Step-WithinLimit _ _ one (resets clear_records t) h =
      λ limited. omega (arith, store.emptied t.storage)
  Step-WithinLimit _ _ one (arrives d c time mode semantics t) h =
      add_container_keeps env (WithinLimit env)
        (λ d c at by runtime u. handle_arrival-WithinLimit env d c at by runtime u one) (λ u b k. k)
        d c time mode semantics t h
  Step-WithinLimit _ _ one (all_arrive cs time mode semantics t) h =
      add_containers_keeps env (WithinLimit env)
        (λ d c at by runtime u. handle_arrival-WithinLimit env d c at by runtime u one) (λ u b k. k)
        cs time mode semantics t h
