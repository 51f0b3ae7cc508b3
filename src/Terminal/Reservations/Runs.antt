-- ===== src/Terminal/Reservations/Runs.antt =====
-- The steps and runs of a terminal and the predicate `Consistent`.
use terminal_sim.Prelude.{
  ℕ, ◌≡◌, ◌∙◌, refl, Bool, true, false, some, List, Text, text_eq, arith, Option-cases, if_elim,
  inl, inr, length,
}
use terminal_sim.Prelude.Maps
use terminal_sim.Prelude.Sets
use terminal_sim.Real.{Real}
use terminal_sim.Common.{Mode}
use terminal_sim.Terminal.{Handling}
use terminal_sim.Terminal.Capacity.{check_capacity_status}
use terminal_sim.Terminal.Arrivals.{Draws, handle_arrival}
use terminal_sim.Terminal.Arrivals.Keeps.{add_container_keeps, add_containers_keeps}
use terminal_sim.Terminal.Reservations.Steps.{arrives, all_arrive}
use terminal_sim.Terminal.{Env, Reservation, Response, Reply, Terminal, EventType}
use terminal_sim.Terminal.Dynamics.{update_system_dynamics, reset_runtime_state}
use terminal_sim.Terminal.Batches.{is_empty}
use terminal_sim.Terminal.Pickup.{
  dequeue_containers, depart, exhausted, remove_and_record, select_container_ids, within_capacity,
}
use terminal_sim.Terminal.Pickup.Removed.{remove_and_record-Touches}
use terminal_sim.Terminal.Reservations.{
  drop, ids_held, release_reservation, reserve_containers, commit, commit_reservation, complete,
}
use terminal_sim.Terminal.Reservations.Consistent.{
  Consistent, holds, claims, refit-Consistent, drop-Consistent,
}
use terminal_sim.Terminal.Dynamics.Updated.{update_system_dynamics-dynamics}
use terminal_sim.Terminal.Reservations.Steps.{
  Service, Step, Run, reserves, commits, releases, dequeues, serves, updates, resets, stays, goes,
}
use terminal_sim.Terminal.Reservations.Kept.{
  release-Consistent, complete-Consistent, reserve-Consistent,
}

module _ {C S F T : Type 0} (env : Env C S F T) ⦃r : Real T⦄ where
  -- What a removal leaves, of a terminal that is consistent but for fields that play no part.
  removed-Consistent :
      (ids : List Text) (type : EventType) (time : T) (n : ℕ) (t : Terminal C S T)
      → Consistent t
      → Consistent (remove_and_record env ids type time (depart env n t)).0
  removed-Consistent ids type time n t k =
      let (s, b, same) = remove_and_record-Touches env ids type time (depart env n t) in
      rw same (
        if_elim (λ u. Consistent (record u { storage = s; batches = b })) t.params.enabled
          (λ _. refit-Consistent t s b _ k) (λ _. refit-Consistent t s b t.dynamics k))

  Left : Text → Terminal C S T → Type 0
  Left rid u =
      Consistent u × (Maps.has rid u.reservations ≡ false) × (Sets.contains rid u.released ≡ false)

  dropped-Left :
      (rid : Text) (t : Terminal C S T) (x : Reservation C)
      → Maps.lookup rid t.reservations ≡ some x
      → Consistent t
      → Left rid (drop rid x.container_ids t)
  unfolding Left drop ids_held
  dropped-Left rid t x found k =
      let d = drop-Consistent rid t k in
      (
        rw (found, ids_held) at d,
        Maps.has-remove rid rid t.reservations ∙ ground (arith, text_eq.same_iff rid rid),
        ground (arith, k.not_released rid, Maps.has-lookup rid t.reservations, found),
      )

  removed-Left :
      (rid : Text) (ids : List Text) (type : EventType) (time : T) (n : ℕ) (t : Terminal C S T)
      → Left rid t
      → Left rid (remove_and_record env ids type time (depart env n t)).0
  unfolding Left
  removed-Left rid ids type time n t (k, gone, kept) =
      let (s, b, same) = remove_and_record-Touches env ids type time (depart env n t) in
      (
        removed-Consistent ids type time n t k,
        rw same (
            if_elim (λ (u : Terminal C S T). Maps.has rid u.reservations ≡ false) t.params.enabled
              (λ _. gone) (λ _. gone)),
        rw same (
            if_elim (λ (u : Terminal C S T). Sets.contains rid u.released ≡ false) t.params.enabled
              (λ _. kept) (λ _. kept)),
      )

  commit_found :
      (rid : Text) (time : T) (t : Terminal C S T) (x : Reservation C)
      → Maps.lookup rid t.reservations ≡ some x
      → Consistent t
      → Consistent
          (complete rid (
            remove_and_record env x.container_ids EventType.pickup_departure time
              (depart env (length x.container_ids) (drop rid x.container_ids t)))).0
  unfolding Left
  commit_found rid time t x found k =
      let (c, gone, kept) =
        removed-Left rid x.container_ids EventType.pickup_departure time (length x.container_ids)
          (drop rid x.container_ids t) (dropped-Left rid t x found k) in
      complete-Consistent rid
        (remove_and_record env x.container_ids EventType.pickup_departure time
          (depart env (length x.container_ids) (drop rid x.container_ids t)))
        c gone kept

  commit-Consistent :
      (rid : Text) (time : T) (t : Terminal C S T)
      → Consistent t
      → Consistent (commit env rid time t).0
  unfolding commit
  commit-Consistent rid time t k = elim (Option-cases (Maps.lookup rid t.completed)) [
    | inr (response, h) ↦ rw (h, commit) k
    | inl h ↦ elim (Option-cases (Maps.lookup rid t.reservations)) [
      | inl none_active ↦
          rw (h, none_active, commit)
            (if_elim (λ (x : Terminal C S T × Reply (Response C)). Consistent x.0)
              (Sets.contains rid t.released) (λ _. k) (λ _. k))
      | inr (x, found) ↦ rw (h, found, commit) (commit_found rid time t x found k)
    ]
  ]

  Service-Consistent : (t u : Terminal C S T) → Service env t u → Consistent t → Consistent u
  unfolding reserve_containers commit_reservation release_reservation dequeue_containers
      Sets.contains
  Service-Consistent _ _ (reserves rid criteria t) k =
      if_elim (λ (x : Terminal C S T × Reply (Response C)). Consistent x.0)
        (is_empty (env.trimmed rid)) (λ _. k)
        (λ _. reserve-Consistent env (env.trimmed rid) criteria t k)
  Service-Consistent _ _ (commits rid time t) k =
      if_elim (λ (x : Terminal C S T × Reply (Response C)). Consistent x.0)
        (is_empty (env.trimmed rid)) (λ _. k) (λ _. commit-Consistent (env.trimmed rid) time t k)
  Service-Consistent _ _ (releases rid t) k =
      if_elim (λ (x : Terminal C S T × Reply (Response C)). Consistent x.0)
        (is_empty (env.trimmed rid)) (λ _. k) (λ _. release-Consistent (env.trimmed rid) t k)
  Service-Consistent _ _ (dequeues criteria time t) k =
      let ids = select_container_ids env t (within_capacity env t criteria) true in
      if_elim (λ (x : Terminal C S T × Reply (List C)). Consistent x.0) (exhausted env t) (λ _. k)
        (λ _. removed-Consistent ids EventType.pickup_departure time (length ids) t k)

  reset-Consistent :
      (clear_records : Bool) (t : Terminal C S T)
      → Consistent (reset_runtime_state env clear_records t).0
  unfolding reset_runtime_state holds claims ids_held Maps.has Maps.lookup Sets.contains
  reset-Consistent clear_records t = record {
    agree = λ rid c. refl;
    not_completed = λ rid m. refl;
    not_released = λ rid m. refl;
    never_both = λ rid m. refl;
  }

  update-Consistent :
      (now step : T) (t : Terminal C S T)
      → Consistent t
      → Consistent (update_system_dynamics env now step t).0
  update-Consistent now step t k =
      let (d, same) = update_system_dynamics-dynamics env now step t in
      rw same (refit-Consistent t t.storage t.batches d k)

  handle_arrival-Consistent :
      (d : Draws T) (c : C) (time : T) (mode : Mode) (runtime : Bool) (t : Terminal C S T)
      → Consistent t
      → Consistent (handle_arrival env d c time mode runtime t).0
  unfolding handle_arrival
  handle_arrival-Consistent d c time mode runtime t k =
      if_elim (λ (x : Terminal C S T × Reply (Handling T)). Consistent x.0)
        (check_capacity_status env 1 t).0 (λ _. refit-Consistent t _ t.batches _ k) (λ _. k)

  pub Step-Consistent : (t u : Terminal C S T) → Step env t u → Consistent t → Consistent u
  Step-Consistent _ _ (serves t u s) k = Service-Consistent t u s k
  Step-Consistent _ _ (updates now step t) k = update-Consistent now step t k
  Step-Consistent _ _ (resets clear_records t) k = reset-Consistent clear_records t
  Step-Consistent _ _ (arrives d c time mode semantics t) k =
      add_container_keeps env Consistent handle_arrival-Consistent
        (λ u b h. refit-Consistent u u.storage b u.dynamics h) d c time mode semantics t k
  Step-Consistent _ _ (all_arrive cs time mode semantics t) k =
      add_containers_keeps env Consistent handle_arrival-Consistent
        (λ u b h. refit-Consistent u u.storage b u.dynamics h) cs time mode semantics t k

  -- From a consistent terminal, every run of `reserveContainers`, `commitContainerReservation`,
  -- `releaseContainerReservation`, `dequeueContainers`, `addContainer`, `addContainers`,
  -- `updateSystemDynamics`, `clear` and `resetRuntimeState`, failed calls included, leads to a consistent one: the map of reserved
  -- containers gives a container to a reservation exactly when the reservation is active and lists
  -- it, and no reservation is in two of the states active, completed and released.
  pub Run-Consistent : (t u : Terminal C S T) → Run env t u → Consistent t → Consistent u
  Run-Consistent _ _ (stays t) k = k
  Run-Consistent _ _ (goes t u v s rest) k = Run-Consistent u v rest (Step-Consistent t u s k)
