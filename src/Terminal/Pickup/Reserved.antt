-- ===== src/Terminal/Pickup/Reserved.antt =====
-- Pickups and reserved containers.
use terminal_sim.Prelude.{
  ◌≡◌, refl, ◌∙◌, true, false, List, [], length, Text, text_eq, arith, if_elim, Bool-cases, inl,
  inr,
}
use terminal_sim.Prelude.Maps
use terminal_sim.Prelude.Sets
use terminal_sim.Real.{Real}
use terminal_sim.Terminal.{Criteria, Env, EventType, Reply, Terminal}
use terminal_sim.Terminal.Pickup.{
  dequeue_containers, depart, exhausted, remove_and_record, remove_each, select_container_ids,
  within_capacity,
}
use terminal_sim.Terminal.Pickup.Selection.{select_from-unreserved}
use terminal_sim.Terminal.Pickup.Removed.{ErasesOne, remove_each-kept}
use terminal_sim.Prelude.{Option-cases}

module _ {C S F T : Type 0} (env : Env C S F T) ⦃r : Real T⦄ where
  removed-kept :
      (ids : List Text) (type : EventType) (time : T) (t : Terminal C S T) (c : Text)
      → ErasesOne env
      → Sets.contains c ids ≡ false
      → env.by_id (remove_and_record env ids type time t).0.storage c ≡ env.by_id t.storage c
  unfolding remove_and_record
  removed-kept ids type time t c one h =
      elim (Option-cases
        (remove_each env t time (record { storage = t.storage; taken = []; groups = [] }) ids).1) [
          | inl good ↦
              rw (good, remove_and_record)
                (remove_each-kept env t time c one
                  (record { storage = t.storage; taken = []; groups = [] }) ids h)
          | inr (f, bad) ↦
              rw (bad, remove_and_record)
                (remove_each-kept env t time c one
                  (record { storage = t.storage; taken = []; groups = [] }) ids h)
        ]

  unselected :
      (criteria : Criteria F) (t : Terminal C S T) (c : Text)
      → Maps.has c t.reserved_ids ≡ true
      → Sets.contains c (select_container_ids env t criteria true) ≡ false
  unfolding select_container_ids Sets.contains
  unselected criteria t c h =
      elim (Bool-cases (Sets.contains c (select_container_ids env t criteria true))) [
        | inl m ↦
            let free =
              select_from-unreserved env t.reserved_ids criteria.limit []
                (env.matching t.storage criteria.filter) c m refl in
            ground (arith, free, h)
        | inr out ↦ out
      ]

  -- `dequeueContainers` leaves every reserved container in the store, also when it fails, if
  -- removing a container by its id removes no other.
  pub dequeue_containers-reserved :
      (criteria : Criteria F) (time : T) (t : Terminal C S T) (c : Text)
      → ErasesOne env
      → Maps.has c t.reserved_ids ≡ true
      → env.by_id (dequeue_containers env criteria time t).0.storage c ≡ env.by_id t.storage c
  unfolding dequeue_containers
  dequeue_containers-reserved criteria time t c one h =
      let ids = select_container_ids env t (within_capacity env t criteria) true in
      if_elim
        (λ (x : Terminal C S T × Reply (List C)). env.by_id x.0.storage c ≡ env.by_id t.storage c)
        (exhausted env t) (λ _. refl)
        (λ _.
          removed-kept ids EventType.pickup_departure time (depart env (length ids) t) c one
            (unselected (within_capacity env t criteria) t c h)
          ∙ if_elim (λ (u : Terminal C S T). env.by_id u.storage c ≡ env.by_id t.storage c)
              t.params.enabled (λ _. refl) (λ _. refl))
