-- ===== src/Terminal/Arrivals/Keeps.antt =====
-- What one arrival and a new record keep, `addContainer` and `addContainers` keep.
use terminal_sim.Prelude.{Bool, Option-cases, inl, inr, List, [], ◌∷◌, Text, length, if_elim}
use terminal_sim.Reply.{Reply-cases}
use terminal_sim.Common.{Mode}
use terminal_sim.Real.{Real}
use terminal_sim.Terminal.{Batch, Env, Reply, Semantics, Terminal}
use terminal_sim.Terminal.Batches.{extract_handling_metadata, grouping_key}
use terminal_sim.Terminal.Pickup.{Group, add_to_group}
use terminal_sim.Terminal.Capacity.{check_capacity_status}
use terminal_sim.Terminal.Arrivals.{
  Draws, add_container, add_containers, arrive_each, effective_semantics, handle_arrival,
  is_runtime, record_arrivals,
}

module _ {C S F T : Type 0} (env : Env C S F T) ⦃r : Real T⦄ (P : Terminal C S T → Type 0)
    (arrival : (d : Draws T) (c : C) (time : T) (mode : Mode) (runtime : Bool) (t : Terminal C S T)
      → P t
      → P (handle_arrival env d c time mode runtime t).0)
    (noted : (t : Terminal C S T) (b : List (Text × List (Batch T)))
      → P t
      → P (record t { batches = b })) where
  arrive_each_keeps :
      (time : T) (mode : Mode) (runtime : Bool) (cs : List (Draws T × C))
      (groups : List (Text × Group T)) (t : Terminal C S T)
      → P t
      → P (arrive_each env time mode runtime cs groups t).0
  unfolding arrive_each
  arrive_each_keeps time mode runtime [] groups t h = h
  arrive_each_keeps time mode runtime ((d, c) ∷ cs) groups t h =
      let next = arrival d c time mode runtime t h in
      elim (Option-cases (extract_handling_metadata env t c mode)) [
        | inl bad ↦ rw (bad, arrive_each) h
        | inr (m, good) ↦ elim (Reply-cases (handle_arrival env d c time mode runtime t).1) [
          | inr (f, fails) ↦ rw (good, fails, arrive_each) next
          | inl (o, done) ↦
              rw (good, done, arrive_each)
                (arrive_each_keeps time mode runtime cs
                  (add_to_group env (grouping_key env m) m o groups)
                  (handle_arrival env d c time mode runtime t).0 next)
        ]
      ]

  recorded_keeps :
      (runtime : Bool) (groups : List (Text × Group T)) (t u : Terminal C S T)
      → P u
      → P (record_arrivals env runtime groups t u)
  unfolding record_arrivals
  recorded_keeps runtime groups t u h = if_elim P runtime (λ _. noted u _ h) (λ _. h)

  pub add_containers_keeps :
      (cs : List (Draws T × C)) (time : T) (mode : Mode) (semantics : Semantics)
      (t : Terminal C S T)
      → P t
      → P (add_containers env cs time mode semantics t).0
  unfolding add_containers
  add_containers_keeps cs time mode semantics t h =
      let runtime = is_runtime (effective_semantics time semantics) in
      let all = arrive_each_keeps time mode runtime cs [] t h in
      if_elim (λ (x : Terminal C S T × Reply (Unit {0})). P x.0)
        (check_capacity_status env (length cs) t).0
        (λ _. elim (Reply-cases (arrive_each env time mode runtime cs [] t).1) [
          | inr (f, fails) ↦ rw fails all
          | inl (groups, done) ↦ rw done (recorded_keeps runtime groups t _ all)
        ])
        (λ _. h)

  pub add_container_keeps :
      (d : Draws T) (c : C) (time : T) (mode : Mode) (semantics : Semantics) (t : Terminal C S T)
      → P t
      → P (add_container env d c time mode semantics t).0
  unfolding add_container
  add_container_keeps d c time mode semantics t h =
      let runtime = is_runtime (effective_semantics time semantics) in
      let next = arrival d c time mode runtime t h in
      elim (Option-cases (extract_handling_metadata env t c mode)) [
        | inl bad ↦ rw (bad, add_container) h
        | inr (m, good) ↦ elim (Reply-cases (handle_arrival env d c time mode runtime t).1) [
          | inr (f, fails) ↦ rw (good, fails, add_container) next
          | inl (o, done) ↦ rw (good, done, add_container) (recorded_keeps runtime _ t _ next)
        ]
      ]
