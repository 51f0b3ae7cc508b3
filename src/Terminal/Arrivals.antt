-- ===== src/Terminal/Arrivals.antt =====
-- The arrival of containers in src/terminal/terminal.cpp: `handleContainerArrivalLocked`,
-- `addContainer` and `addContainers`. The random numbers that an arrival draws are its argument.
pub mod Keeps
pub mod Room
use terminal_sim.Prelude.{
  ℕ, suc, ◌+◌, Bool, true, false, not, ◌&&◌, ◌||◌, Option, none, some, List, [], ◌∷◌, length,
  if◌then◌else◌, Text, text_eq,
}
use terminal_sim.Common.{Mode}
use terminal_sim.Real.{Real}
use terminal_sim.Terminal.{
  Amount, Env, EventType, Failure, Handling, Metadata, Reply, Semantics, Terminal, ok, throws,
  infer, runtime_arrival, preload,
}
use terminal_sim.Terminal.Dynamics.{
  calculate_arrival_penalty, calculate_delay_multiplier, runtime_terminal_snapshot,
}
use terminal_sim.Terminal.Batches.{extract_handling_metadata, grouping_key, record_handling_batch}
use terminal_sim.Terminal.Pickup.{Group, add_to_group, record_groups}
use terminal_sim.Terminal.Capacity.{check_capacity_status, estimate_container_cost}

-- `getDepartureTime`, `generateDouble` and the value of the normal distribution.
pub record Draws (T : Type 0) : Type 0 where
  pub departure : T
  pub uniform : T
  pub delay : T

unfoldable pub is_runtime : Semantics → Bool
is_runtime runtime_arrival = true
is_runtime infer = false
is_runtime preload = false

module _ {T : Type 0} ⦃r : Real T⦄ where
  unfoldable pub effective_semantics : T → Semantics → Semantics
  effective_semantics time infer = if r.lt time (r.of_nat 0) then preload else runtime_arrival
  effective_semantics time runtime_arrival = runtime_arrival
  effective_semantics time preload = preload

module _ {C S F T : Type 0} (env : Env C S F T) ⦃r : Real T⦄ where
  unfoldable pub base_time : T → Bool → Terminal C S T → T
  base_time time runtime t =
      if r.le (r.of_nat 0) time
      then time
      else if runtime
      then t.dynamics.last_update_time
      else r.of_nat 0

  -- The time in the yard of a runtime arrival, with congestion.
  unfoldable pub yard_dwell : Draws T → T → Mode → Terminal C S T → T
  yard_dwell d base mode t =
      let dwell = if t.config.dwell_configured then r.sub d.departure base else r.of_nat 0 in
      let multiplier = calculate_delay_multiplier t.params t.dynamics.utilization mode in
      if t.params.enabled && r.lt (r.of_nat 1) multiplier then r.mul dwell multiplier else dwell

  unfoldable pub customs_inspected : Draws T → Terminal C S T → Bool
  customs_inspected d t =
      r.lt (r.of_nat 0) t.config.customs_probability
      && r.lt (r.of_nat 0) t.config.customs_delay_mean
      && r.lt d.uniform t.config.customs_probability

  unfoldable pub arrival_penalty : Mode → Terminal C S T → T
  arrival_penalty mode t =
      if t.params.enabled && r.lt t.params.critical_utilization t.dynamics.utilization
      then calculate_arrival_penalty t.params t.dynamics.utilization mode
      else r.of_nat 0

  abbrev delay_of : Draws T → T
  delay_of d = if r.lt (r.of_nat 0) d.delay then d.delay else r.of_nat 0

  unfoldable pub runtime_departure : Draws T → T → Mode → Terminal C S T → T
  runtime_departure d base mode t =
      let dwelt = r.add base (yard_dwell d base mode t) in
      let inspected = if customs_inspected d t then r.add dwelt (delay_of d) else dwelt in
      if r.lt (r.of_nat 0) (arrival_penalty mode t)
      then r.add inspected (arrival_penalty mode t)
      else inspected

  unfoldable pub arrival_outcome : Draws T → C → T → Mode → Bool → Terminal C S T → Handling T
  arrival_outcome d c time mode runtime t =
      let base = base_time time runtime t in
      let departs = if runtime then runtime_departure d base mode t else base in
      let inspected = runtime && customs_inspected d t in
      record {
        container = env.container_id c;
        adding_time = base;
        departure = departs;
        customs_applied = inspected;
        yard_dwell = if runtime then yard_dwell d base mode t else r.of_nat 0;
        customs_delay = if inspected then delay_of d else r.of_nat 0;
        arrival_penalty = if runtime then arrival_penalty mode t else r.of_nat 0;
        total = r.sub departs base;
        direct_cost = if runtime then estimate_container_cost env c inspected t else r.of_nat 0;
      }

  -- `amount` plus what the container carries already, kept where the code keeps it.
  unfoldable pub accumulate : Bool → Amount → T → C → C
  accumulate runtime kind amount c =
      let total = elim (env.number_variable c kind) as (λ _. T) [
        | none ↦ amount
        | some previous ↦ r.add amount previous
      ] in
      if runtime || not (r.same amount (r.of_nat 0)) then env.with_number c kind total else c

  abbrev stamped : Bool → Handling T → C → Terminal C S T → C
  stamped runtime o c t =
      env.located
        (accumulate runtime Amount.time o.total (accumulate runtime Amount.cost o.direct_cost c))
        t.name

  unfoldable pub handle_arrival :
      Draws T → C → T → Mode → Bool → Terminal C S T → Terminal C S T × Reply (Handling T)
  handle_arrival d c time mode runtime t =
      let o = arrival_outcome d c time mode runtime t in
      if (check_capacity_status env 1 t).0
      then (
        record t {
          storage =
              env.added (env.container_id c) (stamped runtime o c t) o.adding_time o.departure
                t.storage;
          dynamics =
              if t.params.enabled && runtime
              then record t.dynamics { arrivals_this_step = suc t.dynamics.arrivals_this_step }
              else t.dynamics;
        },
        ok o,
      )
      else (t, throws Failure.runtime_error)

  -- The records of an arrival, which a preload does not leave.
  unfoldable pub record_arrivals :
      Bool → List (Text × Group T) → Terminal C S T → Terminal C S T → Terminal C S T
  record_arrivals runtime groups before after =
      if runtime
      then record after {
        batches =
            record_groups env (runtime_terminal_snapshot env before)
              (runtime_terminal_snapshot env after) EventType.arrival_dropoff groups after.batches;
      }
      else after

  unfoldable pub add_container :
      Draws T → C → T → Mode → Semantics → Terminal C S T → Terminal C S T × Reply (Unit {0})
  add_container d c time mode semantics t =
      let runtime = is_runtime (effective_semantics time semantics) in
      let (u, answer) = handle_arrival d c time mode runtime t in
      elim (extract_handling_metadata env t c mode) as (λ _. Terminal C S T × Reply (Unit {0})) [
        | none ↦ (t, throws Failure.invalid_argument)
        | some m ↦ elim answer as (λ _. Terminal C S T × Reply (Unit {0})) [
          | throws f ↦ (u, throws f)
          | ok o ↦ (
            record_arrivals runtime
                ((grouping_key env m, record { metadata = m; outcomes = o ∷ [] }) ∷ []) t u,
            ok tt,
          )
        ]
      ]

  -- The loop of `addContainers`; the containers before a failing one stay in the store.
  unfoldable pub arrive_each :
      T
      → Mode
      → Bool
      → List (Draws T × C)
      → List (Text × Group T)
      → Terminal C S T
      → Terminal C S T × Reply (List (Text × Group T))
  arrive_each time mode runtime [] groups t = (t, ok groups)
  arrive_each time mode runtime ((d, c) ∷ cs) groups t =
      elim (extract_handling_metadata env t c mode)
        as (λ _. Terminal C S T × Reply (List (Text × Group T))) [
          | none ↦ (t, throws Failure.invalid_argument)
          | some m ↦
              elim (handle_arrival d c time mode runtime t).1
                as (λ _. Terminal C S T × Reply (List (Text × Group T))) [
                  | throws f ↦ ((handle_arrival d c time mode runtime t).0, throws f)
                  | ok o ↦
                      arrive_each time mode runtime cs
                        (add_to_group env (grouping_key env m) m o groups)
                        (handle_arrival d c time mode runtime t).0
                ]
        ]

  unfoldable pub add_containers :
      List (Draws T × C) → T → Mode → Semantics → Terminal C S T → Terminal C S T × Reply (Unit {0})
  add_containers cs time mode semantics t =
      let runtime = is_runtime (effective_semantics time semantics) in
      let (u, answer) = arrive_each time mode runtime cs [] t in
      if (check_capacity_status env (length cs) t).0
      then elim answer as (λ _. Terminal C S T × Reply (Unit {0})) [
        | throws f ↦ (u, throws f)
        | ok groups ↦ (record_arrivals runtime groups t u, ok tt)
      ]
      else (t, throws Failure.runtime_error)
