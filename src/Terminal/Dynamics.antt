-- ===== src/Terminal/Dynamics.antt =====
-- The system dynamics of src/terminal/terminal.cpp: congestion, delay and arrival penalty under a
-- utilization, and the budget of containers that a time step may serve.
pub mod Updated
use terminal_sim.Prelude.{
  ℕ, ◌-◌, Bool, true, not, ◌||◌, List, [], length, if◌then◌else◌, nat_eq, ◌==◌,
}
use terminal_sim.Common.{Mode, any, ship, truck, train}
use terminal_sim.Prelude.Int.{is_nat, to_nat}
use terminal_sim.Real.{Real}
use terminal_sim.Terminal.{
  DelayParams, DynamicsParams, DynamicsState, Env, Failure, Reply, Snapshot, Terminal, ok, throws,
}

abbrev pub int_max : ℕ
int_max = 2147483647

module _ {T : Type 0} ⦃r : Real T⦄ where
  unfoldable pub calculate_congestion : DynamicsParams T → T → T
  calculate_congestion p utilization =
      let congestion =
        r.pow
          (r.div (r.sub utilization p.critical_utilization)
            (r.sub (r.of_nat 1) p.critical_utilization))
          p.congestion_exponent in
      if r.le utilization p.critical_utilization
      then r.of_nat 0
      else if r.lt congestion (r.of_nat 1)
      then congestion
      else r.of_nat 1

  unfoldable pub calculate_service_capacity : DynamicsParams T → T → T
  calculate_service_capacity p congestion =
      r.div p.max_service_rate (r.add (r.of_nat 1) (r.mul p.congestion_sensitivity congestion))

  unfoldable pub delay_curve : DynamicsParams T → DelayParams T → T → T
  delay_curve p d utilization = r.add (r.of_nat 1) (
      r.mul d.alpha (
        r.pow
          (r.div (r.sub utilization p.critical_utilization)
            (r.sub (r.of_nat 1) p.critical_utilization))
          d.beta))

  unfoldable pub mode_delay : DynamicsParams T → T → Mode → T
  mode_delay p utilization ship = delay_curve p p.ship_delay utilization
  mode_delay p utilization truck = delay_curve p p.truck_delay utilization
  mode_delay p utilization train = delay_curve p p.train_delay utilization
  mode_delay p utilization any =
      r.add (r.of_nat 1) (r.mul p.delay_sensitivity (calculate_congestion p utilization))

  unfoldable pub calculate_delay_multiplier : DynamicsParams T → T → Mode → T
  calculate_delay_multiplier p utilization mode =
      if r.le utilization p.critical_utilization then r.of_nat 1 else mode_delay p utilization mode

  unfoldable pub mode_penalty : DynamicsParams T → T → Mode → T
  mode_penalty p utilization ship =
      r.mul p.ship_arrival_penalty (calculate_congestion p utilization)
  mode_penalty p utilization truck =
      r.mul p.truck_arrival_penalty (calculate_congestion p utilization)
  mode_penalty p utilization train =
      r.mul p.train_arrival_penalty (calculate_congestion p utilization)
  mode_penalty p utilization any = r.of_nat 0

  unfoldable pub calculate_arrival_penalty : DynamicsParams T → T → Mode → T
  calculate_arrival_penalty p utilization mode =
      if r.le utilization p.critical_utilization
      then r.of_nat 0
      else mode_penalty p utilization mode

  -- What a time step may serve: the rate over its hours, with what the last step left over.
  unfoldable pub raw_capacity : DynamicsState T → T
  raw_capacity s =
      r.add (r.mul s.service_capacity (r.div s.delta_t (r.of_nat 3600)))
        s.service_capacity_carryover

  unfoldable pub refresh_service_capacity_budget :
      DynamicsParams T → DynamicsState T → DynamicsState T × Reply (Unit {0})
  unfolding raw_capacity
  refresh_service_capacity_budget p s =
      let whole = r.floor (raw_capacity s) in
      if not p.enabled
      then (
        record s { service_capacity_this_step = int_max; service_capacity_carryover = r.of_nat 0 },
        ok tt,
      )
      else if not (r.is_finite s.service_capacity)
          || not (r.is_finite s.delta_t)
          || r.lt s.service_capacity (r.of_nat 0)
          || r.le s.delta_t (r.of_nat 0)
      then (s, throws Failure.invalid_argument)
      else (
        record s {
          service_capacity_this_step =
              r.whole (if r.lt (r.of_nat int_max) whole then r.of_nat int_max else whole);
          service_capacity_carryover = r.sub (raw_capacity s) whole;
        },
        ok tt,
      )

  -- `SystemDynamicsState{}`.
  unfoldable pub initial_state : DynamicsState T
  initial_state = record {
    utilization = r.of_nat 0;
    congestion = r.of_nat 0;
    service_capacity = r.of_nat 0;
    service_capacity_this_step = 0;
    service_capacity_carryover = r.of_nat 0;
    delay_multiplier = r.of_nat 1;
    arrivals_this_step = 0;
    departures_this_step = 0;
    last_update_time = r.of_nat 0;
    delta_t = r.of_nat 3600;
  }

module _ {C S F T : Type 0} (env : Env C S F T) ⦃r : Real T⦄ where
  unfoldable pub remaining_service_capacity : Terminal C S T → ℕ
  remaining_service_capacity t =
      if t.params.enabled
      then t.dynamics.service_capacity_this_step
        - t.dynamics.departures_this_step
        - length t.reserved_ids
      else int_max

  unfoldable pub runtime_terminal_snapshot : Terminal C S T → Snapshot T
  runtime_terminal_snapshot t = record {
    terminal_id = t.name;
    parameters = t.params;
    state = t.dynamics;
    ship_multiplier = calculate_delay_multiplier t.params t.dynamics.utilization ship;
    truck_multiplier = calculate_delay_multiplier t.params t.dynamics.utilization truck;
    train_multiplier = calculate_delay_multiplier t.params t.dynamics.utilization train;
    remaining_service_capacity = remaining_service_capacity t;
    container_count = env.size t.storage;
    max_capacity = t.max_capacity;
  }

  unfoldable pub utilization_of : Terminal C S T → T
  utilization_of t =
      if to_nat t.max_capacity == 0 || is_nat t.max_capacity int_max
      then r.of_nat 0
      else r.div (r.of_nat (env.size t.storage)) (r.of_nat (to_nat t.max_capacity))

  -- The state of the dynamics when `refreshServiceCapacityBudgetLocked` is called.
  unfoldable pub measured : T → T → Terminal C S T → DynamicsState T
  unfolding utilization_of
  measured now step t =
      let u = utilization_of t in
      record t.dynamics {
        delta_t = step;
        last_update_time = now;
        utilization = u;
        congestion = calculate_congestion t.params u;
        service_capacity = calculate_service_capacity t.params (calculate_congestion t.params u);
      }

  unfoldable pub update_system_dynamics : T → T → Terminal C S T → Terminal C S T × Reply (Unit {0})
  unfolding measured
  update_system_dynamics now step t =
      let (s, answer) = refresh_service_capacity_budget t.params (measured now step t) in
      if not t.params.enabled
      then (t, ok tt)
      else if not (r.is_finite now) || not (r.is_finite step) || r.le step (r.of_nat 0)
      then (t, throws Failure.invalid_argument)
      else elim answer as (λ _. Terminal C S T × Reply (Unit {0})) [
        | throws f ↦ (record t { dynamics = s }, throws f)
        | ok _ ↦ (
          record t {
            dynamics = record s {
              delay_multiplier = calculate_delay_multiplier t.params s.utilization any;
              arrivals_this_step = 0;
              departures_this_step = 0;
            };
          },
          ok tt,
        )
      ]

  -- `resetRuntimeStateLocked`; `clear` calls it with `false`, `resetRuntimeState` with `true`.
  unfoldable pub reset_runtime_state : Bool → Terminal C S T → Terminal C S T × Reply (Unit {0})
  unfolding initial_state
  reset_runtime_state clear_records t =
      let (s, answer) =
        if t.params.enabled
        then refresh_service_capacity_budget t.params (record initial_state {
          service_capacity = t.params.max_service_rate;
          delay_multiplier = r.of_nat 1;
        })
        else (initial_state, ok tt) in
      (
        record t {
          storage = env.emptied t.storage;
          reservations = [];
          reserved_ids = [];
          completed = [];
          released = [];
          batches = if clear_records then [] else t.batches;
          dynamics = s;
        },
        answer,
      )
