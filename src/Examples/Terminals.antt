-- ===== src/Examples/Terminals.antt =====
-- A terminal whose store can hold two containers, under whole numbers for `double`.
use terminal_sim.Prelude.{
  nat_beq, ℕ, ◌+◌, ◌-◌, ◌*◌, ◌/◌, ◌≡◌, refl, Bool, true, false, not, ◌&&◌, some, none, [], ◌∷◌,
  ◌++◌, arith, ltb, leb, Text, text_beq, text_eq, ◌==◌, if◌then◌else◌, length,
}
use terminal_sim.Prelude.Maps
use terminal_sim.Prelude.Sets
use terminal_sim.Common.{Mode}
use terminal_sim.Real.{Real}
use terminal_sim.Prelude.Int.{pos}
use terminal_sim.Terminal.{ok, Batch, Criteria, DelayParams, Env, EventType, Terminal, Semantics}
use terminal_sim.Terminal.Dynamics.{remaining_service_capacity, runtime_terminal_snapshot}
use terminal_sim.Terminal.Batches.{
  extract_handling_metadata, grouping_key, is_empty, is_valid, record_handling_batch,
  vehicle_mode_of,
}
use terminal_sim.Terminal.Pickup.{
  add_to_group, capped, containers_snapshot, dequeue_containers, pickup_outcome, reached,
  record_groups, remove_and_record, remove_each, select_container_ids, select_from, take_one,
  time_of_pickup, within_capacity,
}
use terminal_sim.Terminal.Pickup.Selection.{ids_of}
use terminal_sim.Terminal.Pickup.Removed.{ErasesOne}
use terminal_sim.Terminal.Pickup.Reserved.{dequeue_containers-reserved}
use terminal_sim.Terminal.Arrivals.{Draws, add_containers}
use terminal_sim.Terminal.Results.{select_records, terminal_execution_results}
use terminal_sim.Terminal.Results.Totals.{
  dropped_by, picked_by, terminal_execution_results-totals, total,
}
use terminal_sim.Terminal.Arrivals.Room.{AddsAtMostOne, WithinLimit, add_containers-WithinLimit}
use terminal_sim.Terminal.Reservations.{
  activate, claim_all, commit, commit_reservation, committed_response, complete, drop, ids_held,
  reserve, reserve_containers, reserve_new, unclaim_all,
}
use terminal_sim.Terminal.Reservations.Ids.{no_repeat}
use terminal_sim.Terminal.Reservations.Consistent.{Consistent, holds, claims}
use terminal_sim.Terminal.Reservations.Budget.{Budget, ListsOnce}
use terminal_sim.Terminal.Reservations.Spending.{Service-Budget}
use terminal_sim.Terminal.Reservations.Retries.{Goes, commit_reservation-again}
use terminal_sim.Terminal.Reservations.Steps.{commits, dequeues, goes, reserves, serves, stays}
use terminal_sim.Terminal.Reservations.Runs.{Run-Consistent}

-- The line that the tests unfold.
terminals : Unit {0}
unfolding Maps.has Maps.insert Maps.get_or Maps.lookup Maps.remove Sets.contains Sets.insert
    is_empty extract_handling_metadata vehicle_mode_of grouping_key is_valid record_handling_batch
    reached capped select_from select_container_ids containers_snapshot time_of_pickup
    pickup_outcome add_to_group take_one remove_each record_groups remove_and_record within_capacity
    dequeue_containers remaining_service_capacity runtime_terminal_snapshot claim_all activate
    reserve_new reserve reserve_containers unclaim_all drop complete commit commit_reservation
    text_beq
terminals = tt

instance abbrev pub nat_real : Real ℕ
nat_real = record {
  of_nat = λ n. n;
  add = ◌+◌;
  sub = ◌-◌;
  mul = ◌*◌;
  div = ◌/◌;
  pow = λ x y. x;
  floor = λ x. x;
  whole = λ x. x;
  lt = ltb;
  le = leb;
  same = nat_beq;
  is_finite = λ _. true;
  is_nan = λ _. false;
  greatest = 1_000_000_000;
}

-- The ids of the two containers, and of a reservation.
abbrev first : Text
first = 1 ∷ []

abbrev second : Text
second = 2 ∷ []

abbrev order : Text
order = 7 ∷ []

-- Which of the two containers are there.
abbrev pub Yard : Type 0
Yard = Bool × Bool

abbrev pub yard : Env Text Yard Bool ℕ
yard = record {
  qt = record { trimmed = λ t. t; lower = λ t. t; to_int = λ _. none; number = λ _. [] };
  container_id = λ c. c;
  leaving_time = λ _. 0;
  text_variable = λ _ _. none;
  int_variable = λ _ _. none;
  number_variable = λ _ _. none;
  with_number = λ c _ _. c;
  located = λ c _. c;
  size = λ s. (if s.0 then 1 else 0) + (if s.1 then 1 else 0);
  matching = λ s _. (if s.0 then some first ∷ [] else []) ++ (if s.1 then some second ∷ [] else []);
  by_id = λ s id.
      if s.0 && first == id then some first else if s.1 && second == id then some second else none;
  erase = λ id s. (s.0 && not (id == first), s.1 && not (id == second));
  added = λ id _ _ _ s. if id == first then (true, s.1) else (s.0, true);
  emptied = λ s. (false, false);
}

yard-ErasesOne : ErasesOne yard
yard-ErasesOne d c s = ground (
  arith,
  text_eq.same_iff d c,
  text_eq.same_iff first c,
  text_eq.same_iff second c,
  text_eq.same_iff d first,
  text_eq.same_iff d second,
)

yard-ListsOnce : ListsOnce yard
unfolding ids_of no_repeat Sets.contains text_beq
yard-ListsOnce (true, true) f = refl
yard-ListsOnce (true, false) f = refl
yard-ListsOnce (false, true) f = refl
yard-ListsOnce (false, false) f = refl

abbrev delay : DelayParams ℕ
delay = record { alpha = 1; beta = 2 }

-- Both containers are there, and two may leave in this step.
abbrev pub busy : Terminal Text Yard ℕ
busy = record {
  name = 84 ∷ [];
  max_capacity = pos 10;
  critical_threshold = 1;
  config = record {
    dwell_configured = true;
    customs_probability = 0;
    customs_delay_mean = 0;
    customs_cost = 0;
    fixed_cost = 5;
    risk_factor = 0;
  };
  storage = (true, true);
  params = record {
    enabled = true;
    critical_utilization = 1;
    congestion_exponent = 2;
    congestion_sensitivity = 1;
    delay_sensitivity = 1;
    max_service_rate = 100;
    ship_delay = delay;
    truck_delay = delay;
    train_delay = delay;
    ship_arrival_penalty = 14400;
    truck_arrival_penalty = 1800;
    train_arrival_penalty = 7200;
  };
  dynamics = record {
    utilization = 0;
    congestion = 0;
    service_capacity = 1;
    service_capacity_this_step = 2;
    service_capacity_carryover = 0;
    delay_multiplier = 1;
    arrivals_this_step = 0;
    departures_this_step = 0;
    last_update_time = 0;
    delta_t = 3600;
  };
  batches = [];
  reservations = [];
  reserved_ids = [];
  completed = [];
  released = [];
}

abbrev every : Criteria Bool
every = record { filter = true; limit = none }

abbrev one_of_any : Criteria Bool
one_of_any = record { filter = true; limit = some 1 }

-- One of the two is promised.
abbrev promised : Terminal Text Yard ℕ
promised = (reserve_containers yard order one_of_any busy).0

busy-Consistent : Consistent busy
unfolding holds claims ids_held Maps.lookup Maps.has Sets.contains
busy-Consistent = record {
  agree = λ rid c. refl;
  not_completed = λ rid m. refl;
  not_released = λ rid m. refl;
  never_both = λ rid m. refl;
}

busy-Budget : Budget 2 busy
unfolding ids_held Maps.lookup no_repeat
busy-Budget = record {
  enabled = refl;
  capacity = ground arith;
  spent = ground arith;
  tidy = λ rid. refl;
}

Run-Consistent_example : Consistent (commit_reservation yard order 60 promised).0
Run-Consistent_example =
    Run-Consistent yard busy (commit_reservation yard order 60 promised).0
      (goes busy promised (commit_reservation yard order 60 promised).0
        (serves busy promised (reserves order one_of_any busy))
        (goes promised (commit_reservation yard order 60 promised).0
          (commit_reservation yard order 60 promised).0
          (serves promised (commit_reservation yard order 60 promised).0
            (commits order 60 promised))
          (stays (commit_reservation yard order 60 promised).0)))
      busy-Consistent

Service-Budget_example : Budget 2 promised
Service-Budget_example =
    Service-Budget yard 2 busy promised yard-ListsOnce (reserves order one_of_any busy)
      busy-Consistent busy-Budget

promised_first : promised.reserved_ids ≡ (first, order) ∷ []
unfolding terminals
promised_first = refl

dequeued_second : (dequeue_containers yard every 60 promised).0.storage ≡ (true, false)
unfolding terminals
dequeued_second = refl

dequeue_containers-reserved_example :
    yard.by_id (dequeue_containers yard every 60 promised).0.storage first
    ≡ yard.by_id promised.storage first
unfolding terminals
dequeue_containers-reserved_example =
    dequeue_containers-reserved yard every 60 promised first yard-ErasesOne refl

yard-AddsAtMostOne : AddsAtMostOne yard
yard-AddsAtMostOne id c arrival departure s = ground arith

abbrev draws : Draws ℕ
draws = record { departure = 200; uniform = 1; delay = 0 }

add_containers-WithinLimit_example :
    WithinLimit yard
      (add_containers yard
        ((draws, first) ∷ (draws, second) ∷ [])
        100
        Mode.truck
        Semantics.infer
        busy).0
add_containers-WithinLimit_example =
    add_containers-WithinLimit yard ((draws, first) ∷ (draws, second) ∷ []) 100 Mode.truck
      Semantics.infer busy yard-AddsAtMostOne (λ _. ground arith)

-- After the commit the other container is picked up.
abbrev picked_up : Terminal Text Yard ℕ
picked_up = (dequeue_containers yard every 70 (commit_reservation yard order 60 promised).0).0

commit_reservation-again_example :
    commit_reservation yard order 90 picked_up
    ≡ (picked_up, ok (committed_response order (first ∷ [])))
unfolding terminals
commit_reservation-again_example =
    commit_reservation-again yard order 60 90 promised picked_up
      (committed_response order (first ∷ [])) refl refl
      (Goes.serves _ picked_up picked_up
        (dequeues every 70 (commit_reservation yard order 60 promised).0) (Goes.stays picked_up))

-- The limit is tested after a container was added.
zero_limit :
    select_container_ids yard busy (record { filter = true; limit = some 0 }) true ≡ first ∷ []
unfolding terminals
zero_limit = refl

-- Two arrivals and a pickup on one path.
abbrev event : EventType → ℕ → Batch ℕ
event type_of count = record {
  metadata = record {
    execution = 5 ∷ [];
    path_key = 6 ∷ [];
    scenario_terminal = 84 ∷ [];
    runtime_terminal = 84 ∷ [];
    sequence_index = pos 0;
    segment = pos 0;
    vehicle = 9 ∷ [];
    mode = Mode.truck;
  };
  event_type = type_of;
  container_count = count;
  event_time = 60;
  sum_yard_dwell = 10;
  sum_customs_delay = 0;
  customs_applied_count = 1;
  sum_arrival_penalty = 0;
  sum_total_handling = 10;
  sum_direct_cost = 5;
  before = runtime_terminal_snapshot yard busy;
  after = runtime_terminal_snapshot yard busy;
  container_ids = first ∷ [];
}

abbrev recorded : Terminal Text Yard ℕ
recorded = record busy {
  batches =
      (
        5 ∷ [],
        event EventType.arrival_dropoff 1
            ∷ event EventType.arrival_dropoff 2
            ∷ event EventType.pickup_departure 4
            ∷ [],
      )
      ∷ [];
}

terminal_execution_results-totals_example :
    (total (λ x. x.dropped) (terminal_execution_results yard (λ _ _. false) [] [] recorded)
      ≡ total dropped_by (select_records yard (λ _ _. false) [] [] recorded))
    × (total (λ x. x.picked) (terminal_execution_results yard (λ _ _. false) [] [] recorded)
        ≡ total picked_by (select_records yard (λ _ _. false) [] [] recorded))
    × (total
          (λ x. x.customs_applied_count)
          (terminal_execution_results yard (λ _ _. false) [] [] recorded)
        ≡ total (λ b. b.customs_applied_count) (select_records yard (λ _ _. false) [] [] recorded))
    × (total
          (λ x. length x.raw_records)
          (terminal_execution_results yard (λ _ _. false) [] [] recorded)
        ≡ total (λ _. 1) (select_records yard (λ _ _. false) [] [] recorded))
terminal_execution_results-totals_example =
    terminal_execution_results-totals yard (λ _ _. false) [] [] recorded
