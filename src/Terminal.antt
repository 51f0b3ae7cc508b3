-- ===== src/Terminal.antt =====
-- src/terminal/terminal.h and terminal.cpp: one container terminal. Every public method holds the
-- terminal's mutex from its first read to its last write, so each is one step on `Terminal`. The
-- `ContainerCore` library (containers and their store) and the text functions of Qt are the fields
-- of `Env`.
pub mod Dynamics
pub mod Batches
pub mod Results
pub mod Pickup
pub mod Reservations
pub mod Capacity
pub mod Arrivals
pub mod Creation
use terminal_sim.Prelude.{ℕ, Bool, Option, List, Text}
use terminal_sim.Prelude.Int.{ℤ}
use terminal_sim.Common.{Mode, Qt}
pub use terminal_sim.Reply.{Failure, invalid_argument, runtime_error, Reply, ok, throws}

-- The custom variables of a container that the terminal reads.
pub data Variable : Type 0 where
  execution_id canonical_path_key scenario_terminal_id runtime_terminal_id : Variable
  terminal_sequence_index segment_index vehicle_id vehicle_mode : Variable

-- The numbers that a container carries.
pub data Amount : Type 0 where
  cost time dollar_value : Amount

pub record Env (C S F T : Type 0) : Type 0 where
  pub qt : Qt
  pub open qt use *
  -- `ContainerCore::Container`.
  pub container_id : C → Text
  pub leaving_time : C → T
  pub text_variable : C → Variable → Option Text
  pub int_variable : C → Variable → Option ℤ
  -- A custom variable that is there, is not empty and reads as a number.
  pub number_variable : C → Amount → Option T
  pub with_number : C → Amount → T → C
  pub located : C → Text → C
  -- `ContainerCore::ContainerMap`; `matching` is `getContainers` with no limit, and a missing
  -- pointer is `none`.
  pub size : S → ℕ
  pub matching : S → F → List (Option C)
  pub by_id : S → Text → Option C
  pub erase : Text → S → S
  pub added : Text → C → T → T → S → S
  pub emptied : S → S

-- `limit` is `none` where the code has a negative number.
pub record Criteria (F : Type 0) : Type 0 where
  pub filter : F
  pub limit : Option ℕ

pub record DelayParams (T : Type 0) : Type 0 where
  pub alpha : T
  pub beta : T

pub record DynamicsParams (T : Type 0) : Type 0 where
  pub enabled : Bool
  pub critical_utilization : T
  pub congestion_exponent : T
  pub congestion_sensitivity : T
  pub delay_sensitivity : T
  pub max_service_rate : T
  pub ship_delay : DelayParams T
  pub truck_delay : DelayParams T
  pub train_delay : DelayParams T
  pub ship_arrival_penalty : T
  pub truck_arrival_penalty : T
  pub train_arrival_penalty : T

pub record DynamicsState (T : Type 0) : Type 0 where
  pub utilization : T
  pub congestion : T
  pub service_capacity : T
  pub service_capacity_this_step : ℕ
  pub service_capacity_carryover : T
  pub delay_multiplier : T
  pub arrivals_this_step : ℕ
  pub departures_this_step : ℕ
  pub last_update_time : T
  pub delta_t : T

-- `runtimeTerminalSnapshotLocked`, without the display name.
pub record Snapshot (T : Type 0) : Type 0 where
  pub terminal_id : Text
  pub parameters : DynamicsParams T
  pub state : DynamicsState T
  pub ship_multiplier : T
  pub truck_multiplier : T
  pub train_multiplier : T
  pub remaining_service_capacity : ℕ
  pub container_count : ℕ
  pub max_capacity : ℤ

pub record Metadata : Type 0 where
  pub execution : Text
  pub path_key : Text
  pub scenario_terminal : Text
  pub runtime_terminal : Text
  pub sequence_index : ℤ
  pub segment : ℤ
  pub vehicle : Text
  pub mode : Mode

-- `ContainerHandlingOutcome`.
pub record Handling (T : Type 0) : Type 0 where
  pub container : Text
  pub adding_time : T
  pub departure : T
  pub customs_applied : Bool
  pub yard_dwell : T
  pub customs_delay : T
  pub arrival_penalty : T
  pub total : T
  pub direct_cost : T

pub data EventType : Type 0 where
  arrival_dropoff pickup_departure : EventType

-- `TerminalHandlingBatchRecord`.
pub record Batch (T : Type 0) : Type 0 where
  pub metadata : Metadata
  pub event_type : EventType
  pub container_count : ℕ
  pub event_time : T
  pub sum_yard_dwell : T
  pub sum_customs_delay : T
  pub customs_applied_count : ℕ
  pub sum_arrival_penalty : T
  pub sum_total_handling : T
  pub sum_direct_cost : T
  pub before : Snapshot T
  pub after : Snapshot T
  pub container_ids : List Text

-- `TerminalContainerReservation`, under its id in `Terminal.reservations`.
pub record Reservation (C : Type 0) : Type 0 where
  pub container_ids : List Text
  pub snapshot : List C

-- The answers of the reservation methods: the id and the state, and what else the object holds.
pub data Status : Type 0 where
  active blocked committed released : Status

pub record Response (C : Type 0) : Type 0 where
  pub reservation_id : Text
  pub status : Status
  pub containers : List C
  pub container_count : ℕ
  pub released_count : Option ℕ

-- What the constructor reads of the dwell time, customs and cost configuration.
pub record Config (T : Type 0) : Type 0 where
  -- Neither the method nor its parameters are empty.
  pub dwell_configured : Bool
  pub customs_probability : T
  pub customs_delay_mean : T
  pub customs_cost : T
  pub fixed_cost : T
  pub risk_factor : T

-- `TerminalArrivalSemantics`.
pub data Semantics : Type 0 where
  infer runtime_arrival preload : Semantics

pub record Terminal (C S T : Type 0) : Type 0 where
  pub name : Text
  pub max_capacity : ℤ
  pub critical_threshold : T
  pub config : Config T
  pub storage : S
  pub params : DynamicsParams T
  pub dynamics : DynamicsState T
  pub batches : List (Text × List (Batch T))
  pub reservations : List (Text × Reservation C)
  pub reserved_ids : List (Text × Text)
  pub completed : List (Text × Response C)
  pub released : List Text
