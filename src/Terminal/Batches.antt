-- ===== src/Terminal/Batches.antt =====
-- The records of handled containers in src/terminal/terminal.cpp: the metadata that a container
-- carries, the grouping key and the batch that one event leaves. A text variable is read with the
-- empty text for a missing one, a number with -1.
use mathlib.Core.Option
use terminal_sim.Prelude.{
  ◌+◌, Bool, not, ◌&&◌, ◌||◌, Option, some, List, [], ◌∷◌, ◌++◌, if◌then◌else◌, Text, text_eq,
}
use terminal_sim.Prelude.Int.{ℤ, negsuc}
use terminal_sim.Prelude.Maps
use terminal_sim.Common.{Mode, try_parse_mode}
use terminal_sim.Real.{Real}
use terminal_sim.Terminal.{Batch, Env, EventType, Handling, Metadata, Snapshot, Terminal, Variable}

unfoldable pub is_empty {ℓ} : {A : Type ℓ} → List A → Bool
is_empty [] = Bool.true
is_empty (_ ∷ _) = Bool.false

-- `HandlingMetadata::isValid`.
unfoldable pub is_valid : Metadata → Bool
is_valid m =
    not (is_empty m.execution) && not (is_empty m.path_key) && not (is_empty m.scenario_terminal)

-- "|".
abbrev bar : Text
bar = 124 ∷ []

module _ {C S F T : Type 0} (env : Env C S F T) where
  -- `HandlingMetadata::groupingKey`.
  unfoldable pub grouping_key : Metadata → Text
  grouping_key m =
      m.execution
      ++ bar
      ++ m.path_key
      ++ bar
      ++ m.scenario_terminal
      ++ bar
      ++ m.runtime_terminal
      ++ bar
      ++ env.number m.sequence_index

  abbrev text_of : C → Variable → Text
  text_of c v = Option.get_or (env.text_variable c v) []

  abbrev int_of : C → Variable → ℤ
  int_of c v = Option.get_or (env.int_variable c v) (negsuc 0)

  -- `none` is the exception of `stringToTransportationMode`.
  unfoldable pub vehicle_mode_of : C → Mode → Option Mode
  vehicle_mode_of c arrival_mode =
      let text = text_of c Variable.vehicle_mode in
      if is_empty text then some arrival_mode else try_parse_mode env.qt text

  unfoldable pub extract_handling_metadata : Terminal C S T → C → Mode → Option Metadata
  extract_handling_metadata t c arrival_mode =
      Option.map
        (λ m. record {
          execution = text_of c Variable.execution_id;
          path_key = text_of c Variable.canonical_path_key;
          scenario_terminal = text_of c Variable.scenario_terminal_id;
          runtime_terminal =
              if is_empty (text_of c Variable.runtime_terminal_id)
              then t.name
              else text_of c Variable.runtime_terminal_id;
          sequence_index = int_of c Variable.terminal_sequence_index;
          segment = int_of c Variable.segment_index;
          vehicle = text_of c Variable.vehicle_id;
          mode = m;
        })
        (vehicle_mode_of c arrival_mode)

module _ {T : Type 0} ⦃r : Real T⦄ where
  -- A batch of no container.
  unfoldable pub empty_batch : Metadata → Snapshot T → Snapshot T → EventType → Batch T
  empty_batch m before after type = record {
    metadata = m;
    event_type = type;
    container_count = 0;
    event_time = r.of_nat 0;
    sum_yard_dwell = r.of_nat 0;
    sum_customs_delay = r.of_nat 0;
    customs_applied_count = 0;
    sum_arrival_penalty = r.of_nat 0;
    sum_total_handling = r.of_nat 0;
    sum_direct_cost = r.of_nat 0;
    before = before;
    after = after;
    container_ids = [];
  }

  unfoldable pub include_outcome : Batch T → Handling T → Batch T
  include_outcome b o = record b {
    container_count = b.container_count + 1;
    event_time = if r.lt b.event_time o.adding_time then o.adding_time else b.event_time;
    sum_yard_dwell = r.add b.sum_yard_dwell o.yard_dwell;
    sum_customs_delay = r.add b.sum_customs_delay o.customs_delay;
    customs_applied_count = b.customs_applied_count + (if o.customs_applied then 1 else 0);
    sum_arrival_penalty = r.add b.sum_arrival_penalty o.arrival_penalty;
    sum_total_handling = r.add b.sum_total_handling o.total;
    sum_direct_cost = r.add b.sum_direct_cost o.direct_cost;
    container_ids = b.container_ids ++ o.container ∷ [];
  }

  unfoldable pub include_all : Batch T → List (Handling T) → Batch T
  include_all b [] = b
  include_all b (o ∷ os) = include_all (include_outcome b o) os

  unfoldable pub record_handling_batch :
      Metadata
      → List (Handling T)
      → Snapshot T
      → Snapshot T
      → EventType
      → List (Text × List (Batch T))
      → List (Text × List (Batch T))
  record_handling_batch m outcomes before after type batches =
      if not (is_valid m) || is_empty outcomes
      then batches
      else Maps.insert m.execution
          (Maps.get_or m.execution batches []
            ++ include_all (empty_batch m before after type) outcomes ∷ [])
          batches
