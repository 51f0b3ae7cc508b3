-- ===== src/Terminal/Results.antt =====
-- The summary of the handling records of an execution in src/terminal/terminal.cpp:
-- `terminalExecutionResultsLocked` and `clearTerminalExecutionResults`. The order of texts is an
-- argument; the hash with its list of keys is an association list, in the order of the keys.
pub mod Totals
use terminal_sim.Prelude.{
  ℕ, ◌+◌, Bool, true, false, not, Option, some, none, List, [], ◌∷◌, ◌++◌, if◌then◌else◌, Text,
  text_eq, ◌==◌, length, map, keep_if, ltb, nat_eq, ◌||◌,
}
use terminal_sim.Prelude.Int.{ℤ, pos, negsuc}
use terminal_sim.Prelude.Maps
use terminal_sim.Prelude.Sets
use terminal_sim.Real.{Real}
use terminal_sim.Terminal.{Batch, Env, EventType, Metadata, Snapshot, Terminal}
use terminal_sim.Terminal.Batches.{grouping_key, is_empty}

-- `TerminalExecutionResult`; a snapshot that is not set is none. Of `metadata` the source has the
-- execution, the path, the two terminals and the sequence index.
pub record ExecutionResult (T : Type 0) : Type 0 where
  pub metadata : Metadata
  pub dropped : ℕ
  pub picked : ℕ
  pub arrival_events : ℕ
  pub pickup_events : ℕ
  pub yard_dwell : T
  pub customs_delay : T
  pub customs_applied_count : ℕ
  pub arrival_penalty : T
  pub total_handling : T
  pub direct_cost : T
  pub first_arrival : Option (Snapshot T)
  pub last_departure : Option (Snapshot T)
  pub raw_records : List (Batch T)

-- `<` of integers.
abbrev int_lt : ℤ → ℤ → Bool
int_lt (negsuc m) (negsuc n) = ltb n m
int_lt (negsuc m) (pos n) = true
int_lt (pos m) (negsuc n) = false
int_lt (pos m) (pos n) = ltb m n

-- `==` of integers, where neither is less.
abbrev int_same : ℤ → ℤ → Bool
int_same a b = if int_lt a b || int_lt b a then false else true

module _ {T : Type 0} ⦃r : Real T⦄ where
  -- The result that the first record of a key begins with.
  unfoldable pub new_result : Batch T → ExecutionResult T
  new_result b = record {
    metadata = b.metadata;
    dropped = 0;
    picked = 0;
    arrival_events = 0;
    pickup_events = 0;
    yard_dwell = r.of_nat 0;
    customs_delay = r.of_nat 0;
    customs_applied_count = 0;
    arrival_penalty = r.of_nat 0;
    total_handling = r.of_nat 0;
    direct_cost = r.of_nat 0;
    first_arrival = none;
    last_departure = none;
    raw_records = [];
  }

  -- The branches on the type of the event.
  unfoldable pub count_event : EventType → Batch T → ExecutionResult T → ExecutionResult T
  count_event EventType.arrival_dropoff b x = record x {
    dropped = x.dropped + b.container_count;
    arrival_events = x.arrival_events + 1;
    first_arrival = elim x.first_arrival as (λ _. Option (Snapshot T)) [
      | none ↦ some b.before
      | some first ↦ some first
    ];
  }
  count_event EventType.pickup_departure b x = record x {
    picked = x.picked + b.container_count;
    pickup_events = x.pickup_events + 1;
    last_departure = some b.after;
  }

  -- What one record adds to its result.
  unfoldable pub include_record : Batch T → ExecutionResult T → ExecutionResult T
  include_record b x =
      let counted = count_event b.event_type b x in
      record counted {
        yard_dwell = r.add x.yard_dwell b.sum_yard_dwell;
        customs_delay = r.add x.customs_delay b.sum_customs_delay;
        customs_applied_count = x.customs_applied_count + b.customs_applied_count;
        arrival_penalty = r.add x.arrival_penalty b.sum_arrival_penalty;
        total_handling = r.add x.total_handling b.sum_total_handling;
        direct_cost = r.add x.direct_cost b.sum_direct_cost;
        raw_records = x.raw_records ++ b ∷ [];
      }

-- The records of every execution, one after the other.
unfoldable pub all_records : {T : Type 0} → List (Text × List (Batch T)) → List (Batch T)
all_records [] = []
all_records (entry ∷ entries) = entry.1 ++ all_records entries

module _ {C S F T : Type 0} ⦃r : Real T⦄ (env : Env C S F T) (text_lt : Text → Text → Bool) where
  -- The records that are asked for: of one execution, or of all without one, and on the paths that
  -- are listed, or on all without one.
  unfoldable pub select_records : Text → List Text → Terminal C S T → List (Batch T)
  select_records execution keys t =
      keep_if (λ b. if is_empty keys then true else Sets.contains b.metadata.path_key keys)
        (if is_empty execution then all_records t.batches else Maps.get_or execution t.batches [])

  -- The loop over the records.
  unfoldable pub group_records :
      List (Batch T) → List (Text × ExecutionResult T) → List (Text × ExecutionResult T)
  group_records [] grouped = grouped
  group_records (b ∷ bs) grouped =
      let key = grouping_key env b.metadata in
      group_records bs
        (Maps.insert key (include_record b (Maps.get_or key grouped (new_result b))) grouped)

  -- The comparison of the sort.
  unfoldable pub result_lt : ExecutionResult T → ExecutionResult T → Bool
  result_lt x y =
      if not (x.metadata.execution == y.metadata.execution)
      then text_lt x.metadata.execution y.metadata.execution
      else if not (x.metadata.path_key == y.metadata.path_key)
      then text_lt x.metadata.path_key y.metadata.path_key
      else if not (int_same x.metadata.sequence_index y.metadata.sequence_index)
      then int_lt x.metadata.sequence_index y.metadata.sequence_index
      else text_lt x.metadata.runtime_terminal y.metadata.runtime_terminal

  unfoldable pub insert_result :
      ExecutionResult T → List (ExecutionResult T) → List (ExecutionResult T)
  insert_result x [] = x ∷ []
  insert_result x (y ∷ ys) =
      let rest = insert_result x ys in if result_lt y x then y ∷ rest else x ∷ y ∷ ys

  -- `std::sort`, up to the order of results that the comparison takes for equal.
  unfoldable pub sort_results : List (ExecutionResult T) → List (ExecutionResult T)
  sort_results [] = []
  sort_results (x ∷ xs) = insert_result x (sort_results xs)

  -- The values of the hash, in the order of the keys.
  unfoldable pub results_of : List (Text × ExecutionResult T) → List (ExecutionResult T)
  results_of [] = []
  results_of (entry ∷ entries) = entry.1 ∷ results_of entries

  -- `terminalExecutionResultsLocked`.
  unfoldable pub terminal_execution_results :
      Text → List Text → Terminal C S T → List (ExecutionResult T)
  terminal_execution_results execution keys t =
      sort_results (results_of (group_records (select_records execution keys t) []))

module _ {C S T : Type 0} where
  -- `clearTerminalExecutionResults`.
  unfoldable pub clear_terminal_execution_results : Text → Terminal C S T → Terminal C S T × ℕ
  clear_terminal_execution_results execution t =
      if is_empty execution then (record t { batches = [] }, length (all_records t.batches)) else (
        record t { batches = Maps.remove execution t.batches },
        length (Maps.get_or execution t.batches []),
      )
