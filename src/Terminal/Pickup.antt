-- ===== src/Terminal/Pickup.antt =====
-- The choice and the removal of containers in src/terminal/terminal.cpp:
-- `selectContainerIdsForPickupLocked`, `containersSnapshotLocked`,
-- `removeContainersAndRecordPickupLocked` and `dequeueContainers`. A QHash has no order of its own,
-- so the batches of one removal are recorded here in the order in which their keys were first met.
pub mod Selection
pub mod Removed
pub mod Reserved
use mathlib.Core.Option
use terminal_sim.Prelude.{
  ℕ, zero, suc, ◌+◌, Bool, true, false, not, ◌&&◌, Option, none, some, List, [], ◌∷◌, ◌++◌, length,
  if◌then◌else◌, leb, ltb, Text, text_eq,
}
use terminal_sim.Prelude.Maps
use terminal_sim.Common.{Mode}
use terminal_sim.Real.{Real}
use terminal_sim.Terminal.{
  Batch, Criteria, Env, EventType, Failure, Handling, Metadata, Reply, Snapshot, Terminal, ok,
  throws,
}
use terminal_sim.Terminal.Dynamics.{remaining_service_capacity, runtime_terminal_snapshot}
use terminal_sim.Terminal.Batches.{
  extract_handling_metadata, grouping_key, is_empty, record_handling_batch,
}

-- `limit >= 0 && count >= limit`.
unfoldable pub reached : Option ℕ → ℕ → Bool
reached none count = false
reached (some limit) count = leb limit count

-- `limit < 0 || limit > remaining`, then `limit = remaining`.
unfoldable pub capped : Option ℕ → ℕ → Option ℕ
capped none remaining = some remaining
capped (some limit) remaining = if ltb remaining limit then some remaining else some limit

pub record Group (T : Type 0) : Type 0 where
  pub metadata : Metadata
  pub outcomes : List (Handling T)

-- The local variables of the loop over the ids, with the store that it changes.
pub record Removal (C S T : Type 0) : Type 0 where
  pub storage : S
  pub taken : List C
  pub groups : List (Text × Group T)

module _ {C S F T : Type 0} (env : Env C S F T) where
  unfoldable pub select_from :
      List (Text × Text) → Bool → Option ℕ → List Text → List (Option C) → List Text
  select_from reserved exclude limit selected [] = selected
  select_from reserved exclude limit selected (none ∷ cs) =
      select_from reserved exclude limit selected cs
  select_from reserved exclude limit selected (some c ∷ cs) =
      let id = env.container_id c in
      let skip = select_from reserved exclude limit selected cs in
      let next = select_from reserved exclude limit (selected ++ id ∷ []) cs in
      if exclude && Maps.has id reserved
      then skip
      else if reached limit (length (selected ++ id ∷ []))
      then selected ++ id ∷ []
      else next

  unfoldable pub select_container_ids : Terminal C S T → Criteria F → Bool → List Text
  select_container_ids t criteria exclude =
      select_from t.reserved_ids exclude criteria.limit [] (env.matching t.storage criteria.filter)

  unfoldable pub containers_snapshot : S → List Text → List C
  containers_snapshot s [] = []
  containers_snapshot s (id ∷ ids) =
      let rest = containers_snapshot s ids in
      elim (env.by_id s id) as (λ _. List C) [ none ↦ rest | some c ↦ c ∷ rest ]

module _ {C S F T : Type 0} (env : Env C S F T) ⦃r : Real T⦄ where
  unfoldable pub time_of_pickup : Terminal C S T → T → C → T
  time_of_pickup t time c =
      if r.is_finite time && r.le (r.of_nat 0) time
      then time
      else if r.is_nan (env.leaving_time c)
      then t.dynamics.last_update_time
      else env.leaving_time c

  -- The outcome of a pickup: all but the id and the time are at their defaults.
  unfoldable pub pickup_outcome : Terminal C S T → T → C → Handling T
  pickup_outcome t time c = record {
    container = env.container_id c;
    adding_time = time_of_pickup t time c;
    departure = r.of_nat 0;
    customs_applied = false;
    yard_dwell = r.of_nat 0;
    customs_delay = r.of_nat 0;
    arrival_penalty = r.of_nat 0;
    total = r.of_nat 0;
    direct_cost = r.of_nat 0;
  }

  unfoldable pub add_to_group :
      Text → Metadata → Handling T → List (Text × Group T) → List (Text × Group T)
  add_to_group key m o groups = elim (Maps.lookup key groups) as (λ _. List (Text × Group T)) [
    | none ↦ Maps.insert key (record { metadata = m; outcomes = o ∷ [] }) groups
    | some group ↦ Maps.insert key (record group { outcomes = group.outcomes ++ o ∷ [] }) groups
  ]

  unfoldable pub take_one : Terminal C S T → T → Text → C → Metadata → Removal C S T → Removal C S T
  take_one t time id c m x = record {
    storage = env.erase id x.storage;
    taken = x.taken ++ c ∷ [];
    groups = add_to_group (grouping_key env m) m (pickup_outcome t time c) x.groups;
  }

  -- The loop over the ids. A mode that cannot be parsed leaves it, with what it removed so far.
  unfoldable pub remove_each :
      Terminal C S T → T → Removal C S T → List Text → Removal C S T × Option Failure
  remove_each t time x [] = (x, none)
  remove_each t time x (id ∷ ids) =
      elim (env.by_id x.storage id) as (λ _. Removal C S T × Option Failure) [
        | none ↦ remove_each t time x ids
        | some c ↦
            elim (extract_handling_metadata env t c Mode.any)
              as (λ _. Removal C S T × Option Failure) [
                | none ↦ (x, some Failure.invalid_argument)
                | some m ↦ remove_each t time (take_one t time id c m x) ids
              ]
      ]

  unfoldable pub record_groups :
      Snapshot T
      → Snapshot T
      → EventType
      → List (Text × Group T)
      → List (Text × List (Batch T))
      → List (Text × List (Batch T))
  record_groups before after type [] batches = batches
  record_groups before after type ((_, group) ∷ groups) batches =
      record_groups before after type groups
        (record_handling_batch group.metadata group.outcomes before after type batches)

  unfoldable pub remove_and_record :
      List Text → EventType → T → Terminal C S T → Terminal C S T × Reply (List C)
  remove_and_record ids type time t =
      let (x, failure) =
        remove_each t time (record { storage = t.storage; taken = []; groups = [] }) ids in
      let left = record t { storage = x.storage } in
      elim failure as (λ _. Terminal C S T × Reply (List C)) [
        | some f ↦ (left, throws f)
        | none ↦ (
          record left {
            batches =
                record_groups (runtime_terminal_snapshot env t) (runtime_terminal_snapshot env left)
                  type x.groups t.batches;
          },
          ok x.taken,
        )
      ]

  abbrev pub depart : ℕ → Terminal C S T → Terminal C S T
  depart n t =
      if t.params.enabled
      then record t {
        dynamics = record t.dynamics { departures_this_step = t.dynamics.departures_this_step + n };
      }
      else t

  -- The criteria under the service capacity that remains.
  unfoldable pub within_capacity : Terminal C S T → Criteria F → Criteria F
  within_capacity t criteria =
      if t.params.enabled
      then record criteria { limit = capped criteria.limit (remaining_service_capacity env t) }
      else criteria

  abbrev pub exhausted : Terminal C S T → Bool
  exhausted t = t.params.enabled && leb (remaining_service_capacity env t) 0

  unfoldable pub dequeue_containers :
      Criteria F → T → Terminal C S T → Terminal C S T × Reply (List C)
  dequeue_containers criteria time t =
      let ids = select_container_ids env t (within_capacity t criteria) true in
      if exhausted t
      then (t, ok [])
      else remove_and_record ids EventType.pickup_departure time (depart (length ids) t)
