-- ===== src/Server/Yards.antt =====
-- The terminals of src/terminal/terminal.cpp behind the interface of the commands of src/server.
pub mod Steps
pub mod Created
use mathlib.Core.Option
use terminal_sim.Prelude.{
  ℕ, suc, Bool, true, false, Option, none, some, List, [], ◌∷◌, Text, text, text_eq, if◌then◌else◌,
  map,
}
use terminal_sim.Prelude.Int.{pos, negsuc}
use terminal_sim.Prelude.Maps
use terminal_sim.Common.{Mode}
use terminal_sim.Real.{Real}
use terminal_sim.Reply.{Failure, Reply, ok, throws, or_throw, ◌>>=◌}
use terminal_sim.Network.{Host, Variant}
use terminal_sim.Network.Parsing.{is_nil}
use terminal_sim.Terminal.{Criteria, Env, Response, Semantics, Snapshot, Terminal}
use terminal_sim.Terminal.Arrivals.{Draws, add_container, add_containers}
use terminal_sim.Terminal.Capacity.{get_available_capacity}
use terminal_sim.Terminal.Dynamics.{
  reset_runtime_state, runtime_terminal_snapshot, update_system_dynamics,
}
use terminal_sim.Terminal.Pickup.{dequeue_containers}
use terminal_sim.Terminal.Reservations.{commit_reservation, release_reservation, reserve_containers}
use terminal_sim.Terminal.Results.{
  ExecutionResult, clear_terminal_execution_results, terminal_execution_results,
}
use terminal_sim.Server.{SelectionCriteria, Setting, SortField, Yard}

-- The JSON that the methods answer with. `listed` is `ContainerMap::getContainers`, as JSON.
pub record Output (C S K Q T : Type 0) : Type 0 where
  pub listed : S → SelectionCriteria K Q T → Q
  pub containers : List C → Q
  pub response : Response C → Q
  pub snapshot : Snapshot T → Q
  pub result : ExecutionResult T → Q
  pub terminal : Terminal C S T → Q
  pub projections : Terminal C S T → Q

-- A limit that is negative is none.
unfoldable pub criteria_of :
    {K Q T : Type 0} → SelectionCriteria K Q T → Criteria (SelectionCriteria K Q T)
criteria_of c = record {
  filter = c;
  limit = elim c.limit as (λ _. Option ℕ) [ pos n ↦ some n | negsuc _ ↦ none ];
}

abbrev pub answers : {A B U : Type 0} → (A → B) → U × Reply A → U × Reply B
answers f step = (step.0, step.1 >>= λ a. ok (f a))

module _ {C S K Q T : Type 0} ⦃r : Real T⦄ (env : Env C S (SelectionCriteria K Q T) T)
    (out : Output C S K Q T) (draw : Terminal C S T → ℕ → Draws T)
    (s : Setting C (Terminal C S T) K Q T) where
  open s use {variant, library}

  -- The objects among the values of a JSON array or object.
  unfoldable pub objects_in : List Q → Reply (List C)
  objects_in [] = ok []
  objects_in (value ∷ values) = elim (variant.entries value) as (λ _. Reply (List C)) [
    | some o ↦ library.of_object o >>= λ c. objects_in values >>= λ cs. ok (c ∷ cs)
    | none ↦ objects_in values
  ]

  -- The containers that `addContainersFromJson` reads: of an array, one container, or of a map.
  unfoldable pub containers_in : List (Text × Q) → Reply (List C)
  containers_in o =
      elim (variant.items (Maps.get_or (text "containers") o variant.null))
        as (λ _. Reply (List C)) [
          | some values ↦ objects_in values
          | none ↦
              if Maps.has (text "containerID") o
              then (library.of_object o >>= λ c. ok (c ∷ []))
              else objects_in (map (λ entry. entry.1) o)
        ]

  -- Each container with the numbers that its arrival draws.
  unfoldable pub with_draws : Terminal C S T → ℕ → List C → List (Draws T × C)
  with_draws t i [] = []
  with_draws t i (c ∷ cs) = (draw t i, c) ∷ with_draws t (suc i) cs

  -- What the reading throws is thrown again as `std::runtime_error`.
  unfoldable pub add_containers_from_json :
      List (Text × Q) → T → Mode → Semantics → Terminal C S T → Terminal C S T × Reply (Unit {0})
  add_containers_from_json o time mode semantics t =
      elim (containers_in o) as (λ _. Terminal C S T × Reply (Unit {0})) [
        | throws _ ↦ (t, throws Failure.runtime_error)
        | ok cs ↦
            if is_nil cs
            then (t, ok tt)
            else add_containers env (with_draws t 0 cs) time mode semantics t
      ]

  -- `getContainersByDepatingTime` and `getContainersByAddedTime`.
  unfoldable pub get_containers_by_departing_time : T → Text → Terminal C S T → Reply Q
  get_containers_by_departing_time time condition t =
      or_throw (library.comparison condition) >>= λ comparison. ok (
        out.listed t.storage (record library.every {
          leaving = some (record { comparison = comparison; reference = time });
          sort_field = SortField.leaving_time;
        }))

  unfoldable pub get_containers_by_added_time : T → Text → Terminal C S T → Reply Q
  get_containers_by_added_time time condition t =
      or_throw (library.comparison condition) >>= λ comparison. ok (
        out.listed t.storage (record library.every {
          added = some (record { comparison = comparison; reference = time });
          sort_field = SortField.added_time;
        }))

  -- The criteria of `getContainersByNextDestination` and `dequeueContainersByNextDestination`.
  unfoldable pub destined_for : Text → SelectionCriteria K Q T
  destined_for destination = record library.every { next_destination = some destination }

  -- What the network asks of these terminals; what it reads of their configuration is given.
  unfoldable pub host_of_terminals : Host (Terminal C S T) Q T
  host_of_terminals = record s.host {
    container_count = λ t. env.size t.storage;
    available_capacity = get_available_capacity env;
    max_capacity = λ t. t.max_capacity;
    reset = λ t. (reset_runtime_state env true t).0;
  }

  -- The methods that the commands call.
  unfoldable pub yard_of_terminals : Yard C (Terminal C S T) K Q T
  yard_of_terminals = record {
    to_json = out.terminal;
    add_container = λ c time mode semantics t. add_container env (draw t 0) c time mode semantics t;
    add_containers =
        λ cs time mode semantics t. add_containers env (with_draws t 0 cs) time mode semantics t;
    add_containers_from_json = add_containers_from_json;
    by_departing_time = get_containers_by_departing_time;
    by_added_time = get_containers_by_added_time;
    by_next_destination = λ destination t. ok (out.listed t.storage (destined_for destination));
    containers = λ criteria t. ok (out.listed t.storage criteria);
    dequeue_by_next_destination = λ destination time t.
        answers out.containers
          (dequeue_containers env (criteria_of (destined_for destination)) time t);
    dequeue = λ criteria time t.
        answers out.containers (dequeue_containers env (criteria_of criteria) time t);
    reserve =
        λ id criteria t. answers out.response (reserve_containers env id (criteria_of criteria) t);
    commit = λ id time t. answers out.response (commit_reservation env id time t);
    release = λ id t. answers out.response (release_reservation env id t);
    clear = reset_runtime_state env false;
    dynamics_enabled = λ t. t.params.enabled;
    update_dynamics = update_system_dynamics env;
    dynamics_state = λ t. out.snapshot (runtime_terminal_snapshot env t);
    runtime_snapshot = λ t. out.snapshot (runtime_terminal_snapshot env t);
    runtime_projections = out.projections;
    execution_results = λ execution keys t.
        map out.result (terminal_execution_results env s.text_lt execution keys t);
    clear_execution_results = clear_terminal_execution_results;
  }

  unfoldable pub with_terminals : Setting C (Terminal C S T) K Q T
  with_terminals = record s { host = host_of_terminals; yard = yard_of_terminals }
