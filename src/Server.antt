-- ===== src/Server.antt =====
-- src/server: the commands that the program serves, on the network of src/terminal. A command is
-- run under the mutex of the processor, so each is one step on `Network`.
pub mod Params
pub mod Broker
pub mod Terminals
pub mod Graphs
pub mod Queries
pub mod Commands
pub mod Messages
pub mod Yards
use terminal_sim.Prelude.{ℕ, Bool, Option, List, Text}
use terminal_sim.Prelude.Int.{ℤ}
use terminal_sim.Common.{Mode, Qt}
use terminal_sim.Reply.{Reply}
use terminal_sim.Terminal.{Semantics}
use terminal_sim.Network.{Host, Network, Variant}
use terminal_sim.Network.Costs.{Segment}
use terminal_sim.Network.Paths.{NetworkPath}
use terminal_sim.Network.Search.{Encoding}

-- `ContainerSortField`.
pub data SortField : Type 0 where
  added_time leaving_time container_id : SortField

-- `Container::HaulerType`; `cast` is a number that was cast to it.
pub data Hauler : Type 0 where
  truck train water_transport air_transport no_hauler : Hauler
  cast : ℤ → Hauler

pub record TimeFilter (K T : Type 0) : Type 0 where
  pub comparison : K
  pub reference : T

pub record VariableFilter (Q : Type 0) : Type 0 where
  pub hauler : Hauler
  pub key : Text
  pub value : Q

-- `ContainerSelectionCriteria`.
pub record SelectionCriteria (K Q T : Type 0) : Type 0 where
  pub added : Option (TimeFilter K T)
  pub leaving : Option (TimeFilter K T)
  pub current_location : Option Text
  pub next_destination : Option Text
  pub custom_variables : List (VariableFilter Q)
  pub sort_field : SortField
  pub sort_ascending : Bool
  pub limit : ℤ

-- What the commands ask of `QVariant` and of JSON besides `Variant`.
pub record Json (Q T : Type 0) : Type 0 where
  pub of_text : Text → Q
  pub of_bool : Bool → Q
  pub of_int : ℤ → Q
  pub of_list : List Q → Q
  pub to_bool : Q → Bool
  pub to_long : Q → ℤ
  pub valid : Q → Bool
  -- How deep lists and maps nest in a value.
  pub nesting : Q → ℕ
  -- `canConvert<QString>()`.
  pub converts_to_text : Q → Bool
  -- `canConvert<double>()`, a question of the type of the value.
  pub converts_to_double : Q → Bool
  -- `QJsonDocument::fromJson` of a text that is an object.
  pub parse_object : Text → Option (List (Text × Q))
  -- `PathSegment::toJson` and `Path::toJson`.
  pub of_segment : Segment Q T → Q
  pub of_path : NetworkPath Q T → Q

-- The `ContainerCore` library: `Container(QJsonObject)`, which may throw, `parseContainerTimeComparison` and the
-- criteria that select every container.
pub record Containers (C K Q T : Type 0) : Type 0 where
  pub of_object : List (Text × Q) → Reply C
  pub comparison : Text → Option K
  pub every : SelectionCriteria K Q T

-- The methods of `Terminal` that the commands call, with what they answer as a variant. A method
-- that throws leaves the terminal that it returns.
pub record Yard (C H K Q T : Type 0) : Type 0 where
  pub to_json : H → Q
  pub add_container : C → T → Mode → Semantics → H → H × Reply (Unit {0})
  pub add_containers : List C → T → Mode → Semantics → H → H × Reply (Unit {0})
  pub add_containers_from_json : List (Text × Q) → T → Mode → Semantics → H → H × Reply (Unit {0})
  pub by_departing_time : T → Text → H → Reply Q
  pub by_added_time : T → Text → H → Reply Q
  pub by_next_destination : Text → H → Reply Q
  pub containers : SelectionCriteria K Q T → H → Reply Q
  pub dequeue_by_next_destination : Text → T → H → H × Reply Q
  pub dequeue : SelectionCriteria K Q T → T → H → H × Reply Q
  pub reserve : Text → SelectionCriteria K Q T → H → H × Reply Q
  pub commit : Text → T → H → H × Reply Q
  pub release : Text → H → H × Reply Q
  pub clear : H → H × Reply (Unit {0})
  pub dynamics_enabled : H → Bool
  pub update_dynamics : T → T → H → H × Reply (Unit {0})
  pub dynamics_state : H → Q
  pub runtime_snapshot : H → Q
  pub runtime_projections : H → Q
  pub execution_results : Text → List Text → H → List Q
  pub clear_execution_results : Text → H → H × ℕ

-- All that the processor calls.
pub record Setting (C H K Q T : Type 0) : Type 0 where
  pub host : Host H Q T
  pub variant : Variant Q T
  pub qt : Qt
  pub encoding : Encoding
  pub text_lt : Text → Text → Bool
  pub json : Json Q T
  pub library : Containers C K Q T
  pub yard : Yard C H K Q T

-- `CommandHandler`. The answer `none` says that a search ran out of its fuel.
abbrev pub Handler : Type 0 → Type 0 → Type 0 → Type 0
Handler H Q T = List (Text × Q) → Network H Q T → Network H Q T × Option (Reply Q)
