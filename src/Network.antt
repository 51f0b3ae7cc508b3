-- ===== src/Network.antt =====
-- The state of src/terminal/terminal_graph.h and terminal_graph.cpp: the network of terminals. Every
-- public method holds the mutex of the network for its changes, so each is one step on `Network`. The
-- terminals behind the pointers of `m_terminals` are values of a type `H` that `Host` describes,
-- `QVariant` is a type `Q` that `Variant` describes.
pub mod Attributes
pub mod Costs
pub mod Parsing
pub mod Terminals
pub mod Status
pub mod Routes
pub mod Paths
pub mod Search
pub mod Invariant
pub mod Runs
pub mod Segments
pub mod Batches
pub mod Graphs
pub mod Answers
use mathlib.Core.Option
use terminal_sim.Prelude.{
  ◌≡◌, ℕ, Bool, true, false, not, ◌&&◌, ◌||◌, Option, none, some, List, [], ◌∷◌, Text, text,
  text_eq, if◌then◌else◌, Eq, ◌==◌, any,
}
use terminal_sim.Prelude.Int.{ℤ}
use terminal_sim.Prelude.Maps
use terminal_sim.Prelude.Sets
use terminal_sim.Common.{Mode, Side, mode_eq, side_eq}
use terminal_sim.Graph.{EdgeKey, Graph, empty}
use terminal_sim.Reply.{Reply}

-- `QVariant`, as far as the network reads it. `texts` is `toStringList` of a value that converts to
-- one, `items` is `toList`, `entries` is `toMap`.
pub record Variant (Q T : Type 0) : Type 0 where
  pub is_text : Q → Bool
  pub to_text : Q → Text
  pub to_int : Q → Option ℤ
  pub to_double : Q → Option T
  pub of_double : T → Q
  pub texts : Q → Option (List Text)
  pub items : Q → Option (List Q)
  pub entries : Q → Option (List (Text × Q))
  pub of_entries : List (Text × Q) → Q
  -- `QVariant()`.
  pub null : Q

-- What the network asks of `Terminal`. `create` is its constructor, on the canonical name, the
-- display name, the interfaces and the custom configuration.
pub record Host (H Q T : Type 0) : Type 0 where
  pub create : Text → Text → List (Side × List Mode) → List (Text × Q) → Reply H
  pub name : H → Text
  pub interfaces : H → List (Side × List Mode)
  pub handling_time : H → T
  pub handling_cost : H → T
  pub container_count : H → ℕ
  pub available_capacity : H → ℤ
  pub max_capacity : H → ℤ
  pub reset : H → H

-- `TerminalDetails`.
pub record Details (T : Type 0) : Type 0 where
  pub handling_time : T
  pub handling_cost : T

pub record EdgeData (Q : Type 0) : Type 0 where
  pub route_id : Text
  pub mode : Mode
  pub attributes : List (Text × Q)

-- The fields `m_graph` to `m_defaultLinkAttributes`. Of the attributes of a node the code sets only
-- the region.
pub record Network (H Q T : Type 0) : Type 0 where
  pub graph : Graph Text T
  pub edge_data : List (EdgeKey Text × List (EdgeData Q))
  pub aliases : List (Text × Text)
  pub canonical_to_aliases : List (Text × List Text)
  pub terminals : List (Text × H)
  pub regions : List (Text × Text)
  pub terminal_data : List (Text × Details T)
  pub cost_weights : List (Text × Q)
  pub default_attributes : List (Text × Q)

module _ {H Q T : Type 0} where
  -- `getCanonicalName`.
  abbrev pub canonical_name : Network H Q T → Text → Text
  canonical_name n name = Maps.get_or name n.aliases name

  abbrev pub registered : Network H Q T → Text → Bool
  registered n canonical = Maps.has canonical n.terminals

  -- `terminalExists`.
  abbrev pub terminal_exists : Network H Q T → Text → Bool
  terminal_exists n name = registered n (canonical_name n name)

-- `isConcreteMode`.
abbrev pub is_concrete : Mode → Bool
is_concrete mode = mode == Mode.ship || mode == Mode.truck || mode == Mode.train

-- `interfaceSupportsMode`, the same test as `canModeUseInterface` of src/common/common.cpp.
abbrev pub interface_supports_mode : Side → Mode → Bool
interface_supports_mode side Mode.truck = side == Side.land_side
interface_supports_mode side Mode.train = side == Side.land_side
interface_supports_mode side Mode.ship = side == Side.sea_side
interface_supports_mode side Mode.any = false
