-- ===== src/Network/Costs.antt =====
-- `computeCost` and `buildPathSegment` of src/terminal/terminal_graph.cpp, and the segment of
-- src/terminal/terminal_path_segment.h. A map is summed in the order of its list.
pub mod Bounds
use mathlib.Core.Option
use terminal_sim.Prelude.{ℕ, Bool, List, [], ◌∷◌, Text, text, text_eq, if◌then◌else◌}
use terminal_sim.Prelude.Maps
use terminal_sim.Prelude.Sets
use terminal_sim.Common.{Mode, Qt}
use terminal_sim.Real.{Real}
use terminal_sim.Reply.{Reply, ok, require, or_throw, ◌>>=◌, ◌>>◌}
use terminal_sim.Network.{Details, Network, Variant}
use terminal_sim.Network.Attributes.{cost_attribute_keys, mode_key, non_negative_value}

-- `PathSegment`; `fromTerminalId` and `toTerminalId` repeat `from` and `to`.
pub record Segment (Q T : Type 0) : Type 0 where
  pub from : Text
  pub to : Text
  pub mode : Mode
  pub sequence_index : ℕ
  pub estimated_values : List (Text × Q)
  pub estimated_cost : List (Text × T)
  pub weighted_edge_cost : T
  pub weighted_terminal_cost : T
  pub ranking_cost : T
  pub weight : T

module _ {T : Type 0} ⦃r : Real T⦄ where
  abbrev pub no_details : Details T
  no_details = record { handling_time = r.of_nat 0; handling_cost = r.of_nat 0 }

  -- `m_terminalData[name]`.
  abbrev pub details_of : List (Text × Details T) → Text → Details T
  details_of known name = Maps.get_or name known no_details

-- What a segment has to be told besides its edge.
pub record Position : Type 0 where
  pub sequence_index : ℕ
  pub is_start : Bool
  pub is_end : Bool
  pub skip_start : Bool
  pub skip_end : Bool

module _ {Q T : Type 0} ⦃r : Real T⦄ (v : Variant Q T) (qt : Qt) where
  -- The weights of a mode, those under "default" if it has none of its own.
  unfoldable pub weights_of : List (Text × Q) → Mode → List (Text × Q)
  weights_of weights mode =
      let chosen =
        Maps.get_or (mode_key qt mode) weights (Maps.get_or (text "default") weights v.null) in
      Option.get_or (v.entries chosen) []

  -- The loop of `computeCost`, on the sum so far.
  unfoldable pub sum_costs : List (Text × Q) → List (Text × Q) → T → Reply T
  sum_costs weights [] cost = ok cost
  sum_costs weights (entry ∷ entries) cost = do
    require (Sets.contains entry.0 cost_attribute_keys)
    weight ← or_throw (Maps.lookup entry.0 weights)
    value ← non_negative_value v entry.1
    factor ← non_negative_value v weight
    sum_costs weights entries (r.add cost (r.mul factor value))

  unfoldable pub compute_cost : List (Text × Q) → List (Text × Q) → Mode → Reply T
  compute_cost params weights mode = sum_costs (weights_of weights mode) params (r.of_nat 0)

  -- The parameters of the cost function for a route between two terminals.
  unfoldable pub cost_params : List (Text × Q) → Details T → Details T → List (Text × Q)
  cost_params attributes a b =
      Maps.insert (text "terminal_cost") (v.of_double (r.add a.handling_cost b.handling_cost)) (
        Maps.insert (text "terminal_delay") (v.of_double (r.add a.handling_time b.handling_time))
          attributes)

  -- The cost of one attribute, `params[key]`.
  unfoldable pub attribute_cost : List (Text × Q) → List (Text × Q) → Mode → Text → Reply T
  attribute_cost attributes weights mode key =
      compute_cost ((key, Maps.get_or key attributes v.null) ∷ []) weights mode

  -- The share of a segment in a cost at one of its ends: nothing if it is skipped, all of it at the
  -- end of the path, else half.
  unfoldable pub terminal_share :
      List (Text × Q) → Mode → (skipped at_end : Bool) → Text → T → Reply T
  terminal_share weights mode skipped at_end key x = do
    cost ←
        (if skipped then ok (r.of_nat 0) else compute_cost ((key, v.of_double x) ∷ []) weights mode)
    ok (if at_end then cost else r.div cost (r.of_nat 2))

  unfoldable pub build_path_segment :
      {H : Type 0}
      → Network H Q T
      → Position
      → Text
      → Text
      → Mode
      → List (Text × Q)
      → Reply (Segment Q T)
  build_path_segment n at from to mode attributes = do
    let a = details_of n.terminal_data from
    let b = details_of n.terminal_data to
    let params = cost_params attributes a b
    let weights = n.cost_weights
    carbon ← attribute_cost params weights mode (text "carbonEmissions")
    direct ← attribute_cost params weights mode (text "cost")
    distance ← attribute_cost params weights mode (text "distance")
    energy ← attribute_cost params weights mode (text "energyConsumption")
    risk ← attribute_cost params weights mode (text "risk")
    travel ← attribute_cost params weights mode (text "travelTime")
    delay_before ←
        terminal_share weights mode at.skip_start at.is_start (text "terminal_delay")
          a.handling_time
    cost_before ←
        terminal_share weights mode at.skip_start at.is_start (text "terminal_cost") a.handling_cost
    delay_after ←
        terminal_share weights mode at.skip_end at.is_end (text "terminal_delay") b.handling_time
    cost_after ←
        terminal_share weights mode at.skip_end at.is_end (text "terminal_cost") b.handling_cost
    let edge_cost = r.add (r.add (r.add (r.add (r.add carbon direct) distance) energy) risk) travel
    let terminal_cost = r.add (r.add (r.add delay_before cost_before) delay_after) cost_after
    ok (record {
      from = from;
      to = to;
      mode = mode;
      sequence_index = at.sequence_index;
      estimated_values = attributes;
      estimated_cost =
          (text "carbonEmissions", carbon)
          ∷ (text "cost", direct)
          ∷ (text "distance", distance)
          ∷ (text "energyConsumption", energy)
          ∷ (text "risk", risk)
          ∷ (text "travelTime", travel)
          ∷ (text "previousTerminalDelay", delay_before)
          ∷ (text "previousTerminalCost", cost_before)
          ∷ (text "nextTerminalDelay", delay_after)
          ∷ (text "nextTerminalCost", cost_after)
          ∷ [];
      weighted_edge_cost = edge_cost;
      weighted_terminal_cost = terminal_cost;
      ranking_cost = r.add edge_cost terminal_cost;
      weight = r.add edge_cost terminal_cost;
    })
