-- ===== src/Network/Attributes.antt =====
-- The attributes of routes and the parameters of the cost function in
-- src/terminal/terminal_graph.cpp: their keys, their defaults and their validation. The messages of
-- the exceptions are left out.
use terminal_sim.Prelude.{not, List, [], ◌∷◌, ◌++◌, Text, text, text_eq}
use terminal_sim.Prelude.Maps
use terminal_sim.Prelude.Sets
use terminal_sim.Common.{Mode, Qt, mode_value}
use terminal_sim.Real.{Real}
use terminal_sim.Reply.{Reply, ok, throws, require, or_throw, ◌>>=◌, ◌>>◌}
use terminal_sim.Network.{Network, Variant}

unfoldable pub route_attribute_keys : List Text
route_attribute_keys =
    text "cost"
    ∷ text "travelTime"
    ∷ text "distance"
    ∷ text "carbonEmissions"
    ∷ text "risk"
    ∷ text "energyConsumption"
    ∷ []

unfoldable pub cost_attribute_keys : List Text
cost_attribute_keys = route_attribute_keys ++ text "terminal_delay" ∷ text "terminal_cost" ∷ []

-- `QString::number(static_cast<int>(mode))`.
abbrev pub mode_key : Qt → Mode → Text
mode_key qt mode = qt.number (mode_value mode)

abbrev pub cost_modes : Qt → List Text
cost_modes qt =
    text "default" ∷ mode_key qt Mode.ship ∷ mode_key qt Mode.train ∷ mode_key qt Mode.truck ∷ []

module _ {Q T : Type 0} ⦃r : Real T⦄ (v : Variant Q T) where
  -- One for each key.
  unfoldable pub ones : List Text → List (Text × Q)
  ones [] = []
  ones (key ∷ keys) = (key, v.of_double (r.of_nat 1)) ∷ ones keys

  unfoldable pub default_link_attributes : List (Text × Q)
  default_link_attributes = ones route_attribute_keys

  unfoldable pub same_for_each : Q → List Text → List (Text × Q)
  same_for_each weights [] = []
  same_for_each weights (mode ∷ modes) = (mode, weights) ∷ same_for_each weights modes

  unfoldable pub default_cost_parameters : Qt → List (Text × Q)
  default_cost_parameters qt =
      same_for_each (v.of_entries (ones cost_attribute_keys)) (cost_modes qt)

  -- `numericAttributeValue`, then `validateNonNegative`.
  unfoldable pub numeric_value : Q → Reply T
  numeric_value q = do x ← or_throw (v.to_double q); require (r.is_finite x); ok x

  unfoldable pub non_negative_value : Q → Reply T
  non_negative_value q = do x ← numeric_value q; require (not (r.lt x (r.of_nat 0))); ok x

  -- The loop over the entries, then the loop over the required keys.
  unfoldable pub validate_entries :
      List Text → List (Text × Q) → List (Text × Q) → Reply (List (Text × Q))
  validate_entries allowed [] validated = ok validated
  validate_entries allowed (entry ∷ entries) validated = do
    require (Sets.contains entry.0 allowed)
    x ← non_negative_value entry.1
    validate_entries allowed entries (Maps.insert entry.0 (v.of_double x) validated)

  unfoldable pub require_keys : List Text → List (Text × Q) → Reply (Unit {0})
  require_keys [] validated = ok tt
  require_keys (key ∷ keys) validated =
      require (Maps.has key validated) >> require_keys keys validated

  unfoldable pub validated_attribute_map :
      List (Text × Q) → List Text → List Text → Reply (List (Text × Q))
  validated_attribute_map attrs allowed required = do
    validated ← validate_entries allowed attrs []
    require_keys required validated
    ok validated

  unfoldable pub override : List (Text × Q) → List (Text × Q) → List (Text × Q)
  override [] merged = merged
  override (entry ∷ entries) merged = override entries (Maps.insert entry.0 entry.1 merged)

  unfoldable pub validated_route_attributes :
      List (Text × Q) → List (Text × Q) → Reply (List (Text × Q))
  validated_route_attributes attrs defaults = do
    merged ← validated_attribute_map defaults route_attribute_keys route_attribute_keys
    overrides ← validated_attribute_map attrs route_attribute_keys []
    ok (override overrides merged)

  unfoldable pub known_modes : List Text → List (Text × Q) → Reply (Unit {0})
  known_modes modes [] = ok tt
  known_modes modes (entry ∷ entries) =
      require (Sets.contains entry.0 modes) >> known_modes modes entries

  unfoldable pub validate_modes : List Text → List (Text × Q) → Reply (Unit {0})
  validate_modes [] params = ok tt
  validate_modes (mode ∷ modes) params = do
    weights ← or_throw (Maps.lookup mode params)
    entries ← or_throw (v.entries weights)
    validated ← validated_attribute_map entries cost_attribute_keys cost_attribute_keys
    validate_modes modes params

  unfoldable pub validate_cost_parameters : Qt → List (Text × Q) → Reply (Unit {0})
  validate_cost_parameters qt params =
      known_modes (cost_modes qt) params >> validate_modes (cost_modes qt) params

  module _ {H : Type 0} where
    unfoldable pub set_cost_parameters :
        Qt → List (Text × Q) → Network H Q T → Network H Q T × Reply (Unit {0})
    set_cost_parameters qt params n =
        elim (validate_cost_parameters qt params) as (λ _. Network H Q T × Reply (Unit {0})) [
          | throws f ↦ (n, throws f)
          | ok _ ↦ (record n { cost_weights = params }, ok tt)
        ]

    unfoldable pub set_link_default_attributes :
        List (Text × Q) → Network H Q T → Network H Q T × Reply (Unit {0})
    set_link_default_attributes attrs n =
        elim (validated_attribute_map attrs route_attribute_keys route_attribute_keys)
          as (λ _. Network H Q T × Reply (Unit {0})) [
            | throws f ↦ (n, throws f)
            | ok validated ↦ (record n { default_attributes = validated }, ok tt)
          ]

    unfoldable pub reset_configuration : Qt → Network H Q T → Network H Q T
    reset_configuration qt n = record n {
      cost_weights = default_cost_parameters qt;
      default_attributes = default_link_attributes;
    }
