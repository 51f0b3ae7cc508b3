-- ===== src/Terminal/Creation.antt =====
-- The constructor of src/terminal/terminal.cpp, on the custom configuration of a terminal. The store
-- that it opens and `QVariant::isNull` and `toBool` are arguments.
use mathlib.Core.Option
use terminal_sim.Prelude.{
  ℕ, ◌||◌, ◌&&◌, not, Bool, false, none, some, List, [], ◌∷◌, Text, text, text_eq, if◌then◌else◌,
}
use terminal_sim.Prelude.Int.{ℤ, pos}
use terminal_sim.Prelude.Maps
use terminal_sim.Real.{Real}
use terminal_sim.Reply.{Reply, ok, ◌>>◌}
use terminal_sim.Network.{Variant}
use terminal_sim.Terminal.{Config, DynamicsParams, DynamicsState, Terminal}
use terminal_sim.Terminal.Batches.{is_empty}
use terminal_sim.Terminal.Dynamics.{initial_state, int_max, refresh_service_capacity_budget}

module _ {Q T : Type 0} ⦃r : Real T⦄ (v : Variant Q T) (is_null to_bool : Q → Bool) where
  abbrev tenths : ℕ → T
  tenths n = r.div (r.of_nat n) (r.of_nat 10)

  -- `config.value(key).toMap()`.
  abbrev pub map_at : Text → List (Text × Q) → List (Text × Q)
  map_at key config = Option.get_or (v.entries (Maps.get_or key config v.null)) []

  -- `toDouble()`, and `value(key, given).toDouble()`.
  abbrev number_of : Q → T
  number_of q = Option.get_or (v.to_double q) (r.of_nat 0)

  unfoldable pub number_or : T → Text → List (Text × Q) → T
  number_or given key m = elim (Maps.lookup key m) as (λ _. T) [
    | none ↦ given
    | some q ↦ number_of q
  ]

  unfoldable pub max_capacity_of : List (Text × Q) → ℤ
  max_capacity_of capacity = elim (Maps.lookup (text "max_capacity") capacity) as (λ _. ℤ) [
    | none ↦ pos int_max
    | some q ↦ if is_null q then pos int_max else Option.get_or (v.to_int q) (pos 0)
  ]

  -- Without a threshold it is -1.
  unfoldable pub critical_threshold_of : List (Text × Q) → T
  critical_threshold_of capacity =
      elim (Maps.lookup (text "critical_threshold") capacity) as (λ _. T) [
        | none ↦ tenths 9
        | some q ↦ if is_null q then r.sub (r.of_nat 0) (r.of_nat 1) else number_of q
      ]

  -- A parameter of the dwell time is left.
  unfoldable pub has_parameter : List (Text × Q) → Bool
  has_parameter [] = false
  has_parameter (entry ∷ entries) = not (is_null entry.1) || has_parameter entries

  unfoldable pub config_of : List (Text × Q) → Config T
  config_of config =
      let dwell_time = map_at (text "dwell_time") config in
      let customs = map_at (text "customs") config in
      let cost = map_at (text "cost") config in
      record {
        dwell_configured =
            not (is_empty (v.to_text (Maps.get_or (text "method") dwell_time v.null)))
            && has_parameter (map_at (text "parameters") dwell_time);
        customs_probability = number_or (r.of_nat 0) (text "probability") customs;
        customs_delay_mean = number_or (r.of_nat 0) (text "delay_mean") customs;
        customs_cost = number_or (r.of_nat 0) (text "customs_fees") cost;
        fixed_cost = number_or (r.of_nat 0) (text "fixed_fees") cost;
        risk_factor = number_or (r.of_nat 0) (text "risk_factor") cost;
      }

  unfoldable pub dynamics_params_of : List (Text × Q) → DynamicsParams T
  dynamics_params_of m = record {
    enabled = elim (Maps.lookup (text "enabled") m) as (λ _. Bool) [
      | none ↦ false
      | some q ↦ to_bool q
    ];
    critical_utilization = number_or (tenths 7) (text "critical_utilization") m;
    congestion_exponent = number_or (r.of_nat 2) (text "congestion_exponent") m;
    congestion_sensitivity = number_or (r.of_nat 1) (text "congestion_sensitivity") m;
    delay_sensitivity = number_or (tenths 5) (text "delay_sensitivity") m;
    max_service_rate = number_or (r.of_nat 100) (text "max_service_rate") m;
    ship_delay = record {
      alpha = number_or (tenths 5) (text "ship_delay_alpha") m;
      beta = number_or (tenths 25) (text "ship_delay_beta") m;
    };
    truck_delay = record {
      alpha = number_or (tenths 3) (text "truck_delay_alpha") m;
      beta = number_or (r.of_nat 2) (text "truck_delay_beta") m;
    };
    train_delay = record {
      alpha = number_or (tenths 8) (text "train_delay_alpha") m;
      beta = number_or (r.of_nat 3) (text "train_delay_beta") m;
    };
    ship_arrival_penalty = number_or (r.of_nat 14_400) (text "ship_arrival_penalty") m;
    truck_arrival_penalty = number_or (r.of_nat 1_800) (text "truck_arrival_penalty") m;
    train_arrival_penalty = number_or (r.of_nat 7_200) (text "train_arrival_penalty") m;
  }

  -- The state where the dynamics are enabled, and where they are not.
  unfoldable pub first_state : DynamicsParams T → DynamicsState T × Reply (Unit {0})
  first_state p =
      if p.enabled
      then refresh_service_capacity_budget p (record initial_state {
        service_capacity = p.max_service_rate;
        delay_multiplier = r.of_nat 1;
      })
      else (initial_state, ok tt)

  -- `Terminal::Terminal` with the maps of `addTerminalInternal`.
  unfoldable pub create_terminal :
      {C S : Type 0} → (Text → S) → Text → List (Text × Q) → Reply (Terminal C S T)
  create_terminal opened name config =
      let capacity = map_at (text "capacity") config in
      let params = dynamics_params_of (map_at (text "system_dynamics") config) in
      (first_state params).1
      >> ok (record {
        name = name;
        max_capacity = max_capacity_of capacity;
        critical_threshold = critical_threshold_of capacity;
        config = config_of config;
        storage = opened name;
        params = params;
        dynamics = (first_state params).0;
        batches = [];
        reservations = [];
        reserved_ids = [];
        completed = [];
        released = [];
      })
