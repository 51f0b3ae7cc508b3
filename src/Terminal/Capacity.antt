-- ===== src/Terminal/Capacity.antt =====
-- The capacity checks and the costs of src/terminal/terminal.cpp.
use terminal_sim.Prelude.{ℕ, ◌+◌, Bool, true, false, ◌&&◌, none, some, if◌then◌else◌, nat_eq}
use terminal_sim.Prelude.Int.{ℤ, pos, negsuc, is_nat, less_nat, minus_nat}
use terminal_sim.Real.{Real}
use terminal_sim.Terminal.{Amount, Env, Terminal}
use terminal_sim.Terminal.Dynamics.{int_max}

-- The texts of `checkCapacityStatusInternal`; the numbers in them are left out.
pub data Notice : Type 0 where
  fine exceeds_max exceeds_critical warning : Notice

-- The value of an `int`.
abbrev of_int : {T : Type 0} ⦃r : Real T⦄ → ℤ → T
of_int ⦃r⦄ (pos n) = r.of_nat n
of_int ⦃r⦄ (negsuc n) = r.sub (r.of_nat 0) (r.of_nat (n + 1))

module _ {C S F T : Type 0} (env : Env C S F T) ⦃r : Real T⦄ where
  unfoldable pub critical_limit : Terminal C S T → T
  critical_limit t = r.mul (of_int t.max_capacity) t.critical_threshold

  -- `checkCapacityStatusInternal`.
  unfoldable pub check_capacity_status : ℕ → Terminal C S T → Bool × Notice
  check_capacity_status additional t =
      let count = env.size t.storage + additional in
      if is_nat t.max_capacity int_max
      then (true, Notice.fine)
      else if less_nat t.max_capacity count
      then (false, Notice.exceeds_max)
      else if r.lt t.critical_threshold (r.of_nat 0)
      then (true, Notice.fine)
      else if r.lt (critical_limit t) (r.of_nat count)
      then (false, Notice.exceeds_critical)
      else if r.lt (r.mul (critical_limit t) (r.div (r.of_nat 9) (r.of_nat 10))) (r.of_nat count)
      then (true, Notice.warning)
      else (true, Notice.fine)

  -- `getAvailableCapacity`.
  unfoldable pub get_available_capacity : Terminal C S T → ℤ
  get_available_capacity t =
      if is_nat t.max_capacity int_max
      then pos int_max
      else minus_nat t.max_capacity (env.size t.storage)

  -- `estimateContainerCostInternal` of a container.
  unfoldable pub estimate_container_cost : C → Bool → Terminal C S T → T
  estimate_container_cost c customs_applied t =
      let fixed =
        if r.lt (r.of_nat 0) t.config.fixed_cost
        then r.add (r.of_nat 0) t.config.fixed_cost
        else r.of_nat 0 in
      let with_customs =
        if customs_applied && r.lt (r.of_nat 0) t.config.customs_cost
        then r.add fixed t.config.customs_cost
        else fixed in
      elim (env.number_variable c Amount.dollar_value) as (λ _. T) [
        | none ↦ with_customs
        | some value ↦
            if r.lt (r.of_nat 0) t.config.risk_factor
            then r.add with_customs (r.mul value t.config.risk_factor)
            else with_customs
      ]
