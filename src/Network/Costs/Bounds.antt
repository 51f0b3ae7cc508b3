-- ===== src/Network/Costs/Bounds.antt =====
-- The costs that `computeCost` of src/terminal/terminal_graph.cpp returns are not negative.
use terminal_sim.Prelude.{◌≡◌, false, not, List, [], ◌∷◌, Text, text_eq, subst, arith}
use terminal_sim.Prelude.Maps
use terminal_sim.Prelude.Sets
use terminal_sim.Common.{Mode, Qt}
use terminal_sim.Real.{Real}
use terminal_sim.Weight.{Weight, IsOrdered}
use terminal_sim.Reply.{ok, ok_inj, require-ok, or_throw, >>=-ok}
use terminal_sim.Network.{Variant}
use terminal_sim.Network.Attributes.{cost_attribute_keys, non_negative_value, numeric_value}
use terminal_sim.Network.Costs.{compute_cost, sum_costs, weights_of}

-- The graph's weights are `double`.
abbrev pub weight_of_real : {T : Type 0} → Real T → Weight T
weight_of_real r = record {
  nought = r.of_nat 0;
  infinity = r.greatest;
  add = r.add;
  lt = r.lt;
  same = r.same;
}

-- The order of the numbers that are not NaN, under which a product of numbers that are not negative
-- is not negative.
pub record IsOrderedReal (T : Type 0) ⦃r : Real T⦄ : Type 0 where
  pub order : IsOrdered T ⦃w = weight_of_real r⦄
  pub mul_nonneg :
      (a b : T)
      → r.lt a (r.of_nat 0) ≡ false
      → r.lt b (r.of_nat 0) ≡ false
      → r.lt (r.mul a b) (r.of_nat 0) ≡ false

module _ {Q T : Type 0} ⦃r : Real T⦄ (laws : IsOrderedReal T) (v : Variant Q T) (qt : Qt) where
  value_bound : (q : Q) (x : T) → non_negative_value v q ≡ ok x → r.lt x (r.of_nat 0) ≡ false
  unfolding non_negative_value
  value_bound q x h =
      let (y, read, h1) = >>=-ok (numeric_value v q) _ h in
      let (fine, h2) = require-ok (not (r.lt y (r.of_nat 0))) _ h1 in
      subst (λ z. r.lt z (r.of_nat 0) ≡ false) (ok_inj h2) (ground arith)

  sum_bound :
      (weights params : List (Text × Q)) (cost total : T)
      → sum_costs v qt weights params cost ≡ ok total
      → r.lt cost (r.of_nat 0) ≡ false
      → r.lt total (r.of_nat 0) ≡ false
  unfolding sum_costs
  sum_bound weights [] cost total h k = subst (λ z. r.lt z (r.of_nat 0) ≡ false) (ok_inj h) k
  sum_bound weights (entry ∷ params) cost total h k =
      let (known, h1) = require-ok (Sets.contains entry.0 cost_attribute_keys) _ h in
      let (weight, given, h2) = >>=-ok (or_throw (Maps.lookup entry.0 weights)) _ h1 in
      let (value, read, h3) = >>=-ok (non_negative_value v entry.1) _ h2 in
      let (factor, weighed, h4) = >>=-ok (non_negative_value v weight) _ h3 in
      let part =
        laws.mul_nonneg factor value (value_bound weight factor weighed)
          (value_bound entry.1 value read) in
      sum_bound weights params (r.add cost (r.mul factor value)) total h4 (
        laws.order.le_trans (r.of_nat 0) cost (r.add cost (r.mul factor value)) k
          (laws.order.le-add cost (r.mul factor value) part))

  pub compute_cost-bound :
      (params weights : List (Text × Q)) (mode : Mode) (total : T)
      → compute_cost v qt params weights mode ≡ ok total
      → r.lt total (r.of_nat 0) ≡ false
  unfolding compute_cost
  compute_cost-bound params weights mode total h =
      sum_bound (weights_of v qt weights mode) params (r.of_nat 0) total h
        (laws.order.le_refl (r.of_nat 0))
