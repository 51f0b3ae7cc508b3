-- ===== src/Weight.antt =====
-- What src/graph asks of `WeightType`: zero, `+`, `<`, `==` and `numeric_limits::max()`.
use terminal_sim.Prelude.{
  ℕ, ◌+◌, ◌≡◌, ◌↔◌, Bool, true, false, arith, ltb, inl, inr, Bool-cases, nat_beq, nat_beq_iff,
}

pub record Weight (W : Type 0) : Type 0 where
  pub nought : W
  pub infinity : W
  pub add : W → W → W
  pub lt : W → W → Bool
  pub same : W → W → Bool

infix 4 ◌≼◌
-- `x <= y`, as the negation of `y < x`.
abbrev pub ◌≼◌ : {W : Type 0} ⦃w : Weight W⦄ → W → W → Type 0
◌≼◌ ⦃w⦄ x y = w.lt y x ≡ false

-- The order of the weights that are not NaN. Sums are not assumed to be associative: `+` of
-- floating-point numbers is monotone, and adding a weight that is not negative never lowers a sum.
pub record IsOrdered (W : Type 0) ⦃w : Weight W⦄ : Type 0 where
  pub same_iff : (a b : W) → (w.same a b ≡ true) ↔ (a ≡ b)
  pub le_refl : (a : W) → a ≼ a
  pub le_trans : (a b c : W) → a ≼ b → b ≼ c → a ≼ c
  pub le_antisymm : (a b : W) → a ≼ b → b ≼ a → a ≡ b
  pub le_of_lt : (a b : W) → w.lt a b ≡ true → a ≼ b
  pub add_mono : (a b c : W) → a ≼ b → w.add a c ≼ w.add b c
  pub le-add : (a c : W) → w.nought ≼ c → a ≼ w.add a c
  pub nought-lt-infinity : w.lt w.nought w.infinity ≡ true

module _ {W : Type 0} ⦃w : Weight W⦄ (laws : IsOrdered W) where
  pub lt_of_lt_of_le : (a b c : W) → w.lt a b ≡ true → b ≼ c → w.lt a c ≡ true
  lt_of_lt_of_le a b c h k = elim (Bool-cases (w.lt a c)) [
    | inl t ↦ t
    | inr f ↦ cc (h, laws.le_trans b c a k f)
  ]

  pub lt_of_le_of_lt : (a b c : W) → a ≼ b → w.lt b c ≡ true → w.lt a c ≡ true
  lt_of_le_of_lt a b c h k = elim (Bool-cases (w.lt a c)) [
    | inl t ↦ t
    | inr f ↦ cc (k, laws.le_trans c a b f h)
  ]

-- The laws can be met: whole numbers, with a number beyond every weight in use for infinity.
instance abbrev pub nat_weight : Weight ℕ
nat_weight = record {
  nought = 0;
  infinity = 1_000_000_000;
  add = λ a b. a + b;
  lt = ltb;
  same = nat_beq;
}

pub nat-IsOrdered : IsOrdered ℕ
nat-IsOrdered = record {
  same_iff = nat_beq_iff;
  le_refl = λ a. ground arith;
  le_trans = λ a b c h k. ground arith;
  le_antisymm = λ a b h k. ground arith;
  le_of_lt = λ a b h. ground arith;
  add_mono = λ a b c h. ground arith;
  le-add = λ a c h. ground arith;
  nought-lt-infinity = ground arith;
}
