-- ===== src/Real.antt =====
-- What the terminal asks of `double`. No law is assumed here: a theorem that needs one names it.
use terminal_sim.Prelude.{ℕ, Bool}

pub record Real (T : Type 0) : Type 0 where
  -- The value of a whole number; 0.9 is 9 / 10.
  pub of_nat : ℕ → T
  pub add : T → T → T
  pub sub : T → T → T
  pub mul : T → T → T
  pub div : T → T → T
  pub pow : T → T → T
  pub floor : T → T
  -- `static_cast<int>` of a value that is not negative.
  pub whole : T → ℕ
  pub lt : T → T → Bool
  pub le : T → T → Bool
  pub same : T → T → Bool
  pub is_finite : T → Bool
  pub is_nan : T → Bool
  -- `std::numeric_limits<double>::max()`.
  pub greatest : T
