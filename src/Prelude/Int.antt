-- ===== src/Prelude/Int.antt =====
-- Signed integers over the native numbers: `negsuc n` is -(n + 1).
use Prim.Native.Nat.{ℕ, ◌+◌, ◌-◌}
use mathlib.Core.Bool.{Bool, true, false}
use terminal_sim.Prelude.Tests.{if◌then◌else◌, leb, ltb, nat_beq}

pub data ℤ : Type 0 where
  pos : ℕ → ℤ
  negsuc : ℕ → ℤ

-- The part of an integer that is not negative.
abbrev pub to_nat : ℤ → ℕ
to_nat (pos n) = n
to_nat (negsuc n) = 0

-- `==` and `<` with a number that is not negative.
abbrev pub is_nat : ℤ → ℕ → Bool
is_nat (pos m) n = nat_beq m n
is_nat (negsuc m) n = false

abbrev pub less_nat : ℤ → ℕ → Bool
less_nat (pos m) n = ltb m n
less_nat (negsuc m) n = true

abbrev pub minus_nat : ℤ → ℕ → ℤ
minus_nat (pos m) n = if leb n m then pos (m - n) else negsuc (n - m - 1)
minus_nat (negsuc m) n = negsuc (m + n)
