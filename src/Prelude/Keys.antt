-- ===== src/Prelude/Keys.antt =====
-- The equality test of a key or value type, as an interface.
use mathlib.Core.Path.{◌≡◌, refl}
use mathlib.Core.Logic.{◌↔◌}
use mathlib.Core.Bool.{Bool, true, false, ◌&&◌}
use mathlib.Core.List.{List, [], ◌∷◌}
use native.Mathlib.Omega.{arith}
use Prim.Native.Char.{code}
use Prim.Native.Nat.{ℕ}
use Prim.Native.String.{String}
use terminal_sim.Prelude.Tests.{nat_beq, nat_beq_iff}

pub record Eq {ℓ} (A : Type ℓ) : Type ℓ where
  pub same_key : A → A → Bool
  pub same_iff : (a b : A) → (same_key a b ≡ true) ↔ (a ≡ b)

instance abbrev pub nat_eq : Eq ℕ
nat_eq = record { same_key = nat_beq; same_iff = nat_beq_iff }

infix 50 ◌==◌
abbrev pub ◌==◌ {ℓ} : {K : Type ℓ} ⦃keys : Eq K⦄ (a b : K) → Bool
◌==◌ ⦃keys⦄ a b = keys.same_key a b

pub ==_refl {ℓ} : {A : Type ℓ} ⦃e : Eq A⦄ (a : A) → (a == a) ≡ true
==_refl ⦃e⦄ a = (e.same_iff a a).1 refl

pub eq_of {ℓ} : {A : Type ℓ} ⦃e : Eq A⦄ (a b : A) → (a == b) ≡ true → a ≡ b
eq_of ⦃e⦄ a b = (e.same_iff a b).0

-- Texts are lists of codes.
abbrev pub Text : Type 0
Text = List ℕ

-- The codes of the characters of a constant of the source.
abbrev pub text : String → Text
text String.[] = []
text (String.◌∷◌ letter letters) = code letter ∷ text letters

unfoldable pub text_beq : Text → Text → Bool
text_beq [] [] = true
text_beq (a ∷ s) (b ∷ t) = nat_beq a b && text_beq s t
text_beq _ _ = false

pub text_beq_iff : (s t : Text) → (text_beq s t ≡ true) ↔ (s ≡ t)
unfolding text_beq
text_beq_iff [] [] = ground arith
text_beq_iff [] (b ∷ t) = ground arith
text_beq_iff (a ∷ s) [] = ground arith
text_beq_iff (a ∷ s) (b ∷ t) = ground (arith, nat_beq_iff a b, text_beq_iff s t)

instance abbrev pub text_eq : Eq Text
text_eq = record { same_key = text_beq; same_iff = text_beq_iff }

-- `operator==` of vectors.
unfoldable pub list_beq {ℓ} : {A : Type ℓ} ⦃e : Eq A⦄ → List A → List A → Bool
list_beq [] [] = true
list_beq (a ∷ s) (b ∷ t) = a == b && list_beq s t
list_beq _ _ = false

pub list_beq_iff {ℓ} : {A : Type ℓ} ⦃e : Eq A⦄ (s t : List A) → (list_beq s t ≡ true) ↔ (s ≡ t)
unfolding list_beq
list_beq_iff [] [] = ground arith
list_beq_iff [] (b ∷ t) = ground arith
list_beq_iff (a ∷ s) [] = ground arith
list_beq_iff ⦃e⦄ (a ∷ s) (b ∷ t) = ground (arith, e.same_iff a b, list_beq_iff s t)
