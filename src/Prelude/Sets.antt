-- ===== src/Prelude/Sets.antt =====
-- `std::set`, `std::unordered_set` and `QSet` as lists without repetition; their order is not read.
use mathlib.Core.Path.{◌≡◌, refl, ap}
use mathlib.Core.Bool.{Bool, false, ◌||◌, ◌&&◌}
use mathlib.Core.List.{List, [], ◌∷◌}
use native.Mathlib.Omega.{arith}
use terminal_sim.Prelude.Tests.{if◌then◌else◌}
use terminal_sim.Prelude.Lists.{keep_if}
use terminal_sim.Prelude.Keys.{Eq, ◌==◌}

module _ {ℓ} {A : Type ℓ} ⦃e : Eq A⦄ where
  unfoldable pub contains : A → List A → Bool
  contains a [] = false
  contains a (x ∷ xs) = x == a || contains a xs

  unfoldable pub insert : A → List A → List A
  unfolding contains
  insert a xs = if contains a xs then xs else a ∷ xs

  unfoldable pub remove : A → List A → List A
  remove a [] = []
  remove a (x ∷ xs) = let rest = remove a xs in if x == a then rest else x ∷ rest

  pub contains-cons : (a x : A) (xs : List A) → contains a (x ∷ xs) ≡ (x == a || contains a xs)
  unfolding contains
  contains-cons a x xs = refl

  pub contains-insert :
      (a b : A) (xs : List A) → contains b (insert a xs) ≡ (a == b || contains b xs)
  unfolding insert
  contains-insert a b xs = ground (arith, e.same_iff a b, contains-cons b a xs)

  pub contains-remove :
      (a b : A) (xs : List A) → contains b (remove a xs) ≡ (if a == b then false else contains b xs)
  unfolding contains remove
  contains-remove a b [] = ground arith
  contains-remove a b (x ∷ xs) =
      ground (arith, e.same_iff a b, e.same_iff x a, e.same_iff x b, contains-remove a b xs)

  pub contains-keep_if :
      (p : A → Bool) (a : A) (xs : List A) → contains a (keep_if p xs) ≡ (contains a xs && p a)
  unfolding contains keep_if
  contains-keep_if p a [] = refl
  contains-keep_if p a (x ∷ xs) =
      ground (arith, e.same_iff x a, contains-keep_if p a xs, λ (h : x ≡ a). ap p h)
