-- ===== src/Prelude/Lists.antt =====
-- Lists measured by native numbers, and predicates on their items.
use Prim.Native.Nat.{ℕ, suc, ◌+◌}
use mathlib.Core.Path.{◌≡◌, refl, ap, subst, sym, ◌∙◌}
use mathlib.Core.Logic.{◌⊎◌, inl, inr, ◌↔◌, ⊎_elim}
use mathlib.Core.Bool.{Bool, true, false, ◌||◌, ◌&&◌}
use mathlib.Core.List.{List, [], ◌∷◌, ◌++◌, Memᴰ, reverse, reverse-cons}
use mathlib.Core.List.Memᴰ
use native.Mathlib.Omega.{arith}
use terminal_sim.Prelude.Tests.{if◌then◌else◌}

module _ {ℓ} {A : Type ℓ} where
  abbrev pub length : List A → ℕ
  length [] = 0
  length (_ ∷ xs) = suc (length xs)

  pub length-append : (xs ys : List A) → length (xs ++ ys) ≡ length xs + length ys
  length-append [] ys = omega arith
  length-append (x ∷ xs) ys = omega (arith, length-append xs ys)

  pub length-reverse : (xs : List A) → length (reverse xs) ≡ length xs
  length-reverse [] = refl
  length-reverse (x ∷ xs) =
      rw (reverse-cons x xs) (omega (arith, length-append (reverse xs) (x ∷ []), length-reverse xs))

  pub reverse-concat : (xs : List A) (x : A) → reverse (xs ++ x ∷ []) ≡ x ∷ reverse xs
  reverse-concat [] x = reverse-cons x []
  reverse-concat (y ∷ ys) x =
      reverse-cons y (ys ++ x ∷ [])
      ∙ ap (λ zs. zs ++ y ∷ []) (reverse-concat ys x)
      ∙ ap (◌∷◌ x) (sym (reverse-cons y ys))

  pub Memᴰ-cons : (a x : A) (xs : List A) → Memᴰ a (x ∷ xs) ↔ ((a ≡ x) ⊎ Memᴰ a xs)
  Memᴰ-cons a x xs = (Memᴰ.cases_cons, ⊎_elim Memᴰ.head Memᴰ.tail)

  pub Memᴰ-concat : (a x : A) (xs : List A) → Memᴰ a (xs ++ x ∷ []) ↔ (Memᴰ a xs ⊎ (a ≡ x))
  Memᴰ-concat a x xs = (
    λ m. ⊎_elim inl (λ last. inr (Memᴰ.eq_of_singleton last)) (Memᴰ.append_cases xs m),
    ⊎_elim (Memᴰ.append_left _) (λ e. Memᴰ.append_right xs (Memᴰ.head e)),
  )

  -- `std::any_of` and the loops that set a flag and break.
  unfoldable pub any : (A → Bool) → List A → Bool
  any p [] = false
  any p (x ∷ xs) = p x || any p xs

  -- `std::remove_if` with the test negated.
  unfoldable pub keep_if : (A → Bool) → List A → List A
  keep_if p [] = []
  keep_if p (x ∷ xs) = let rest = keep_if p xs in if p x then x ∷ rest else rest

  -- `std::find_if`, then `erase` of what it found.
  unfoldable pub erase_first : (A → Bool) → List A → List A
  erase_first p [] = []
  erase_first p (x ∷ xs) = let rest = erase_first p xs in if p x then xs else x ∷ rest

  pub any_intro : (p : A → Bool) {a : A} (xs : List A) → Memᴰ a xs → p a ≡ true → any p xs ≡ true
  unfolding any
  any_intro p [] m h = absurd (Memᴰ.not-nil m)
  any_intro p {a} (x ∷ xs) m h = elim (Memᴰ.cases_cons m) [
    | inl e ↦ let h' : p x ≡ true = subst (λ z. p z ≡ true) e h in ground arith
    | inr t ↦ ground (arith, any_intro p xs t h)
  ]

  pub any_elim : (p : A → Bool) (xs : List A) → any p xs ≡ true → (a : A) × Memᴰ a xs × (p a ≡ true)
  unfolding any
  any_elim p [] h = cc
  any_elim p (x ∷ xs) h =
      split (p x) refl (λ t. let (a, m, e) = any_elim p xs t in (a, Memᴰ.tail m, e))
    where
      split :
          (b : Bool)
          → p x ≡ b
          → (any p xs ≡ true → (a : A) × Memᴰ a (x ∷ xs) × (p a ≡ true))
          → (a : A) × Memᴰ a (x ∷ xs) × (p a ≡ true)
      split true e later = (x, Memᴰ.head refl, e)
      split false e later = later (ground arith)

  pub Memᴰ-keep_if :
      (p : A → Bool) (a : A) (xs : List A) → Memᴰ a (keep_if p xs) ↔ (Memᴰ a xs × (p a ≡ true))
  unfolding keep_if
  Memᴰ-keep_if p a [] = (λ m. absurd (Memᴰ.not-nil m), λ m. absurd (Memᴰ.not-nil m.0))
  Memᴰ-keep_if p a (x ∷ xs) = ground (
    arith,
    Memᴰ-keep_if p a xs,
    Memᴰ-cons a x xs,
    Memᴰ-cons a x (keep_if p xs),
    λ (e : a ≡ x). ap p e,
  )

  pub any-append : (p : A → Bool) (xs ys : List A) → any p (xs ++ ys) ≡ (any p xs || any p ys)
  unfolding any
  any-append p [] ys = refl
  any-append p (x ∷ xs) ys = ground (arith, any-append p xs ys)

  -- Where the items that pass `p` agree on `q`, dropping the others keeps what `any p` says.
  pub any-keep_if :
      (p q : A → Bool) (c : Bool) (xs : List A)
      → ((x : A) → p x ≡ true → q x ≡ c)
      → any p (keep_if q xs) ≡ (any p xs && c)
  unfolding any keep_if
  any-keep_if p q c [] h = refl
  any-keep_if p q c (x ∷ xs) h = ground (arith, h x, any-keep_if p q c xs h)

  -- Tests that agree on the items of a list agree on the list.
  pub any-congr :
      (p q : A → Bool) (xs : List A) → ((x : A) → Memᴰ x xs → p x ≡ q x) → any p xs ≡ any q xs
  unfolding any
  any-congr p q [] h = refl
  any-congr p q (x ∷ xs) h =
      ground (arith, h x (Memᴰ.head refl), any-congr p q xs (λ y m. h y (Memᴰ.tail m)))

  pub any-false :
      (p : A → Bool) (xs : List A) → ((x : A) → Memᴰ x xs → p x ≡ false) → any p xs ≡ false
  unfolding any
  any-false p [] h = refl
  any-false p (x ∷ xs) h =
      ground (arith, h x (Memᴰ.head refl), any-false p xs (λ y m. h y (Memᴰ.tail m)))

  pub any-false_elim :
      (p : A → Bool) {a : A} (xs : List A) → any p xs ≡ false → Memᴰ a xs → p a ≡ false
  any-false_elim p {a} xs h m = split (p a) refl
    where
      split : (b : Bool) → p a ≡ b → p a ≡ false
      split true e = cc (any_intro p xs m e)
      split false e = e

  pub keep_if-congr :
      (p q : A → Bool) (xs : List A)
      → ((x : A) → Memᴰ x xs → p x ≡ q x)
      → keep_if p xs ≡ keep_if q xs
  unfolding keep_if
  keep_if-congr p q [] h = refl
  keep_if-congr p q (x ∷ xs) h =
      ground (arith, h x (Memᴰ.head refl), keep_if-congr p q xs (λ y m. h y (Memᴰ.tail m)))

  pub keep_if-none :
      (q : A → Bool) (xs : List A) → ((x : A) → Memᴰ x xs → q x ≡ false) → keep_if q xs ≡ []
  unfolding keep_if
  keep_if-none q [] h = refl
  keep_if-none q (x ∷ xs) h =
      ground (arith, h x (Memᴰ.head refl), keep_if-none q xs (λ y m. h y (Memᴰ.tail m)))

  pub keep_if-all :
      (q : A → Bool) (xs : List A) → ((x : A) → Memᴰ x xs → q x ≡ true) → keep_if q xs ≡ xs
  unfolding keep_if
  keep_if-all q [] h = refl
  keep_if-all q (x ∷ xs) h =
      ground (arith, h x (Memᴰ.head refl), keep_if-all q xs (λ y m. h y (Memᴰ.tail m)))
