-- ===== src/Prelude/Maps.antt =====
-- `std::unordered_map`, `QHash` and `QMap` as association lists: `insert` is `m[k] = v`, and the
-- order in which the pairs stand is not part of what a map is.
use mathlib.Core.Path.{◌≡◌, refl, sym, ap, ◌∙◌}
use mathlib.Core.Bool.{Bool, true, false}
use mathlib.Core.List.{List, [], ◌∷◌}
use mathlib.Core.Option.{Option, none, some}
use native.Mathlib.Omega.{arith}
use terminal_sim.Prelude.Tests.{if◌then◌else◌}
use terminal_sim.Prelude.Keys.{Eq, ◌==◌}

module _ {ℓ κ} {K : Type ℓ} {V : Type κ} ⦃e : Eq K⦄ where
  unfoldable pub lookup : K → List (K × V) → Option V
  lookup key [] = none
  lookup key (pair ∷ pairs) = if pair.0 == key then some pair.1 else lookup key pairs

  unfoldable pub has : K → List (K × V) → Bool
  has k [] = false
  has k ((j, v) ∷ m) = if j == k then true else has k m

  unfoldable pub insert : K → V → List (K × V) → List (K × V)
  insert k v [] = (k, v) ∷ []
  insert k v ((j, w) ∷ m) = let rest = insert k v m in if j == k then (k, v) ∷ m else (j, w) ∷ rest

  unfoldable pub remove : K → List (K × V) → List (K × V)
  remove k [] = []
  remove k ((j, w) ∷ m) = let rest = remove k m in if j == k then rest else (j, w) ∷ rest

  -- `m.value(k, d)`.
  unfoldable pub get_or : K → List (K × V) → V → V
  get_or k [] d = d
  get_or k ((j, v) ∷ m) d = if j == k then v else get_or k m d

  pub lookup-insert :
      (set at : K) (value : V) (pairs : List (K × V))
      → lookup at (insert set value pairs) ≡ (if set == at then some value else lookup at pairs)
  unfolding lookup insert
  lookup-insert set at value [] = refl
  lookup-insert set at value (pair ∷ pairs) =
      let rest = lookup-insert set at value pairs in
      ground (arith, rest, e.same_iff set at, e.same_iff pair.0 set, e.same_iff pair.0 at)

  pub lookup-remove :
      (k j : K) (m : List (K × V)) → lookup j (remove k m) ≡ (if k == j then none else lookup j m)
  unfolding lookup remove
  lookup-remove k j [] = ground arith
  lookup-remove k j ((i, w) ∷ m) =
      ground (arith, e.same_iff k j, e.same_iff i k, e.same_iff i j, lookup-remove k j m)

  pub has-insert :
      (k j : K) (v : V) (m : List (K × V))
      → has j (insert k v m) ≡ (if k == j then true else has j m)
  unfolding has insert
  has-insert k j v [] = refl
  has-insert k j v ((i, w) ∷ m) =
      ground (arith, e.same_iff k j, e.same_iff i k, e.same_iff i j, has-insert k j v m)

  -- A key that is there stays the only new one.
  pub has-insert_present :
      (k j : K) (v : V) (m : List (K × V)) → has k m ≡ true → has j (insert k v m) ≡ has j m
  has-insert_present k j v m there = split (k == j) (e.same_iff k j).0 (has-insert k j v m)
    where
      split :
          (b : Bool)
          → (b ≡ true → k ≡ j)
          → has j (insert k v m) ≡ (if b then true else has j m)
          → has j (insert k v m) ≡ has j m
      split true same h = h ∙ sym there ∙ ap (λ i. has i m) (same refl)
      split false same h = h

  pub has-remove :
      (k j : K) (m : List (K × V)) → has j (remove k m) ≡ (if k == j then false else has j m)
  unfolding has remove
  has-remove k j [] = ground arith
  has-remove k j ((i, w) ∷ m) =
      ground (arith, e.same_iff k j, e.same_iff i k, e.same_iff i j, has-remove k j m)

  pub has-lookup :
      (k : K) (m : List (K × V))
      → has k m ≡ elim (lookup k m) as (λ _. Bool) [ none ↦ false | some _ ↦ true ]
  unfolding has lookup
  has-lookup k [] = refl
  has-lookup k ((i, w) ∷ m) = ground (arith, has-lookup k m)

  pub get_or-lookup :
      (k : K) (m : List (K × V)) (d : V)
      → get_or k m d ≡ elim (lookup k m) as (λ _. V) [ none ↦ d | some v ↦ v ]
  unfolding get_or lookup
  get_or-lookup k [] d = refl
  get_or-lookup k ((i, w) ∷ m) d = ground (arith, get_or-lookup k m d)

  pub get_or_missing : (k : K) (m : List (K × V)) (d : V) → has k m ≡ false → get_or k m d ≡ d
  unfolding get_or has
  get_or_missing k [] d h = refl
  get_or_missing k ((i, w) ∷ m) d h = ground (arith, get_or_missing k m d)

  pub get_or-insert :
      (k j : K) (v d : V) (m : List (K × V))
      → get_or j (insert k v m) d ≡ (if k == j then v else get_or j m d)
  unfolding get_or insert
  get_or-insert k j v d [] = refl
  get_or-insert k j v d ((i, w) ∷ m) =
      ground (arith, e.same_iff k j, e.same_iff i k, e.same_iff i j, get_or-insert k j v d m)

  unfoldable pub map_values : (V → V) → List (K × V) → List (K × V)
  map_values f [] = []
  map_values f ((j, v) ∷ m) = (j, f v) ∷ map_values f m

  pub has-map_values : (f : V → V) (k : K) (m : List (K × V)) → has k (map_values f m) ≡ has k m
  unfolding has map_values
  has-map_values f k [] = refl
  has-map_values f k ((j, v) ∷ m) = ground (arith, has-map_values f k m)

  pub get_or-map_values :
      (f : V → V) (k : K) (m : List (K × V)) (d : V)
      → f d ≡ d
      → get_or k (map_values f m) d ≡ f (get_or k m d)
  unfolding get_or map_values
  get_or-map_values f k [] d h = sym h
  get_or-map_values f k ((j, v) ∷ m) d h = ground (arith, get_or-map_values f k m d h)

  pub get_or-remove :
      (k j : K) (d : V) (m : List (K × V))
      → get_or j (remove k m) d ≡ (if k == j then d else get_or j m d)
  unfolding get_or remove
  get_or-remove k j d [] = ground arith
  get_or-remove k j d ((i, w) ∷ m) =
      ground (arith, e.same_iff k j, e.same_iff i k, e.same_iff i j, get_or-remove k j d m)
