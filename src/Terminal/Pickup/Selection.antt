-- ===== src/Terminal/Pickup/Selection.antt =====
-- What `selectContainerIdsForPickupLocked` may select.
use terminal_sim.Prelude.{
  ◌∙◌, ℕ, suc, ◌≤◌, ◌<◌, ◌≡◌, refl, ap, Bool, true, false, ◌||◌, Option, none, some, List, [], ◌∷◌,
  ◌++◌, length, Text, text_eq, arith, length-append,
}
use terminal_sim.Prelude.Maps
use terminal_sim.Prelude.Sets
use terminal_sim.Terminal.{Env}
use terminal_sim.Terminal.Pickup.{select_from, reached}
use terminal_sim.Terminal.Reservations.Ids.{no_repeat}

module _ {C S F T : Type 0} (env : Env C S F T) where
  -- The ids of the containers of a list, without its missing pointers.
  unfoldable pub ids_of : List (Option C) → List Text
  ids_of [] = []
  ids_of (none ∷ cs) = ids_of cs
  ids_of (some c ∷ cs) = env.container_id c ∷ ids_of cs

  pub length-select_from :
      (reserved : List (Text × Text)) (exclude : Bool) (limit bound : ℕ) (selected : List Text)
      (cs : List (Option C))
      → length selected < bound
      → limit ≤ bound
      → length (select_from env reserved exclude (some limit) selected cs) ≤ bound
  unfolding select_from reached
  length-select_from reserved exclude limit bound selected [] low under = omega arith
  length-select_from reserved exclude limit bound selected (none ∷ cs) low under =
      length-select_from reserved exclude limit bound selected cs low under
  length-select_from reserved exclude limit bound selected (some c ∷ cs) low under =
      let id = env.container_id c in
      let longer : length (selected ++ id ∷ []) ≡ suc (length selected) =
        ground (arith, length-append selected (id ∷ [])) in
      ground (
        arith,
        length-select_from reserved exclude limit bound selected cs low under,
        length-select_from reserved exclude limit bound (selected ++ id ∷ []) cs,
        longer,
      )

  contains-append :
      (c : Text) (xs ys : List Text)
      → Sets.contains c (xs ++ ys) ≡ (Sets.contains c xs || Sets.contains c ys)
  unfolding Sets.contains
  contains-append c [] ys = refl
  contains-append c (x ∷ xs) ys = ground (arith, contains-append c xs ys)

  contains_nil : (c : Text) → Sets.contains c [] ≡ false
  unfolding Sets.contains
  contains_nil c = refl

  pub select_from-unreserved :
      (reserved : List (Text × Text)) (limit : Option ℕ) (selected : List Text)
      (cs : List (Option C)) (c : Text)
      → Sets.contains c (select_from env reserved true limit selected cs) ≡ true
      → Sets.contains c selected ≡ false
      → Maps.has c reserved ≡ false
  unfolding select_from
  select_from-unreserved reserved limit selected [] c m fresh = ground arith
  select_from-unreserved reserved limit selected (none ∷ cs) c m fresh =
      select_from-unreserved reserved limit selected cs c m fresh
  select_from-unreserved reserved limit selected (some d ∷ cs) c m fresh =
      let id = env.container_id d in
      ground (
        arith,
        select_from-unreserved reserved limit selected cs c,
        select_from-unreserved reserved limit (selected ++ id ∷ []) cs c,
        contains-append c selected (id ∷ []),
        Sets.contains-cons c id [],
        contains_nil c,
        text_eq.same_iff id c,
        λ (p : id ≡ c). ap (λ k. Maps.has k reserved) p,
      )

  no_repeat-skip :
      (xs : List Text) (x : Text) (ys : List Text)
      → no_repeat (xs ++ x ∷ ys) ≡ true
      → no_repeat (xs ++ ys) ≡ true
  unfolding no_repeat Sets.contains
  no_repeat-skip [] x ys h = ground arith
  no_repeat-skip (z ∷ xs) x ys h =
      ground (arith, no_repeat-skip xs x ys, contains-append z xs ys, contains-append z xs (x ∷ ys))

  no_repeat-prefix : (xs ys : List Text) → no_repeat (xs ++ ys) ≡ true → no_repeat xs ≡ true
  unfolding no_repeat
  no_repeat-prefix [] ys h = refl
  no_repeat-prefix (z ∷ xs) ys h = ground (arith, no_repeat-prefix xs ys, contains-append z xs ys)

  append_assoc : (xs ys zs : List Text) → (xs ++ ys) ++ zs ≡ xs ++ (ys ++ zs)
  append_assoc [] ys zs = refl
  append_assoc (x ∷ xs) ys zs = ap (◌∷◌ x) (append_assoc xs ys zs)

  pub select_from-no_repeat :
      (reserved : List (Text × Text)) (exclude : Bool) (limit : Option ℕ) (selected : List Text)
      (cs : List (Option C))
      → no_repeat (selected ++ ids_of cs) ≡ true
      → no_repeat (select_from env reserved exclude limit selected cs) ≡ true
  unfolding select_from ids_of
  select_from-no_repeat reserved exclude limit selected [] h = no_repeat-prefix selected [] h
  select_from-no_repeat reserved exclude limit selected (none ∷ cs) h =
      select_from-no_repeat reserved exclude limit selected cs h
  select_from-no_repeat reserved exclude limit selected (some c ∷ cs) h =
      let id = env.container_id c in
      let moved : no_repeat ((selected ++ id ∷ []) ++ ids_of cs) ≡ true =
        ap no_repeat (append_assoc selected (id ∷ []) (ids_of cs)) ∙ h in
      ground (
        arith,
        select_from-no_repeat reserved exclude limit selected cs,
        select_from-no_repeat reserved exclude limit (selected ++ id ∷ []) cs,
        no_repeat-skip selected id (ids_of cs),
        no_repeat-prefix (selected ++ id ∷ []) (ids_of cs),
        moved,
        h,
      )
