-- ===== src/Terminal/Pickup/Removed.antt =====
-- What `removeContainersAndRecordPickupLocked` changes and what it leaves alone.
use terminal_sim.Prelude.{
  inl, inr, ◌≡◌, refl, ◌∙◌, false, none, List, [], ◌∷◌, if◌then◌else◌, Text, text_eq, ◌==◌, arith,
  Option-cases,
}
use terminal_sim.Prelude.Sets
use terminal_sim.Common.{Mode}
use terminal_sim.Real.{Real}
use terminal_sim.Terminal.{Batch, Env, EventType, Metadata, Terminal}
use terminal_sim.Terminal.Batches.{extract_handling_metadata}
use terminal_sim.Terminal.Pickup.{Removal, remove_and_record, remove_each, take_one}

-- `removeContainerByID(d)` takes out the container of the id `d` and no other.
abbrev pub ErasesOne : {C S F T : Type 0} → Env C S F T → Type 0
ErasesOne env =
    (d c : Text) (s : _) → env.by_id (env.erase d s) c ≡ (if d == c then none else env.by_id s c)

module _ {C S F T : Type 0} (env : Env C S F T) ⦃r : Real T⦄ where
  -- Only the store and the records change.
  abbrev pub Touches : Terminal C S T → Terminal C S T → Type 0
  Touches t u =
      (s : S) × (b : List (Text × List (Batch T))) × (u ≡ record t { storage = s; batches = b })

  pub remove_and_record-Touches :
      (ids : List Text) (type : EventType) (time : T) (t : Terminal C S T)
      → Touches t (remove_and_record env ids type time t).0
  unfolding remove_and_record
  remove_and_record-Touches ids type time t =
      elim (Option-cases
        (remove_each env t time (record { storage = t.storage; taken = []; groups = [] }) ids).1) [
          | inl h ↦ rw (h, remove_and_record) (_, _, refl)
          | inr (f, h) ↦ rw (h, remove_and_record) (_, _, refl)
        ]

  -- A container whose id is not listed stays, whether the loop ends or fails.
  pub remove_each-kept :
      (t : Terminal C S T) (time : T) (c : Text)
      → ErasesOne env
      → (x : Removal C S T) (ids : List Text) → Sets.contains c ids ≡ false
      → env.by_id (remove_each env t time x ids).0.storage c ≡ env.by_id x.storage c
  unfolding remove_each Sets.contains take_one
  remove_each-kept t time c one x [] h = refl
  remove_each-kept t time c one x (id ∷ ids) h =
      let other : (id == c) ≡ false = ground (arith, h) in
      let rest : Sets.contains c ids ≡ false = ground (arith, h) in
      elim (Option-cases (env.by_id x.storage id)) [
        | inl gone ↦ rw (gone, remove_each) (remove_each-kept t time c one x ids rest)
        | inr (d, found) ↦ elim (Option-cases (extract_handling_metadata env t d Mode.any)) [
          | inl bad ↦ rw (found, bad, remove_each) refl
          | inr (m, good) ↦
              rw (found, good, remove_each)
                (remove_each-kept t time c one (take_one env t time id d m x) ids rest
                  ∙ erased c id d m x one other)
        ]
      ]
    where
      erased :
          (c id : Text) (d : C) (m : Metadata) (x : Removal C S T)
          → ErasesOne env
          → (id == c) ≡ false
          → env.by_id (take_one env t time id d m x).storage c ≡ env.by_id x.storage c
      erased c id d m x one other = one id c x.storage ∙ (rw other refl)
