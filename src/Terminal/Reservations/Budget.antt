-- ===== src/Terminal/Reservations/Budget.antt =====
-- The service capacity of a time step, and what has departed and is promised in it.
use terminal_sim.Prelude.{
  ℕ, ◌+◌, ◌≤◌, ◌<◌, ◌≡◌, refl, true, false, Option, none, some, List, [], ◌∷◌, Text, text_eq, arith,
  if_elim, length, ltb,
}
use terminal_sim.Prelude.Maps
use terminal_sim.Prelude.Sets
use terminal_sim.Real.{Real}
use terminal_sim.Terminal.{Batch, Env, Reservation, Response, Reply, Terminal, Criteria, EventType}
use terminal_sim.Terminal.Dynamics.{remaining_service_capacity}
use terminal_sim.Terminal.Pickup.{
  capped, depart, exhausted, remove_and_record, select_container_ids, within_capacity,
  containers_snapshot,
}
use terminal_sim.Terminal.Pickup.Selection.{ids_of, length-select_from, select_from-no_repeat}
use terminal_sim.Terminal.Pickup.Removed.{remove_and_record-Touches}
use terminal_sim.Terminal.Reservations.{activate, drop, ids_held, reserve_new}
use terminal_sim.Terminal.Reservations.Ids.{
  all_in, no_repeat, length-claim_all, length-unclaim_all, length-unclaim_all_exact,
}
use terminal_sim.Terminal.Reservations.Consistent.{Consistent, holds, claims}

all_in_intro :
    (m : List (Text × Text)) (ids : List Text)
    → ((c : Text) → Sets.contains c ids ≡ true → Maps.has c m ≡ true)
    → all_in m ids ≡ true
unfolding all_in Sets.contains
all_in_intro m [] h = refl
all_in_intro m (id ∷ ids) h = ground (
  arith,
  h id (ground (arith, text_eq.same_iff id id)),
  all_in_intro m ids (λ c k. h c (ground (arith, k))),
)

module _ {C S T : Type 0} where
  -- In a step that may serve `b` containers: those that left and those that are reserved are at
  -- most `b`, and no reservation lists a container twice.
  pub record Budget (b : ℕ) (t : Terminal C S T) : Type 0 where
    pub enabled : t.params.enabled ≡ true
    pub capacity : t.dynamics.service_capacity_this_step ≤ b
    pub spent : t.dynamics.departures_this_step + length t.reserved_ids ≤ b
    pub tidy : (rid : Text) → no_repeat (ids_held rid t) ≡ true

  held_all_in :
      (rid : Text) (t : Terminal C S T)
      → Consistent t
      → all_in t.reserved_ids (ids_held rid t) ≡ true
  unfolding holds claims
  held_all_in rid t k =
      all_in_intro t.reserved_ids (ids_held rid t)
        (λ c h. ground (arith, h, k.agree rid c, Maps.has-lookup c t.reserved_ids))

  -- Dropping a reservation gives back as much as it held.
  pub drop-length :
      (b : ℕ) (rid : Text) (t : Terminal C S T)
      → Consistent t
      → Budget b t
      → length (drop rid (ids_held rid t) t).reserved_ids + length (ids_held rid t)
        ≤ length t.reserved_ids
  unfolding drop
  drop-length b rid t k h =
      length-unclaim_all_exact (ids_held rid t) t.reserved_ids (h.tidy rid) (held_all_in rid t k)

  pub drop-Budget :
      (b : ℕ) (rid : Text) (ids : List Text) (t : Terminal C S T)
      → Budget b t
      → Budget b (drop rid ids t)
  unfolding drop ids_held no_repeat
  drop-Budget b rid ids t h = record {
    enabled = h.enabled;
    capacity = h.capacity;
    spent = ground (arith, h.spent, length-unclaim_all ids t.reserved_ids);
    tidy = λ o. ground (arith, h.tidy o, Maps.lookup-remove rid o t.reservations);
  }

  activate-Budget :
      (b : ℕ) (rid : Text) (x : Reservation C) (t : Terminal C S T)
      → Budget b t
      → no_repeat x.container_ids ≡ true
      → t.dynamics.departures_this_step + length t.reserved_ids + length x.container_ids ≤ b
      → Budget b (activate rid x t)
  unfolding activate ids_held
  activate-Budget b rid x t h once fits = record {
    enabled = h.enabled;
    capacity = h.capacity;
    spent = ground (arith, fits, length-claim_all rid x.container_ids t.reserved_ids);
    tidy = λ o. ground (arith, h.tidy o, once, Maps.lookup-insert rid o x t.reservations);
  }

capped_lem :
    (limit : Option ℕ) (remaining : ℕ) → (n : ℕ) × (capped limit remaining ≡ some n) × n ≤ remaining
unfolding capped
capped_lem none remaining = (remaining, refl, ground arith)
capped_lem (some limit) remaining =
    if_elim (λ o. (n : ℕ) × (o ≡ some n) × n ≤ remaining) (ltb remaining limit)
      (λ _. (remaining, refl, ground arith)) (λ h. (limit, refl, ground arith))

-- `getContainers` lists no container twice.
abbrev pub ListsOnce : {C S F T : Type 0} → Env C S F T → Type 0
ListsOnce {C} {S} {F} {T} env = (s : S) (f : F) → no_repeat (ids_of env (env.matching s f)) ≡ true

module _ {C S F T : Type 0} (env : Env C S F T) ⦃r : Real T⦄ where
  within_capacity-limit :
      (criteria : Criteria F) (t : Terminal C S T)
      → t.params.enabled ≡ true
      → (n : ℕ) × ((within_capacity env t criteria).limit ≡ some n)
        × n ≤ remaining_service_capacity env t
  unfolding within_capacity
  within_capacity-limit criteria t on =
      simp on (capped_lem criteria.limit (remaining_service_capacity env t))

  -- What fits into the remaining capacity fits into the budget.
  remaining_lem :
      (b n : ℕ) (t : Terminal C S T)
      → Budget b t
      → exhausted env t ≡ false
      → n ≤ remaining_service_capacity env t
      → t.dynamics.departures_this_step + length t.reserved_ids + n ≤ b
  unfolding remaining_service_capacity
  remaining_lem b n t h open_ small = ground (arith, h.enabled, h.capacity, open_, small)

  positive :
      (b : ℕ) (t : Terminal C S T)
      → Budget b t
      → exhausted env t ≡ false
      → 0 < remaining_service_capacity env t
  positive b t h open_ = ground (arith, h.enabled, open_)

  -- A selection under the remaining capacity fits into it.
  pub selected_fits :
      (b : ℕ) (criteria : Criteria F) (t : Terminal C S T)
      → Budget b t
      → exhausted env t ≡ false
      → t.dynamics.departures_this_step
          + length t.reserved_ids
          + length (select_container_ids env t (within_capacity env t criteria) true)
        ≤ b
  unfolding select_container_ids
  selected_fits b criteria t h open_ =
      let c = within_capacity env t criteria in
      let rem = remaining_service_capacity env t in
      let (n, is, small) = within_capacity-limit criteria t h.enabled in
      remaining_lem b (length (select_container_ids env t c true)) t h open_ (
        rw is (
          length-select_from env t.reserved_ids true n rem [] (env.matching t.storage c.filter)
            (positive b t h open_) small))

  refit-Budget :
      (b : ℕ) (t : Terminal C S T) (s : S) (d : List (Text × List (Batch T)))
      → Budget b t
      → Budget b (record t { storage = s; batches = d })
  unfolding ids_held
  refit-Budget b t s d h = record {
    enabled = h.enabled;
    capacity = h.capacity;
    spent = h.spent;
    tidy = h.tidy;
  }

  depart-Budget :
      (b n : ℕ) (t : Terminal C S T)
      → Budget b t
      → t.dynamics.departures_this_step + length t.reserved_ids + n ≤ b
      → Budget b (depart env n t)
  unfolding ids_held
  depart-Budget b n t h fits =
      if_elim (λ (u : Terminal C S T). Budget b u) t.params.enabled
        (λ _. record {
          enabled = h.enabled;
          capacity = h.capacity;
          spent = fits_swapped;
          tidy = h.tidy;
        })
        (λ _. h)
    where
      fits_swapped : t.dynamics.departures_this_step + n + length t.reserved_ids ≤ b
      fits_swapped = omega arith

  pub removed-Budget :
      (b : ℕ) (ids : List Text) (type : EventType) (time : T) (n : ℕ) (t : Terminal C S T)
      → Budget b t
      → t.dynamics.departures_this_step + length t.reserved_ids + n ≤ b
      → Budget b (remove_and_record env ids type time (depart env n t)).0
  removed-Budget b ids type time n t h fits =
      let (s, d, same) = remove_and_record-Touches env ids type time (depart env n t) in
      rw same (refit-Budget b (depart env n t) s d (depart-Budget b n t h fits))

  selected_once :
      (c : Criteria F) (t : Terminal C S T)
      → ListsOnce env
      → no_repeat (select_container_ids env t c true) ≡ true
  unfolding select_container_ids
  selected_once c t once =
      select_from-no_repeat env t.reserved_ids true c.limit [] (env.matching t.storage c.filter)
        (once t.storage c.filter)

  pub reserve_new-Budget :
      (b : ℕ) (rid : Text) (criteria : Criteria F) (t : Terminal C S T)
      → ListsOnce env
      → Budget b t
      → Budget b (reserve_new env rid criteria t).0
  unfolding reserve_new
  reserve_new-Budget b rid criteria t once h =
      let c = within_capacity env t criteria in
      let ids = select_container_ids env t c true in
      let made : Reservation C = record {
        container_ids = ids;
        snapshot = containers_snapshot env t.storage ids;
      } in
      if_elim (λ (x : Terminal C S T × Reply (Response C)). Budget b x.0) (exhausted env t) (λ _. h)
        (λ open_.
          activate-Budget b rid made t h (selected_once c t once)
            (selected_fits b criteria t h open_))
