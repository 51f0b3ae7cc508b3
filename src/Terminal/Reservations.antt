-- ===== src/Terminal/Reservations.antt =====
-- `reserveContainers`, `commitContainerReservation` and `releaseContainerReservation` of
-- src/terminal/terminal.cpp. A call that throws leaves the terminal as it is, except a commit that
-- fails while it removes containers. The field "reason" of a blocked reservation is the constant
-- "service_capacity_exhausted" and is left out.
pub mod Ids
pub mod Consistent
pub mod Budget
pub mod Steps
pub mod Kept
pub mod Runs
pub mod Room
pub mod Spending
pub mod Retries
use terminal_sim.Prelude.{
  ℕ, Bool, true, false, not, Option, none, some, List, [], ◌∷◌, length, if◌then◌else◌, Text,
  text_eq,
}
use terminal_sim.Prelude.Maps
use terminal_sim.Prelude.Sets
use terminal_sim.Real.{Real}
use terminal_sim.Terminal.{
  Criteria, Env, EventType, Failure, Reply, Reservation, Response, Status, Terminal, ok, throws,
}
use terminal_sim.Terminal.Batches.{is_empty}
use terminal_sim.Terminal.Pickup.{
  containers_snapshot, depart, exhausted, remove_and_record, select_container_ids, within_capacity,
}

-- `m_reservedContainerIds.insert(id, rid)` for each id, and `remove(id)` for each.
unfoldable pub claim_all : Text → List Text → List (Text × Text) → List (Text × Text)
claim_all rid [] reserved = reserved
claim_all rid (id ∷ ids) reserved = claim_all rid ids (Maps.insert id rid reserved)

unfoldable pub unclaim_all : List Text → List (Text × Text) → List (Text × Text)
unclaim_all [] reserved = reserved
unclaim_all (id ∷ ids) reserved = unclaim_all ids (Maps.remove id reserved)

module _ {C : Type 0} where
  abbrev pub released_response : Text → Option ℕ → Response C
  released_response rid count = record {
    reservation_id = rid;
    status = Status.released;
    containers = [];
    container_count = 0;
    released_count = count;
  }

  abbrev pub active_response : Text → Reservation C → Response C
  active_response rid r = record {
    reservation_id = rid;
    status = Status.active;
    containers = r.snapshot;
    container_count = length r.container_ids;
    released_count = none;
  }

  abbrev pub blocked_response : Text → Response C
  blocked_response rid = record {
    reservation_id = rid;
    status = Status.blocked;
    containers = [];
    container_count = 0;
    released_count = none;
  }

  abbrev pub committed_response : Text → List C → Response C
  committed_response rid cs = record {
    reservation_id = rid;
    status = Status.committed;
    containers = cs;
    container_count = length cs;
    released_count = none;
  }

module _ {C S T : Type 0} where
  -- A reservation becomes active and claims its containers.
  unfoldable pub activate : Text → Reservation C → Terminal C S T → Terminal C S T
  activate rid reservation t = record t {
    reservations = Maps.insert rid reservation t.reservations;
    reserved_ids = claim_all rid reservation.container_ids t.reserved_ids;
  }

  -- An active reservation is dropped, and with it the claims on its containers.
  unfoldable pub drop : Text → List Text → Terminal C S T → Terminal C S T
  drop rid ids t = record t {
    reservations = Maps.remove rid t.reservations;
    reserved_ids = unclaim_all ids t.reserved_ids;
  }

  -- `m_containerReservations.take(rid)`: a missing reservation has no container.
  unfoldable pub ids_held : Text → Terminal C S T → List Text
  ids_held rid t = elim (Maps.lookup rid t.reservations) as (λ _. List Text) [
    | none ↦ []
    | some r ↦ r.container_ids
  ]

  unfoldable pub release : Text → Terminal C S T → Terminal C S T × Reply (Response C)
  release rid t = elim (Maps.lookup rid t.completed) as (λ _. Terminal C S T × Reply (Response C)) [
    | some response ↦ (t, ok response)
    | none ↦ (
      record (drop rid (ids_held rid t) t) { released = Sets.insert rid t.released },
      ok (released_response rid (some (length (ids_held rid t)))),
    )
  ]

  -- The end of `commitContainerReservation`: the answer is kept.
  unfoldable pub complete :
      Text → Terminal C S T × Reply (List C) → Terminal C S T × Reply (Response C)
  complete rid (t, throws f) = (t, throws f)
  complete rid (t, ok cs) = (
    record t { completed = Maps.insert rid (committed_response rid cs) t.completed },
    ok (committed_response rid cs),
  )

module _ {C S F T : Type 0} (env : Env C S F T) ⦃r : Real T⦄ where
  unfoldable pub release_reservation : Text → Terminal C S T → Terminal C S T × Reply (Response C)
  release_reservation reservation_id t =
      let rid = env.trimmed reservation_id in
      if is_empty rid then (t, throws Failure.invalid_argument) else release rid t

  -- `reserveContainers` from the capacity check on, for an id that no answer is kept for.
  unfoldable pub reserve_new :
      Text → Criteria F → Terminal C S T → Terminal C S T × Reply (Response C)
  reserve_new rid criteria t =
      let ids = select_container_ids env t (within_capacity env t criteria) true in
      let reservation : Reservation C = record {
        container_ids = ids;
        snapshot = containers_snapshot env t.storage ids;
      } in
      if exhausted env t
      then (t, ok (blocked_response rid))
      else (activate rid reservation t, ok (active_response rid reservation))

  unfoldable pub reserve : Text → Criteria F → Terminal C S T → Terminal C S T × Reply (Response C)
  reserve rid criteria t =
      elim (Maps.lookup rid t.completed) as (λ _. Terminal C S T × Reply (Response C)) [
        | some response ↦ (t, ok response)
        | none ↦
            if Sets.contains rid t.released
            then (t, ok (released_response rid none))
            else elim (Maps.lookup rid t.reservations)
                as (λ _. Terminal C S T × Reply (Response C)) [
                  | some reservation ↦ (t, ok (active_response rid reservation))
                  | none ↦ reserve_new rid criteria t
                ]
      ]

  unfoldable pub reserve_containers :
      Text → Criteria F → Terminal C S T → Terminal C S T × Reply (Response C)
  reserve_containers reservation_id criteria t =
      let rid = env.trimmed reservation_id in
      if is_empty rid then (t, throws Failure.invalid_argument) else reserve rid criteria t

  unfoldable pub commit : Text → T → Terminal C S T → Terminal C S T × Reply (Response C)
  commit rid time t =
      elim (Maps.lookup rid t.completed) as (λ _. Terminal C S T × Reply (Response C)) [
        | some response ↦ (t, ok response)
        | none ↦
            elim (Maps.lookup rid t.reservations) as (λ _. Terminal C S T × Reply (Response C)) [
              | none ↦
                  if Sets.contains rid t.released
                  then (t, ok (released_response rid none))
                  else (t, throws Failure.invalid_argument)
              | some reservation ↦ complete rid (
                  remove_and_record env reservation.container_ids EventType.pickup_departure time (
                    depart env (length reservation.container_ids)
                      (drop rid reservation.container_ids t)))
            ]
      ]

  unfoldable pub commit_reservation :
      Text → T → Terminal C S T → Terminal C S T × Reply (Response C)
  commit_reservation reservation_id time t =
      let rid = env.trimmed reservation_id in
      if is_empty rid then (t, throws Failure.invalid_argument) else commit rid time t
