-- ===== src/Terminal/Arrivals/Room.antt =====
-- Arrivals and the capacity of a terminal.
use terminal_sim.Prelude.{
  ℕ, suc, ◌+◌, ◌≤◌, ◌≡◌, Bool, true, false, List, Text, text_eq, arith, if_elim, nat_eq, inl, inr,
  Bool-cases,
}
use terminal_sim.Common.{Mode}
use terminal_sim.Prelude.Int.{is_nat, less_nat, to_nat}
use terminal_sim.Real.{Real}
use terminal_sim.Terminal.{Env, Handling, Reply, Semantics, Terminal}
use terminal_sim.Terminal.Dynamics.{int_max}
use terminal_sim.Terminal.Capacity.{check_capacity_status}
use terminal_sim.Terminal.Arrivals.Keeps.{add_containers_keeps}
use terminal_sim.Terminal.Arrivals.{Draws, add_containers, handle_arrival}

-- `addContainer` of the store adds at most one container.
abbrev pub AddsAtMostOne : {C S F T : Type 0} → Env C S F T → Type 0
AddsAtMostOne {C} {S} {F} {T} env =
    (id : Text) (c : C) (arrival departure : T) (s : S)
    → env.size (env.added id c arrival departure s) ≤ suc (env.size s)

-- A terminal with a limit holds at most so many containers, and none if the limit is negative.
abbrev pub WithinLimit : {C S F T : Type 0} → Env C S F T → Terminal C S T → Type 0
WithinLimit env t =
    is_nat t.max_capacity int_max ≡ false → env.size t.storage ≤ to_nat t.max_capacity

bump : {n k limit : ℕ} → n ≤ suc k → k + 1 ≤ limit → n ≤ limit
bump h room = omega arith

module _ {C S F T : Type 0} (env : Env C S F T) ⦃r : Real T⦄ where
  room_for :
      (n : ℕ) (t : Terminal C S T)
      → (check_capacity_status env n t).0 ≡ true
      → is_nat t.max_capacity int_max ≡ false
      → env.size t.storage + n ≤ to_nat t.max_capacity
  unfolding check_capacity_status
  room_for n t h limited = elim (Bool-cases (less_nat t.max_capacity (env.size t.storage + n))) [
    | inl over ↦ ground (arith, h, limited, over)
    | inr fits ↦ ground (arith, fits)
  ]

  pub handle_arrival-WithinLimit :
      (d : Draws T) (c : C) (time : T) (mode : Mode) (runtime : Bool) (t : Terminal C S T)
      → AddsAtMostOne env
      → WithinLimit env t
      → WithinLimit env (handle_arrival env d c time mode runtime t).0
  unfolding handle_arrival
  handle_arrival-WithinLimit d c time mode runtime t one h =
      if_elim (λ (x : Terminal C S T × Reply (Handling T)). WithinLimit env x.0)
        (check_capacity_status env 1 t).0
        (λ room limited. bump (one _ _ _ _ t.storage) (room_for 1 t room limited)) (λ _. h)

  -- `addContainers` never fills a terminal beyond its capacity, whichever container makes it fail,
  -- if the store's insertion adds at most one container and the terminal is within its capacity
  -- before. A capacity of the greatest `int` is no limit.
  pub add_containers-WithinLimit :
      (cs : List (Draws T × C)) (time : T) (mode : Mode) (semantics : Semantics)
      (t : Terminal C S T)
      → AddsAtMostOne env
      → WithinLimit env t
      → WithinLimit env (add_containers env cs time mode semantics t).0
  add_containers-WithinLimit cs time mode semantics t one h =
      add_containers_keeps env (WithinLimit env)
        (λ d c at by runtime u. handle_arrival-WithinLimit d c at by runtime u one) (λ u b k. k) cs
        time mode semantics t h
