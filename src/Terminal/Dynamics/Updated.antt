-- ===== src/Terminal/Dynamics/Updated.antt =====
-- What `updateSystemDynamics` changes: the state of the dynamics, and nothing else.
use terminal_sim.Prelude.{◌≡◌, refl, not, ◌||◌, if_elim}
use terminal_sim.Real.{Real}
use terminal_sim.Terminal.{DynamicsState, Env, Reply, Terminal, ok, throws}
use terminal_sim.Terminal.Dynamics.{
  update_system_dynamics, refresh_service_capacity_budget, measured,
}

module _ {C S F T : Type 0} (env : Env C S F T) ⦃r : Real T⦄ where
  abbrev Only : Terminal C S T → Terminal C S T → Type 0
  Only t u = (d : DynamicsState T) × (u ≡ record t { dynamics = d })

  answered :
      (t : Terminal C S T) (s : DynamicsState T) (d : DynamicsState T) (a : Reply (Unit {0}))
      → Only t
          (elim a as (λ _. Terminal C S T × Reply (Unit {0})) [
            | throws f ↦ (record t { dynamics = s }, throws f)
            | ok _ ↦ (record t { dynamics = d }, ok tt)
          ]).0
  answered t s d (throws f) = (s, refl)
  answered t s d (ok _) = (d, refl)

  pub update_system_dynamics-dynamics :
      (now step : T) (t : Terminal C S T) → Only t (update_system_dynamics env now step t).0
  unfolding update_system_dynamics
  update_system_dynamics-dynamics now step t =
      if_elim (λ (x : Terminal C S T × Reply (Unit {0})). Only t x.0) (not t.params.enabled)
        (λ _. (t.dynamics, refl))
        (λ _.
          if_elim (λ (x : Terminal C S T × Reply (Unit {0})). Only t x.0)
            (not (r.is_finite now) || not (r.is_finite step) || r.le step (r.of_nat 0))
            (λ _. (t.dynamics, refl))
            (λ _.
              answered t _ _
                (refresh_service_capacity_budget t.params (measured env now step t)).1))
