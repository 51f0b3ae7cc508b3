-- ===== src/Terminal/Reservations/Steps.antt =====
-- The public operations on a terminal's runtime state as steps, and what every run of them keeps.
use terminal_sim.Prelude.{Bool, Text, text_eq}
use terminal_sim.Real.{Real}
use terminal_sim.Common.{Mode}
use terminal_sim.Terminal.Arrivals.{Draws, add_container, add_containers}
use terminal_sim.Prelude.{List}
use terminal_sim.Terminal.{Semantics}
use terminal_sim.Terminal.{Env, Terminal, Criteria}
use terminal_sim.Terminal.Dynamics.{update_system_dynamics, reset_runtime_state}
use terminal_sim.Terminal.Pickup.{dequeue_containers}
use terminal_sim.Terminal.Reservations.{release_reservation, reserve_containers, commit_reservation}

module _ {C S F T : Type 0} (env : Env C S F T) ⦃r : Real T⦄ where
  -- The operations that hand out containers or promise them.
  pub data Service : Terminal C S T → Terminal C S T → Type 0 where
    reserves :
        (rid : Text) (criteria : Criteria F) (t : Terminal C S T)
        → Service t (reserve_containers env rid criteria t).0
    commits :
        (rid : Text) (time : T) (t : Terminal C S T)
        → Service t (commit_reservation env rid time t).0
    releases : (rid : Text) (t : Terminal C S T) → Service t (release_reservation env rid t).0
    dequeues :
        (criteria : Criteria F) (time : T) (t : Terminal C S T)
        → Service t (dequeue_containers env criteria time t).0

  pub data Step : Terminal C S T → Terminal C S T → Type 0 where
    serves : (t u : Terminal C S T) → Service t u → Step t u
    updates : (now step : T) (t : Terminal C S T) → Step t (update_system_dynamics env now step t).0
    resets :
        (clear_records : Bool) (t : Terminal C S T)
        → Step t (reset_runtime_state env clear_records t).0
    arrives :
        (d : Draws T) (c : C) (time : T) (mode : Mode) (semantics : Semantics) (t : Terminal C S T)
        → Step t (add_container env d c time mode semantics t).0
    all_arrive :
        (cs : List (Draws T × C)) (time : T) (mode : Mode) (semantics : Semantics)
        (t : Terminal C S T)
        → Step t (add_containers env cs time mode semantics t).0

  pub data Run : Terminal C S T → Terminal C S T → Type 0 where
    stays : (t : Terminal C S T) → Run t t
    goes : (t u v : Terminal C S T) → Step t u → Run u v → Run t v
