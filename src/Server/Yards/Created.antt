-- ===== src/Server/Yards/Created.antt =====
-- The server with the constructor and the methods of src/terminal/terminal.cpp.
use terminal_sim.Prelude.{◌≡◌, refl, ap, ◌∙◌, subst, ℕ, Bool, List, [], Text, text}
use terminal_sim.Real.{Real}
use terminal_sim.Reply.{ok, >>=-ok, ok_inj}
use terminal_sim.Network.Runs.{new_network}
use terminal_sim.Terminal.{Env, Terminal}
use terminal_sim.Terminal.Arrivals.{Draws}
use terminal_sim.Terminal.Creation.{create_terminal, dynamics_params_of, first_state, map_at}
use terminal_sim.Terminal.Reservations.Consistent.{Consistent}
use terminal_sim.Server.{SelectionCriteria, Setting}
use terminal_sim.Server.Messages.{Moment, serve}
use terminal_sim.Server.Messages.Terminals.{AllTerminals}
use terminal_sim.Server.Yards.{Output, host_of_terminals, with_terminals}
use terminal_sim.Prelude.{nat_eq, text_eq, arith}
use terminal_sim.Prelude.Maps
use terminal_sim.Prelude.Sets
use terminal_sim.Terminal.Arrivals.Room.{AddsAtMostOne, WithinLimit}
use terminal_sim.Terminal.Reservations.{ids_held}
use terminal_sim.Terminal.Reservations.Consistent.{claims, holds, refit-Consistent}
use terminal_sim.Terminal.Reservations.Room.{Removes, Step-WithinLimit}
use terminal_sim.Terminal.Reservations.Runs.{Step-Consistent}
use terminal_sim.Server.Yards.Steps.{serve-P}

-- A terminal that was made holds no reservation and remembers none.
abbrev pub HasNoReservations : {C S T : Type 0} → Terminal C S T → Type 0
HasNoReservations t =
    (t.reservations ≡ []) × (t.reserved_ids ≡ []) × (t.completed ≡ []) × (t.released ≡ [])

none-Consistent : {C S T : Type 0} (t : Terminal C S T) → HasNoReservations t → Consistent t
unfolding holds claims ids_held Maps.has Maps.get_or Maps.lookup Sets.contains
none-Consistent t h = record {
  agree = λ rid c. rw (h.0, h.1) refl;
  not_completed = λ rid e. rw h.0 refl;
  not_released = λ rid e. rw h.0 refl;
  never_both = λ rid e. rw h.2 refl;
}

module _ {C S K Q T : Type 0} ⦃r : Real T⦄ (env : Env C S (SelectionCriteria K Q T) T)
    (out : Output C S K Q T) (draw : Terminal C S T → ℕ → Draws T) (opened : Text → S)
    (is_null : Q → Bool) (s : Setting C (Terminal C S T) K Q T) where
  open s use {variant, json}

  -- The terminals are made by their constructor.
  unfoldable pub with_created : Setting C (Terminal C S T) K Q T
  with_created = record s {
    host = record s.host {
      create = λ name display sides config.
          create_terminal variant is_null json.to_bool opened name config;
    };
  }

  -- What the constructor returns, of a name and a configuration.
  create-built :
      (P : Terminal C S T → Type 0)
      → ((t : Terminal C S T) → HasNoReservations t → t.storage ≡ opened t.name → P t)
      → (name : Text) (config : List (Text × Q)) (t : Terminal C S T)
      → create_terminal variant is_null json.to_bool opened name config ≡ ok t
      → P t
  unfolding create_terminal
  create-built P built name config t h =
      let (_, _, made) =
        >>=-ok
          (first_state variant is_null json.to_bool (
            dynamics_params_of variant is_null json.to_bool
              (map_at variant is_null json.to_bool (text "system_dynamics") config))).1
          _ h in
      subst P (ok_inj made) (built _ (refl, refl, refl, refl) refl)

  -- Whatever messages the server takes, in each terminal of the network the map of reserved
  -- containers agrees with the active reservations, and no reservation is in two of the states
  -- active, completed and released.
  pub serve_created-Consistent :
      (server : Text) (messages : List (Moment × List (Text × Q)))
      → AllTerminals Consistent (
          serve (with_terminals env out draw with_created) server messages (
            new_network
              (with_terminals env out draw with_created).host
              (with_terminals env out draw with_created).variant
              (with_terminals env out draw with_created).qt))
  unfolding with_created with_terminals host_of_terminals
  serve_created-Consistent server messages =
      serve-P env out draw with_created Consistent
        (λ name display sides config t h.
          create-built Consistent (λ u empty _. none-Consistent u empty) name config t h)
        (Step-Consistent env) (λ t b k. refit-Consistent t t.storage b t.dynamics k) server messages

  -- Whatever messages the server takes, no terminal of the network holds more containers than its
  -- capacity, or any where that is negative, unless the capacity is the greatest int, if a new store
  -- is empty, an insertion adds at most one container, a removal adds none and a cleared store is
  -- empty.
  pub serve_created-WithinLimit :
      AddsAtMostOne env
      → Removes env
      → ((name : Text) → env.size (opened name) ≡ 0)
      → (server : Text) (messages : List (Moment × List (Text × Q)))
      → AllTerminals (WithinLimit env) (
          serve (with_terminals env out draw with_created) server messages (
            new_network
              (with_terminals env out draw with_created).host
              (with_terminals env out draw with_created).variant
              (with_terminals env out draw with_created).qt))
  unfolding with_created with_terminals host_of_terminals
  serve_created-WithinLimit one store fresh server messages =
      serve-P env out draw with_created (WithinLimit env)
        (λ name display sides config t h.
          create-built (WithinLimit env) (λ u _ new. new_fits u new) name config t h)
        (λ t u step k. Step-WithinLimit env store t u one step k) (λ t b k. k) server messages
    where
      new_fits : (u : Terminal C S T) → u.storage ≡ opened u.name → WithinLimit env u
      new_fits u new = λ limited.
          let none_there : env.size u.storage ≡ 0 = ap env.size new ∙ fresh u.name in omega arith
