-- ===== src/Server/Messages/Runs.antt =====
-- The messages that src/server/terminal_graph_server.cpp serves one after the other.
use terminal_sim.Prelude.{inl, inr, Option-cases, List, Text, text_eq}
use terminal_sim.Real.{Real}
use terminal_sim.Network.{Network}
use terminal_sim.Network.Invariant.{IsSound}
use terminal_sim.Server.{Setting}
use terminal_sim.Server.Commands.Sound.{process_command-IsSound}
use terminal_sim.Server.Messages.{
  Moment, command_of, on_message_received, params_of, process_json_command,
}

module _ {C H K Q T : Type 0} ⦃r : Real T⦄ (s : Setting C H K Q T) where
  open s use {host, variant, qt}

  pub on_message_received-IsSound :
      (server : Text) (at : Moment) (message : List (Text × Q)) (n : Network H Q T)
      → IsSound n
      → IsSound (on_message_received s server at message n).0
  unfolding on_message_received process_json_command
  on_message_received-IsSound server at message n k = elim (Option-cases (command_of s message)) [
    | inl missing ↦ rw (missing, process_json_command) k
    | inr (command, there) ↦
        rw (there, process_json_command)
          (process_command-IsSound s at.now command (params_of s message) n k)
  ]
