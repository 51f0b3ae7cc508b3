-- ===== src/Server/Messages.antt =====
-- Requests and responses: `processJsonCommand` of src/server/command_processor.cpp and
-- `onMessageReceived` of src/server/terminal_graph_server.cpp. A response is a record of the fields
-- that the JSON object may have; of an exception it keeps its type, not its text.
pub mod Runs
pub mod Replies
pub mod Terminals
use mathlib.Core.Option
use terminal_sim.Prelude.{
  Bool, true, false, not, ◌&&◌, Option, none, some, List, [], ◌∷◌, Text, text, text_eq,
  if◌then◌else◌, ◌==◌,
}
use terminal_sim.Prelude.Maps
use terminal_sim.Real.{Real}
use terminal_sim.Reply.{Failure, Reply, ok, throws}
use terminal_sim.Network.{Network}
use terminal_sim.Network.Parsing.{is_nil}
use terminal_sim.Server.{Setting}
use terminal_sim.Server.Commands.{determine_event_name, process_command}

-- The texts of the field `error`.
pub data Problem : Type 0 where
  missing_command : Problem
  failed : Failure → Problem
  missing_health_command : Problem
  unsupported : Text → Problem

pub record JsonResponse (Q : Type 0) : Type 0 where
  pub success : Bool
  pub result : Option Q
  pub error : Option Problem
  pub event : Option Text
  pub status : Option Text
  pub host_name : Option Text
  pub request_id : Option Q
  pub command_id : Option Q
  pub params : Option Q
  pub timestamp : Option Text
  pub server_id : Option Text
  pub message_id : Option Q
  pub reply_routing_key : Option Q
  pub processed_timestamp : Option Text

-- The object `response` before anything is put in, with `success` set.
abbrev pub no_response : {Q : Type 0} → Bool → JsonResponse Q
no_response success = record {
  success = success;
  result = none;
  error = none;
  event = none;
  status = none;
  host_name = none;
  request_id = none;
  command_id = none;
  params = none;
  timestamp = none;
  server_id = none;
  message_id = none;
  reply_routing_key = none;
  processed_timestamp = none;
}

-- What a request reads of the world: the time and a new id.
pub record Moment : Type 0 where
  pub now : Text
  pub new_id : Text

module _ {C H K Q T : Type 0} ⦃r : Real T⦄ (s : Setting C H K Q T) where
  open s use {variant, json}

  -- The command of a request, if it is there and is a text.
  unfoldable pub command_of : List (Text × Q) → Option Text
  command_of request = elim (Maps.lookup (text "command") request) as (λ _. Option Text) [
    | none ↦ none
    | some q ↦ if variant.is_text q then some (variant.to_text q) else none
  ]

  -- `params`, if it is an object.
  unfoldable pub params_of : List (Text × Q) → List (Text × Q)
  params_of request = elim (Maps.lookup (text "params") request) as (λ _. List (Text × Q)) [
    | none ↦ []
    | some q ↦ Option.get_or (variant.entries q) []
  ]

  -- The response to a command, from what came of it.
  unfoldable pub respond : Moment → List (Text × Q) → Text → Reply Q → JsonResponse Q
  respond at request command reply =
      let begun = record (no_response false) {
        request_id =
            some (Option.get_or (Maps.lookup (text "request_id") request) (json.of_text at.new_id));
        command_id = Maps.lookup (text "commandId") request;
        params = Maps.lookup (text "params") request;
        timestamp = some at.now;
        event = some (determine_event_name command);
      } in
      elim reply as (λ _. JsonResponse Q) [
        | ok result ↦ record begun { success = true; result = some result }
        | throws f ↦ record begun { error = some (Problem.failed f) }
      ]

  -- `processJsonCommand`.
  unfoldable pub process_json_command :
      Moment → List (Text × Q) → Network H Q T → Network H Q T × Option (JsonResponse Q)
  process_json_command at request n =
      elim (command_of request) as (λ _. Network H Q T × Option (JsonResponse Q)) [
        | none ↦ (n, some (record (no_response false) { error = some Problem.missing_command }))
        | some command ↦
            let step = process_command s at.now command (params_of request) n in
            (step.0, Option.map (respond at request command) step.1)
      ]

  -- What `onMessageReceived` adds.
  unfoldable pub stamp : Moment → Text → List (Text × Q) → JsonResponse Q → JsonResponse Q
  stamp at server message response = record response {
    server_id = some server;
    message_id = Maps.lookup (text "message_id") message;
    reply_routing_key = Maps.lookup (text "replyRoutingKey") message;
    processed_timestamp = some at.now;
  }

  -- `onMessageReceived` up to the call of `sendResponse`. The processor catches what a command
  -- throws, so its own handler has nothing to catch.
  unfoldable pub on_message_received :
      Text → Moment → List (Text × Q) → Network H Q T → Network H Q T × Option (JsonResponse Q)
  on_message_received server at message n =
      let step = process_json_command at message n in
      (step.0, Option.map (stamp at server message) step.1)

  -- The messages one after the other, as they are taken from the queue.
  unfoldable pub serve : Text → List (Moment × List (Text × Q)) → Network H Q T → Network H Q T
  serve server [] n = n
  serve server ((at, message) ∷ messages) n =
      serve server messages (on_message_received server at message n).0

  -- `processHealthCommand` with `populateSharedResponseFields`, which does not use the network.
  unfoldable pub process_health_command : Text → Moment → List (Text × Q) → JsonResponse Q
  process_health_command server at message =
      let command = Option.get_or (command_of message) [] in
      let shared = record (stamp at server message (no_response false)) {
        request_id = Maps.lookup (text "request_id") message;
        command_id = Maps.lookup (text "commandId") message;
        params = Maps.lookup (text "params") message;
        timestamp = some at.now;
      } in
      let pong =
        (text "status", json.of_text (text "ok")) ∷ (text "timestamp", json.of_text at.now) ∷ [] in
      if command == text "ping"
      then record shared {
        event = some (text "pingResponse");
        success = true;
        result = some (
            variant.of_entries
              (elim (Maps.lookup (text "echo") (params_of message)) as (λ _. List (Text × Q)) [
                | none ↦ pong
                | some echo ↦ (text "echo", echo) ∷ pong
              ]));
      }
      else if command == text "checkConnection"
      then record shared {
        event = some (text "connectionStatus");
        host_name = some (text "TerminalSim");
        status = some (text "connected");
        success = true;
      }
      else if is_nil command
      then record shared {
        event = some (text "connectionStatus");
        status = some (text "invalid");
        error = some Problem.missing_health_command;
      }
      else record shared {
        event = some (text "connectionStatus");
        status = some (text "unsupported");
        error = some (Problem.unsupported command);
      }
