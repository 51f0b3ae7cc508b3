-- ===== src/Server/Messages/Replies.antt =====
-- The responses of src/server/terminal_graph_server.cpp to the messages that it takes.
use mathlib.Core.Option
use terminal_sim.Prelude.{
  ◌≡◌, ◌⊎◌, inl, inr, refl, ap, subst, true, false, Option, Option-cases, none, some, List, Text,
  text, text_eq,
}
use terminal_sim.Prelude.Maps
use terminal_sim.Real.{Real}
use terminal_sim.Reply.{Reply, ok, throws}
use terminal_sim.Network.{Network}
use terminal_sim.Server.{Setting}
use terminal_sim.Server.Commands.{determine_event_name, process_command}
use terminal_sim.Server.Messages.{
  JsonResponse, Moment, Problem, command_of, no_response, on_message_received, params_of,
  process_json_command, respond, stamp,
}

-- A result and no error, or an error and no result.
abbrev pub Outcome : {Q : Type 0} → JsonResponse Q → Type 0
Outcome {Q} response =
    ((response.success ≡ true) × (response.error ≡ none) × ((q : Q) × (response.result ≡ some q)))
    ⊎ ((response.success ≡ false)
        × (response.result ≡ none)
        × ((p : Problem) × (response.error ≡ some p)))

-- The id that is given is the one that is answered; without one there is nothing to say.
abbrev pub SameId : {Q : Type 0} → Option Q → Option Q → Type 0
SameId none answered = Unit {0}
SameId (some id) answered = answered ≡ some id

-- What a response repeats of a message that has a command, and the event of the command.
abbrev pub Echoes : {Q : Type 0} → List (Text × Q) → JsonResponse Q → Option Text → Type 0
Echoes message response none = Unit {0}
Echoes message response (some command) =
    (response.params ≡ Maps.lookup (text "params") message)
    × (response.command_id ≡ Maps.lookup (text "commandId") message)
    × (response.event ≡ some (determine_event_name command))
    × SameId (Maps.lookup (text "request_id") message) response.request_id

module _ {C H K Q T : Type 0} ⦃r : Real T⦄ (s : Setting C H K Q T) where
  -- What a client reads of the response to its message.
  pub record IsAnswer (message : List (Text × Q)) (response : JsonResponse Q) : Type 0 where
    pub outcome : Outcome response
    pub same_message : response.message_id ≡ Maps.lookup (text "message_id") message
    pub same_route : response.reply_routing_key ≡ Maps.lookup (text "replyRoutingKey") message
    pub echoed : Echoes message response (command_of s message)

  respond-Outcome :
      (at : Moment) (message : List (Text × Q)) (command : Text) (reply : Reply Q)
      → Outcome (respond s at message command reply)
  unfolding respond
  respond-Outcome at message command (ok q) = inl (refl, refl, (q, refl))
  respond-Outcome at message command (throws f) = inr (refl, refl, (Problem.failed f, refl))

  same_id : (id : Option Q) (given : Q) → SameId id (some (Option.get_or id given))
  same_id none given = tt
  same_id (some id) given = refl

  respond-IsAnswer :
      (server : Text) (at : Moment) (message : List (Text × Q)) (command : Text) (reply : Reply Q)
      → command_of s message ≡ some command
      → IsAnswer message (stamp s at server message (respond s at message command reply))
  unfolding stamp respond
  respond-IsAnswer server at message command (ok q) there = record {
    outcome = inl (refl, refl, (q, refl));
    same_message = refl;
    same_route = refl;
    echoed = rw there (refl, refl, refl, same_id (Maps.lookup (text "request_id") message) _);
  }
  respond-IsAnswer server at message command (throws f) there = record {
    outcome = inr (refl, refl, (Problem.failed f, refl));
    same_message = refl;
    same_route = refl;
    echoed = rw there (refl, refl, refl, same_id (Maps.lookup (text "request_id") message) _);
  }

  abbrev IsAnswered : List (Text × Q) → Option (JsonResponse Q) → Type 0
  IsAnswered message none = Unit {0}
  IsAnswered message (some response) = IsAnswer message response

  -- The response to a message without a command.
  missing-IsAnswer :
      (server : Text) (at : Moment) (message : List (Text × Q))
      → command_of s message ≡ none
      → IsAnswer message (
          stamp s at server message
            (record (no_response false) { error = some Problem.missing_command }))
  unfolding stamp
  missing-IsAnswer server at message missing = record {
    outcome = inr (refl, refl, (Problem.missing_command, refl));
    same_message = refl;
    same_route = refl;
    echoed = rw missing tt;
  }

  each_IsAnswered :
      (server : Text) (at : Moment) (message : List (Text × Q)) (n : Network H Q T)
      → IsAnswered message (on_message_received s server at message n).1
  unfolding on_message_received process_json_command
  each_IsAnswered server at message n = elim (Option-cases (command_of s message)) [
    | inl missing ↦ rw (missing, process_json_command) (missing-IsAnswer server at message missing)
    | inr (command, there) ↦
        elim (Option-cases (process_command s at.now command (params_of s message) n).1) [
          | inl out ↦ rw (there, process_json_command, out) tt
          | inr (reply, done) ↦
              rw (there, process_json_command, done)
                (respond-IsAnswer server at message command reply there)
        ]
  ]

  -- A response has a result or an error and never both, goes back to where its message came from, and
  -- repeats the ids and the parameters that the message has, with the event of its command.
  pub on_message_received-IsAnswer :
      (server : Text) (at : Moment) (message : List (Text × Q)) (n m : Network H Q T)
      (response : JsonResponse Q)
      → on_message_received s server at message n ≡ (m, some response)
      → IsAnswer message response
  on_message_received-IsAnswer server at message n m response h =
      subst (IsAnswered message) (ap (λ step. step.1) h) (each_IsAnswered server at message n)
