-- ===== src/Server/Broker.antt =====
-- src/server/rabbit_mq_handler.cpp: connecting, sending and the queue of received messages. What the
-- RabbitMQ client answers is an argument, the answer to each attempt by its number. `disconnect`
-- ends the thread of the worker, so a closed connection ends it; the new one is not modelled.
pub mod Attempts
use terminal_sim.Prelude.{
  ℕ, zero, suc, Bool, true, false, not, Option, none, some, List, [], ◌∷◌, ◌++◌, Text, text,
  text_eq, if◌then◌else◌,
}
use terminal_sim.Prelude.Maps
use terminal_sim.Network.Parsing.{is_nil}

-- How one attempt of `connect` goes. `raised` is an exception in it.
pub data Attempt : Type 0 where
  no_connection no_socket not_opened not_logged_in no_channel raised : Attempt
  setup_failed : Attempt
  works : Attempt

-- `hangs`: a call waits for ever.
pub data Connection : Type 0 where
  connected given_up hangs : Connection

-- Locking `m_mutex`, which is not recursive, in the thread that may hold it: where it does, the call
-- never comes back.
abbrev lock : Bool → Option (Unit {0})
lock held = elim held as (λ _. Option (Unit {0})) [ true ↦ none | false ↦ some tt ]

-- `disconnect` where there is no connection: it locks the mutex and returns.
abbrev disconnect : Bool → Option (Unit {0})
disconnect held = lock held

-- What an attempt settles, in a thread that may hold the mutex; none is a retry.
abbrev pub settles : Bool → Attempt → Option Connection
settles held works = some connected
settles held setup_failed = elim (disconnect held) as (λ _. Option Connection) [
  | none ↦ some hangs
  | some _ ↦ none
]
settles held _ = none

-- The loop of `connect`, which holds the mutex, with the attempts that are left.
unfoldable pub connect_loop : ℕ → ℕ → (ℕ → Attempt) → Connection
connect_loop zero i attempts = given_up
connect_loop (suc left) i attempts =
    let rest = connect_loop left (suc i) attempts in
    elim (settles true (attempts i)) as (λ _. Connection) [ none ↦ rest | some outcome ↦ outcome ]

-- `MAX_RECONNECT_ATTEMPTS`.
abbrev pub max_reconnect_attempts : ℕ
max_reconnect_attempts = 5

unfoldable pub connect : Bool → (ℕ → Attempt) → Connection
connect already attempts =
    if already then connected else connect_loop max_reconnect_attempts 0 attempts

-- The answer of `amqp_basic_publish`, or an exception.
pub data Publish : Type 0 where
  accepted refused failed : Publish

-- Whether the response was sent, and how often that was tried.
pub record Sent : Type 0 where
  pub success : Bool
  pub tries : ℕ

unfoldable pub publish_loop : ℕ → ℕ → (ℕ → Publish) → Sent
publish_loop zero i broker = record { success = false; tries = i }
publish_loop (suc retries) i broker =
    let rest = publish_loop retries (suc i) broker in
    elim (broker i) as (λ _. Sent) [
      | accepted ↦ record { success = true; tries = suc i }
      | refused ↦ rest
      | failed ↦ rest
    ]

-- `MAX_SEND_COMMAND_RETRIES`.
abbrev pub max_send_retries : ℕ
max_send_retries = 3

-- `sendResponse`; the flag says that there is a connection.
unfoldable pub send_response : Bool → (ℕ → Publish) → Sent
send_response online broker =
    if online then publish_loop max_send_retries 0 broker else record { success = false; tries = 0 }

-- What the worker gets of `amqp_consume_message`: the object in the body, if it has one, and the id
-- in the properties, if there is one.
pub data Delivery (Q : Type 0) : Type 0 where
  message : Option (List (Text × Q)) → Option Q → Delivery Q
  timeout : Delivery Q
  closed : Delivery Q
  broken : Delivery Q

module _ {Q : Type 0} where
  -- The object with the id of the delivery.
  abbrev pub with_id : Option Q → List (Text × Q) → List (Text × Q)
  with_id none fields = fields
  with_id (some id) fields = Maps.insert (text "message_id") id fields

  -- `processReceivedMessages`, on `m_commandQueue`.
  unfoldable pub enqueue : Delivery Q → List (List (Text × Q)) → List (List (Text × Q))
  enqueue (message none id) queue = queue
  enqueue (message (some fields) id) queue = queue ++ with_id id fields ∷ []
  enqueue timeout queue = queue
  enqueue closed queue = queue
  enqueue broken queue = queue

  -- The loop that takes the messages out and emits them.
  unfoldable pub drain : List (List (Text × Q)) → List (List (Text × Q)) → List (List (Text × Q))
  drain [] emitted = emitted
  drain (next ∷ queue) emitted = drain queue (emitted ++ next ∷ [])

  -- `workerThreadFunction`: the messages that it emits for the deliveries, on those so far.
  unfoldable pub worker : List (Delivery Q) → List (List (Text × Q)) → List (List (Text × Q))
  worker [] emitted = emitted
  worker (closed ∷ deliveries) emitted = emitted
  worker (delivery ∷ deliveries) emitted = worker deliveries (drain (enqueue delivery []) emitted)
