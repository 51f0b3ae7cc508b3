-- ===== src/Examples/Commands.antt =====
-- The server at the inputs of Values, and tests.
use terminal_sim.Prelude.{
  ℕ, ◌<◌, ◌≡◌, ◌↔◌, refl, ap, subst, inl, true, false, Option, some, none, List, [], ◌∷◌, arith,
  ltb, Text, text, text_beq, text_eq,
}
use terminal_sim.Prelude.Maps
use terminal_sim.Prelude.Sets
use terminal_sim.Network.{Network}
use terminal_sim.Network.Parsing.{parse_mode_variant}
use terminal_sim.Server.Broker.{
  Publish, accepted, connect, max_send_retries, refused, send_response,
}
use terminal_sim.Server.Broker.Attempts.{IsSentOnce, send_response-IsSentOnce}
use terminal_sim.Server.Commands.{
  deserialize_params, determine_event_name, handlers, nesting_of, process_command,
}
use terminal_sim.Server.Commands.Deserialize.{IsJson, deserialize_params-returns, nesting_items}
use terminal_sim.Server.Commands.Events.{determine_event_name-registered}
use terminal_sim.Server.Commands.Reads.{process_command-asking}
use terminal_sim.Server.Messages.{
  JsonResponse, command_of, no_response, on_message_received, params_of, process_json_command,
  respond, stamp,
}
use terminal_sim.Server.Messages.Replies.{IsAnswer, on_message_received-IsAnswer}
use terminal_sim.Server.Params.{parse_mode_param}
use terminal_sim.Server.Params.Modes.{parse_mode_param-parse_mode_variant}
use terminal_sim.Examples.Terminals.{nat_real}
use Prim.Native.Nat.{max}
use terminal_sim.Prelude.{suc}
use terminal_sim.Examples.Values.{
  Value, Items, Fields, nil, cons, end, field, to_list, of_list, to_entries, of_entries, items_in,
  entries_in, depth, depth_items, depth_fields, values, qt, setting, empty_network, moment, request,
  nothing, word, number, listed, fields,
}

-- A terminal that is not there makes the command fail.
abbrev refusal : Option (JsonResponse Value) → JsonResponse Value
refusal none = no_response false
refusal (some response) = response

-- The line that the tests unfold.
commands : Unit {0}
unfolding handlers process_command process_json_command on_message_received command_of params_of
    respond stamp deserialize_params nesting_of Maps.lookup Maps.has Sets.contains text_beq
    determine_event_name send_response connect
commands = tt

abbrev refused_request : Network Text Value ℕ × Option (JsonResponse Value)
refused_request =
    on_message_received setting (text "s") moment (request (text "no_such_command")) empty_network

on_message_received-IsAnswer_example :
    IsAnswer setting (request (text "no_such_command")) (refusal refused_request.1)
unfolding commands
on_message_received-IsAnswer_example =
    on_message_received-IsAnswer setting (text "s") moment (request (text "no_such_command"))
      empty_network refused_request.0 (refusal refused_request.1) refl

process_command-asking_example :
    (process_command setting
      (text "2025")
      (text "get_containers")
      (request (text "x"))
      empty_network).0
    ≡ empty_network
unfolding commands
process_command-asking_example =
    process_command-asking setting (text "2025") (text "get_containers") (request (text "x"))
      empty_network (inl refl)

determine_event_name-registered_example :
    (determine_event_name (text "get_terminal_status") ≡ text "errorOccurred")
    ↔ (text "get_terminal_status" ≡ text "get_terminal_status")
unfolding commands
determine_event_name-registered_example =
    determine_event_name-registered setting (text "2025") (text "get_terminal_status") refl

items_again : (qs : Items) → of_list (to_list qs) ≡ qs
items_again nil = refl
items_again (cons q qs) = ap (cons q) (items_again qs)

fields_again : (m : Fields) → of_entries (to_entries m) ≡ m
fields_again end = refl
fields_again (field key q m) = ap (field key q) (fields_again m)

items_depth : (qs : Items) → nesting_items setting (to_list qs) ≡ depth_items qs
unfolding depth
items_depth nil = refl
items_depth (cons q qs) = ap (max (depth q)) (items_depth qs)

fields_depth : (m : Fields) → nesting_of setting (to_entries m) ≡ depth_fields m
unfolding depth nesting_of
fields_depth end = refl
fields_depth (field key q m) = ap (max (depth q)) (fields_depth m)

list_again : (q : Value) (items : List Value) → items_in q ≡ some items → listed (of_list items) ≡ q
list_again (listed qs) items h =
    let e : to_list qs ≡ items = cc in
    subst (λ xs. listed (of_list xs) ≡ listed qs) (e) (ap listed (items_again qs))
list_again nothing items h = cc
list_again (word _) items h = cc
list_again (number _) items h = cc
list_again (fields _) items h = cc

map_again :
    (q : Value) (entries : List (Text × Value))
    → entries_in q ≡ some entries
    → fields (of_entries entries) ≡ q
map_again (fields m) entries h =
    let e : to_entries m ≡ entries = cc in
    subst (λ xs. fields (of_entries xs) ≡ fields m) (e) (ap fields (fields_again m))
map_again nothing entries h = cc
map_again (word _) entries h = cc
map_again (number _) entries h = cc
map_again (listed _) entries h = cc

list_deeper :
    (q : Value) (items : List Value)
    → items_in q ≡ some items
    → nesting_items setting items < depth q
unfolding depth
list_deeper (listed qs) items h =
    let e : to_list qs ≡ items = cc in
    subst (λ xs. nesting_items setting xs < suc (depth_items qs)) (e)
      (omega (arith, items_depth qs))
list_deeper nothing items h = cc
list_deeper (word _) items h = cc
list_deeper (number _) items h = cc
list_deeper (fields _) items h = cc

map_deeper :
    (q : Value) (entries : List (Text × Value))
    → entries_in q ≡ some entries
    → nesting_of setting entries < depth q
unfolding depth
map_deeper (fields m) entries h =
    let e : to_entries m ≡ entries = cc in
    subst (λ xs. nesting_of setting xs < suc (depth_fields m)) (e) (omega (arith, fields_depth m))
map_deeper nothing entries h = cc
map_deeper (word _) entries h = cc
map_deeper (number _) entries h = cc
map_deeper (listed _) entries h = cc

setting-IsJson : IsJson setting
setting-IsJson = record {
  list_again = list_again;
  map_again = map_again;
  list_deeper = list_deeper;
  map_deeper = map_deeper;
}

-- A list of lists, and a map in a map.
abbrev nested : List (Text × Value)
nested =
    (text "a", fields (field (text "b") (fields (field (text "c") (number 1) end)) end))
    ∷ (
      text "d",
      listed (cons (listed (cons (number 1) nil)) (cons (listed (cons (number 2) nil)) nil)),
    )
    ∷ []

deserialize_params-returns_example : deserialize_params setting 3 nested ≡ some nested
unfolding nesting_of depth
deserialize_params-returns_example =
    deserialize_params-returns setting setting-IsJson 3 nested (omega arith)

parse_mode_param-parse_mode_variant_example :
    parse_mode_param setting (word (text "Any")) false
    ≡ parse_mode_variant values qt (word (text "Any")) false
parse_mode_param-parse_mode_variant_example =
    parse_mode_param-parse_mode_variant setting (word (text "Any")) false

abbrev third_works : ℕ → Publish
third_works n = elim (ltb n 2) as (λ _. Publish) [ true ↦ refused | false ↦ accepted ]

send_response-IsSentOnce_example :
    IsSentOnce 0 max_send_retries third_works (send_response true third_works)
send_response-IsSentOnce_example = send_response-IsSentOnce third_works
