-- ===== src/Examples/Yards.antt =====
-- Terminals with a store of two containers behind the commands of the server.
use terminal_sim.Prelude.{ℕ, Bool, true, false, List, [], ◌∷◌, Text, text}
use terminal_sim.Reply.{ok}
use terminal_sim.Prelude.Int.{pos}
use terminal_sim.Network.{Host, Network}
use terminal_sim.Network.Runs.{new_network}
use terminal_sim.Server.{SelectionCriteria, Setting}
use terminal_sim.Server.Messages.{Moment, serve}
use terminal_sim.Server.Messages.Terminals.{AllTerminals}
use terminal_sim.Server.Yards.{Output, with_terminals}
use terminal_sim.Server.Yards.Created.{
  serve_created-Consistent, serve_created-WithinLimit, with_created,
}
use terminal_sim.Terminal.{Env, Terminal}
use terminal_sim.Terminal.Arrivals.{Draws}
use terminal_sim.Terminal.Arrivals.Room.{AddsAtMostOne, WithinLimit}
use terminal_sim.Terminal.Reservations.Room.{Removes}
use terminal_sim.Prelude.{refl, arith, text_eq}
use terminal_sim.Terminal.Reservations.Consistent.{Consistent}
use terminal_sim.Examples.Values
use terminal_sim.Examples.Terminals
use terminal_sim.Examples.Terminals.{nat_real}

abbrev Held : Type 0
Held = Terminal Text Terminals.Yard ℕ

-- The store lists what it has, whatever is asked.
abbrev store : Env Text Terminals.Yard (SelectionCriteria Text Values.Value ℕ) ℕ
store = record {
  qt = Terminals.yard.qt;
  container_id = Terminals.yard.container_id;
  leaving_time = Terminals.yard.leaving_time;
  text_variable = Terminals.yard.text_variable;
  int_variable = Terminals.yard.int_variable;
  number_variable = Terminals.yard.number_variable;
  with_number = Terminals.yard.with_number;
  located = Terminals.yard.located;
  size = Terminals.yard.size;
  matching = λ s _. Terminals.yard.matching s true;
  by_id = Terminals.yard.by_id;
  erase = Terminals.yard.erase;
  added = Terminals.yard.added;
  emptied = Terminals.yard.emptied;
}

abbrev output : Output Text Terminals.Yard Text Values.Value ℕ
output = record {
  listed = λ _ _. Values.Value.nothing;
  containers = λ _. Values.Value.nothing;
  response = λ _. Values.Value.nothing;
  snapshot = λ _. Values.Value.nothing;
  result = λ _. Values.Value.nothing;
  terminal = λ _. Values.Value.nothing;
  projections = λ _. Values.Value.nothing;
}

abbrev named : Host Held Values.Value ℕ
named = record {
  create = λ name _ _ _. ok (record Terminals.busy { name = name });
  name = λ t. t.name;
  interfaces = λ _. [];
  handling_time = λ _. 2;
  handling_cost = λ _. 4;
  container_count = λ _. 0;
  available_capacity = λ _. pos 10;
  max_capacity = λ _. pos 10;
  reset = λ t. t;
}

abbrev base : Setting Text Held Text Values.Value ℕ
base = record {
  host = named;
  variant = Values.values;
  qt = Values.qt;
  encoding = record { percent = λ t. t; sha256 = λ t. t };
  text_lt = λ _ _. false;
  json = Values.json;
  library = Values.library;
  yard = Values.yard;
}

abbrev draw : Held → ℕ → Draws ℕ
draw t i = record { departure = 200; uniform = 1; delay = 0 }

abbrev opened : Text → Terminals.Yard
opened name = (false, false)

abbrev is_null : Values.Value → Bool
is_null q = elim q as (λ _. Bool) [ Values.Value.nothing ↦ true | _ ↦ false ]

-- The server on these terminals.
abbrev joined : Setting Text Held Text Values.Value ℕ
joined = with_terminals store output draw (with_created store output draw opened is_null base)

-- The second container does not fit.
abbrev requests : List (Moment × List (Text × Values.Value))
requests =
    (Values.moment, Values.new_terminal)
    ∷ (Values.moment, Values.new_container)
    ∷ (Values.moment, Values.reserve_one)
    ∷ (Values.moment, Values.new_container)
    ∷ []

abbrev served : Network Held Values.Value ℕ
served = serve joined (text "s") requests (new_network joined.host joined.variant joined.qt)

serve_created-Consistent_example :
    AllTerminals Consistent
      (serve joined (text "s") requests (new_network joined.host joined.variant joined.qt))
serve_created-Consistent_example =
    serve_created-Consistent store output draw opened is_null base (text "s") requests

store-AddsAtMostOne : AddsAtMostOne store
store-AddsAtMostOne id c arrival departure s = ground arith

store-Removes : Removes store
store-Removes = record { emptied = λ s. refl; erased = λ id s. ground arith }

serve_created-WithinLimit_example :
    AllTerminals
      (WithinLimit store)
      (serve joined (text "s") requests (new_network joined.host joined.variant joined.qt))
serve_created-WithinLimit_example =
    serve_created-WithinLimit store output draw opened is_null base store-AddsAtMostOne
      store-Removes (λ name. refl) (text "s") requests
