-- ===== src/Examples/Values.antt =====
-- The parameters of the server at a small type of JSON values, over terminals that are only names.
use Prim.Native.Nat.{max}
use terminal_sim.Prelude.{
  suc, ℕ, ◌+◌, Bool, true, false, Option, some, none, List, [], ◌∷◌, Text, text, text_eq,
}
use terminal_sim.Prelude.Int.{pos, negsuc}
use terminal_sim.Common.{Qt}
use terminal_sim.Reply.{Reply, ok}
use terminal_sim.Network.{Host, Network, Variant}
use terminal_sim.Network.Runs.{new_network}
use terminal_sim.Server.{Containers, Json, Setting, SortField, Yard}
use terminal_sim.Server.Messages.{Moment}
use terminal_sim.Examples.Terminals.{nat_real}

mutual
  pub data Value : Type 0 where
    nothing : Value
    word : Text → Value
    number : ℕ → Value
    listed : Items → Value
    fields : Fields → Value

  pub data Items : Type 0 where
    nil : Items
    cons : Value → Items → Items

  pub data Fields : Type 0 where
    end : Fields
    field : Text → Value → Fields → Fields

abbrev pub to_list : Items → List Value
to_list nil = []
to_list (cons q qs) = q ∷ to_list qs

abbrev pub of_list : List Value → Items
of_list [] = nil
of_list (q ∷ qs) = cons q (of_list qs)

abbrev pub to_entries : Fields → List (Text × Value)
to_entries end = []
to_entries (field key q m) = (key, q) ∷ to_entries m

abbrev pub of_entries : List (Text × Value) → Fields
of_entries [] = end
of_entries (entry ∷ m) = field entry.0 entry.1 (of_entries m)

abbrev pub number_in : Value → ℕ
number_in (number n) = n
number_in _ = 0

abbrev pub items_in : Value → Option (List Value)
items_in (listed qs) = some (to_list qs)
items_in _ = none

abbrev pub entries_in : Value → Option (List (Text × Value))
entries_in (fields m) = some (to_entries m)
entries_in _ = none

abbrev is_word : Value → Bool
is_word (word _) = true
is_word _ = false

abbrev word_in : Value → Text
word_in (word t) = t
word_in _ = []

unfoldable mutual
  pub depth : Value → ℕ
  depth nothing = 0
  depth (word t) = 0
  depth (number n) = 0
  depth (listed qs) = suc (depth_items qs)
  depth (fields m) = suc (depth_fields m)

  pub depth_items : Items → ℕ
  depth_items nil = 0
  depth_items (cons q qs) = max (depth q) (depth_items qs)

  pub depth_fields : Fields → ℕ
  depth_fields end = 0
  depth_fields (field key q m) = max (depth q) (depth_fields m)

abbrev pub values : Variant Value ℕ
values = record {
  is_text = is_word;
  to_text = word_in;
  to_int = λ q. some (pos (number_in q));
  to_double = λ q. some (number_in q);
  of_double = number;
  texts = λ _. none;
  items = items_in;
  entries = entries_in;
  of_entries = λ m. fields (of_entries m);
  null = nothing;
}

abbrev names_only : Host Text Value ℕ
names_only = record {
  create = λ name _ _ _. ok name;
  name = λ h. h;
  interfaces = λ _. [];
  handling_time = λ _. 2;
  handling_cost = λ _. 4;
  container_count = λ _. 0;
  available_capacity = λ _. pos 10;
  max_capacity = λ _. pos 10;
  reset = λ h. h;
}

abbrev pub qt : Qt
qt = record {
  trimmed = λ t. t;
  lower = λ t. t;
  to_int = λ _. none;
  number = λ z. elim z as (λ _. Text) [ pos n ↦ (n + 48) ∷ [] | negsuc n ↦ 45 ∷ (n + 49) ∷ [] ];
}

abbrev pub json : Json Value ℕ
json = record {
  of_text = word;
  of_bool = λ b. elim b as (λ _. Value) [ true ↦ number 1 | false ↦ number 0 ];
  of_int = λ z. elim z as (λ _. Value) [ pos n ↦ number n | negsuc _ ↦ nothing ];
  of_list = λ qs. listed (of_list qs);
  to_bool = λ _. true;
  to_long = λ q. pos (number_in q);
  valid = λ _. true;
  nesting = depth;
  converts_to_text = is_word;
  converts_to_double = λ _. true;
  parse_object = λ _. none;
  of_segment = λ _. nothing;
  of_path = λ _. nothing;
}

abbrev pub library : Containers Text Text Value ℕ
library = record {
  of_object = λ _. ok (1 ∷ []);
  comparison = λ t. some t;
  every = record {
    added = none;
    leaving = none;
    current_location = none;
    next_destination = none;
    custom_variables = [];
    sort_field = SortField.container_id;
    sort_ascending = true;
    limit = negsuc 0;
  };
}

-- A terminal that answers every method and never changes.
abbrev same : {H : Type 0} → H → H × Reply Value
same h = (h, ok nothing)

abbrev pub yard : {H : Type 0} → Yard Text H Text Value ℕ
yard = record {
  to_json = λ _. nothing;
  add_container = λ _ _ _ _ h. (h, ok tt);
  add_containers = λ _ _ _ _ h. (h, ok tt);
  add_containers_from_json = λ _ _ _ _ h. (h, ok tt);
  by_departing_time = λ _ _ _. ok nothing;
  by_added_time = λ _ _ _. ok nothing;
  by_next_destination = λ _ _. ok nothing;
  containers = λ _ _. ok nothing;
  dequeue_by_next_destination = λ _ _ h. same h;
  dequeue = λ _ _ h. same h;
  reserve = λ _ _ h. same h;
  commit = λ _ _ h. same h;
  release = λ _ h. same h;
  clear = λ h. (h, ok tt);
  dynamics_enabled = λ _. true;
  update_dynamics = λ _ _ h. (h, ok tt);
  dynamics_state = λ _. nothing;
  runtime_snapshot = λ _. nothing;
  runtime_projections = λ _. nothing;
  execution_results = λ _ _ _. [];
  clear_execution_results = λ _ h. (h, 0);
}

abbrev pub setting : Setting Text Text Text Value ℕ
setting = record {
  host = names_only;
  variant = values;
  qt = qt;
  encoding = record { percent = λ t. t; sha256 = λ t. t };
  text_lt = λ _ _. false;
  json = json;
  library = library;
  yard = yard;
}

abbrev pub empty_network : Network Text Value ℕ
empty_network = new_network names_only values qt

abbrev pub moment : Moment
moment = record { now = text "2025"; new_id = text "7" }

-- A message of a command on the terminal "a", with these parameters besides.
abbrev pub request_with : Text → Fields → List (Text × Value)
request_with command params =
    (text "command", word command)
    ∷ (text "params", fields (field (text "terminal_id") (word (text "a")) params))
    ∷ (text "request_id", number 4)
    ∷ (text "message_id", number 9)
    ∷ []

abbrev pub request : Text → List (Text × Value)
request command = request_with command end

-- The terminal "a" is open to trucks, with room for one container and a threshold of one.
abbrev pub new_terminal : List (Text × Value)
new_terminal = request_with (text "add_terminal") (
    field (text "terminal_names") (word (text "a")) (
      field (text "display_name") (word (text "A")) (
        field (text "terminal_interfaces")
          (fields (field (text "LAND_SIDE") (listed (cons (word (text "Truck")) nil)) end))
          (field (text "custom_config")
            (fields (
              field (text "capacity")
                (fields (
                  field (text "max_capacity") (number 1)
                    (field (text "critical_threshold") (number 1) end)))
                end))
            end))))

abbrev pub new_container : List (Text × Value)
new_container = request_with (text "add_container") (field (text "container") (fields end) end)

abbrev pub reserve_one : List (Text × Value)
reserve_one =
    request_with (text "reserve_containers") (field (text "reservation_id") (word (text "r")) end)
