-- ===== src/Server/Params.antt =====
-- How src/server/command_processor.cpp reads the parameters of a command.
pub mod Modes
use mathlib.Core.Option
use terminal_sim.Prelude.{
  Bool, true, false, not, ◌&&◌, ◌||◌, Option, none, some, List, [], ◌∷◌, ◌++◌, Text, text, text_eq,
  if◌then◌else◌, ◌==◌, map,
}
use terminal_sim.Prelude.Maps
use terminal_sim.Prelude.Int.{negsuc}
use terminal_sim.Common.{Mode, Qt, mode_eq, try_parse_mode}
use terminal_sim.Real.{Real}
use terminal_sim.Reply.{Failure, Reply, ok, throws, require, or_throw, ◌>>=◌, ◌>>◌}
use terminal_sim.Terminal.{Semantics}
use terminal_sim.Network.{Variant}
use terminal_sim.Network.Parsing.{is_nil, parse_mode_variant}
use terminal_sim.Server.{
  Containers, Hauler, Json, SelectionCriteria, Setting, SortField, TimeFilter, VariableFilter,
}

module _ {C H K Q T : Type 0} ⦃r : Real T⦄ (s : Setting C H K Q T) where
  open s use {variant, qt, json, library}

  -- `params.value(key)` and what is read of it.
  abbrev pub value_at : List (Text × Q) → Text → Q
  value_at params key = Maps.get_or key params variant.null

  abbrev pub text_at : List (Text × Q) → Text → Text
  text_at params key = variant.to_text (value_at params key)

  abbrev pub items_at : List (Text × Q) → Text → List Q
  items_at params key = Option.get_or (variant.items (value_at params key)) []

  -- `params.value(key, given).toDouble()`.
  abbrev pub double_at : List (Text × Q) → Text → T → T
  double_at params key given =
      if Maps.has key params
      then Option.get_or (variant.to_double (value_at params key)) (r.of_nat 0)
      else given

  -- -1, which says that there is no time.
  abbrev pub no_time : T
  no_time = r.sub (r.of_nat 0) (r.of_nat 1)

  -- The value of the first of the keys that is there.
  unfoldable pub first_at : List (Text × Q) → List Text → Option Q
  first_at params [] = none
  first_at params (key ∷ keys) =
      if Maps.has key params then some (value_at params key) else first_at params keys

  -- The first of the keys with a text that is not empty.
  unfoldable pub first_text : List (Text × Q) → List Text → Text → Text
  first_text params [] given = given
  first_text params (key ∷ keys) given =
      if Maps.has key params && not (is_nil (text_at params key))
      then text_at params key
      else first_text params keys given

  unfoldable pub required_double : List (Text × Q) → List Text → Reply T
  required_double values [] = throws Failure.invalid_argument
  required_double values (key ∷ keys) =
      let rest = required_double values keys in
      if Maps.has key values
      then elim (variant.to_double (value_at values key)) as (λ _. Reply T) [
        | some parsed ↦ ok parsed
        | none ↦ rest
      ]
      else rest

  unfoldable pub parse_time_filter_map : List (Text × Q) → Reply (TimeFilter K T)
  parse_time_filter_map values = do
    comparison ← or_throw (
        library.comparison (
          first_text values
            (text "comparison" ∷ text "condition" ∷ text "op" ∷ text "operator" ∷ []) (text "<=")))
    reference ←
        required_double values
          (text "value" ∷ text "reference_time" ∷ text "referenceTime" ∷ text "time" ∷ [])
    ok (record { comparison = comparison; reference = reference })

  unfoldable pub parse_time_filter :
      List (Text × Q) → List Text → List Text → Reply (Option (TimeFilter K T))
  parse_time_filter source keys conditions =
      elim (first_at source keys) as (λ _. Reply (Option (TimeFilter K T))) [
        | none ↦ ok none
        | some value ↦ elim (variant.entries value) as (λ _. Reply (Option (TimeFilter K T))) [
          | some entries ↦ parse_time_filter_map entries >>= λ f. ok (some f)
          | none ↦ do
            reference ← or_throw (variant.to_double value)
            comparison ← or_throw (library.comparison (first_text source conditions (text "<=")))
            ok (some (record { comparison = comparison; reference = reference }))
        ]
      ]

  unfoldable pub parse_sort_field : Text → SortField
  parse_sort_field value =
      let normalized = qt.lower (qt.trimmed value) in
      if normalized == text "added_time" || normalized == text "addedtime"
      then SortField.added_time
      else if normalized == text "leaving_time"
          || normalized == text "leavingtime"
          || normalized == text "departing_time"
          || normalized == text "departingtime"
      then SortField.leaving_time
      else SortField.container_id

  unfoldable pub parse_hauler : Q → Hauler
  parse_hauler value =
      let normalized = qt.lower (qt.trimmed (variant.to_text value)) in
      elim (variant.to_int value) as (λ _. Hauler) [
        | some number ↦ Hauler.cast number
        | none ↦
            if normalized == text "truck"
            then Hauler.truck
            else if normalized == text "train"
            then Hauler.train
            else if normalized == text "watertransport"
                || normalized == text "water_transport"
                || normalized == text "ship"
            then Hauler.water_transport
            else if normalized == text "airtransport"
                || normalized == text "air_transport"
                || normalized == text "air"
            then Hauler.air_transport
            else Hauler.no_hauler
      ]

  unfoldable pub optional_double_param : List (Text × Q) → List Text → Reply (Option T)
  optional_double_param params keys = elim (first_at params keys) as (λ _. Reply (Option T)) [
    | none ↦ ok none
    | some value ↦ do
      parsed ← or_throw (variant.to_double value)
      require (r.is_finite parsed)
      ok (some parsed)
  ]

  unfoldable pub parse_arrival_semantics : Text → Reply Semantics
  parse_arrival_semantics value =
      let normalized = qt.lower (qt.trimmed value) in
      if is_nil normalized || normalized == text "infer"
      then ok Semantics.infer
      else if normalized == text "runtime"
          || normalized == text "runtime_arrival"
          || normalized == text "arrival"
          || normalized == text "dropoff"
      then ok Semantics.runtime_arrival
      else if normalized == text "preload"
          || normalized == text "seed"
          || normalized == text "initial_inventory"
      then ok Semantics.preload
      else throws Failure.invalid_argument

  unfoldable pub arrival_semantics_from_params : List (Text × Q) → Reply Semantics
  arrival_semantics_from_params params =
      elim (first_at params (text "arrival_semantics" ∷ text "arrivalSemantics" ∷ []))
        as (λ _. Reply Semantics) [
          | some value ↦ parse_arrival_semantics (variant.to_text value)
          | none ↦
              if Maps.has (text "preload") params
              then ok (
                  if json.to_bool (value_at params (text "preload"))
                  then Semantics.preload
                  else Semantics.runtime_arrival)
              else ok Semantics.infer
        ]

  unfoldable pub operation_time_from_params : List (Text × Q) → Reply T
  operation_time_from_params params = do
    time ← optional_double_param params (
        text "operation_time"
        ∷ text "operationTime"
        ∷ text "current_time"
        ∷ text "currentTime"
        ∷ [])
    ok (Option.get_or time no_time)

  -- `parseModeParam`.
  unfoldable pub parse_mode_param : Q → Bool → Reply Mode
  parse_mode_param value allow_any = do
    mode ←
        (if variant.is_text value
          then or_throw (try_parse_mode qt (variant.to_text value))
          else or_throw (variant.to_int value) >>= λ z. or_throw (try_parse_mode qt (qt.number z)))
    require (allow_any || not (mode == Mode.any))
    ok mode

  -- The mode of a parameter that may be left out.
  unfoldable pub optional_mode : List (Text × Q) → Text → Mode → Reply Mode
  optional_mode params key given =
      if Maps.has key params then parse_mode_param (value_at params key) true else ok given

  unfoldable pub criteria_map_from_params : List (Text × Q) → Reply (List (Text × Q))
  criteria_map_from_params params =
      let value = value_at params (text "criteria") in
      if not (Maps.has (text "criteria") params)
      then ok params
      else elim (variant.entries value) as (λ _. Reply (List (Text × Q))) [
        | some entries ↦ ok entries
        | none ↦
            if variant.is_text value
            then or_throw (json.parse_object (variant.to_text value))
            else throws Failure.invalid_argument
      ]

  -- The loop over `custom_variables`.
  unfoldable pub variable_filters : List Q → Reply (List (VariableFilter Q))
  variable_filters [] = ok []
  variable_filters (value ∷ values) =
      let rest = variable_filters values in
      elim (variant.entries value) as (λ _. Reply (List (VariableFilter Q))) [
        | none ↦ rest
        | some entry ↦ do
          require (not (is_nil (text_at entry (text "key"))) && Maps.has (text "value") entry)
          filters ← rest
          ok (
              record {
                hauler = parse_hauler (value_at entry (text "hauler"));
                key = text_at entry (text "key");
                value = value_at entry (text "value");
              }
              ∷ filters)
      ]

  -- `source.contains(a) ? source.value(a) : ... : source.value(last)`.
  abbrev pub chosen : List (Text × Q) → List Text → Q
  chosen source keys = Option.get_or (first_at source keys) variant.null

  -- The text of a value that is valid and has one.
  abbrev pub given_text : Q → Option Text
  given_text value =
      if json.valid value && not (is_nil (variant.to_text value))
      then some (variant.to_text value)
      else none

  unfoldable pub selection_criteria_from_params : List (Text × Q) → Reply (SelectionCriteria K Q T)
  selection_criteria_from_params params = do
    source ← criteria_map_from_params params
    added ←
        parse_time_filter source (text "added_time" ∷ text "addedTime" ∷ [])
          (text "added_time_condition" ∷ text "addedTimeCondition" ∷ text "condition" ∷ [])
    leaving ←
        parse_time_filter source
          (text "leaving_time"
            ∷ text "leavingTime"
            ∷ text "departing_time"
            ∷ text "departingTime"
            ∷ [])
          (text "leaving_time_condition"
            ∷ text "leavingTimeCondition"
            ∷ text "departing_time_condition"
            ∷ text "departingTimeCondition"
            ∷ text "condition"
            ∷ [])
    variables ← variable_filters (
        Option.get_or
          (variant.items (chosen source (text "custom_variables" ∷ text "customVariables" ∷ [])))
          [])
    let location =
        given_text (chosen source (text "current_location" ∷ text "currentLocation" ∷ []))
    let destination =
        given_text (
          chosen source
            (text "next_destination" ∷ text "nextDestination" ∷ text "destination" ∷ []))
    let sort =
        given_text (chosen source (text "sort_by" ∷ text "sort_field" ∷ text "sortField" ∷ []))
    let ascending = chosen source (text "sort_ascending" ∷ text "sortAscending" ∷ [])
    ok (record {
      added = added;
      leaving = leaving;
      current_location = elim location as (λ _. Option Text) [
        | some name ↦ some name
        | none ↦ library.every.current_location
      ];
      next_destination = elim destination as (λ _. Option Text) [
        | some name ↦ some name
        | none ↦ library.every.next_destination
      ];
      custom_variables = library.every.custom_variables ++ variables;
      sort_field = Option.get_or (Option.map parse_sort_field sort) library.every.sort_field;
      sort_ascending =
          if json.valid ascending then json.to_bool ascending else library.every.sort_ascending;
      limit =
          if Maps.has (text "limit") source
          then json.to_long (value_at source (text "limit"))
          else library.every.limit;
    })
