-- ===== src/Server/Commands/Deserialize.antt =====
-- `deserializeParams` of src/server/command_processor.cpp ends, and what it returns.
use mathlib.Core.Option
use Prim.Native.Nat.{max}
use terminal_sim.Prelude.{
  ◌≡◌, refl, ap, inl, inr, ℕ, zero, suc, ◌≤◌, ◌<◌, ◌||◌, Option, Option-cases, some, List, [], ◌∷◌,
  Text, text, text_eq, ◌==◌, arith, if_elim,
}
use terminal_sim.Real.{Real}
use terminal_sim.Server.{Setting}
use terminal_sim.Server.Commands.{
  deserialize_entries, deserialize_items, deserialize_params, deserialize_value, nesting_of,
}

module _ {C H K Q T : Type 0} ⦃r : Real T⦄ (s : Setting C H K Q T) where
  open s use {variant, json}

  abbrev pub nesting_items : List Q → ℕ
  nesting_items [] = 0
  nesting_items (item ∷ items) = max (json.nesting item) (nesting_items items)

  -- Values as JSON has them: a list or a map is made of what it converts to, and what is inside nests
  -- less deep.
  pub record IsJson : Type 0 where
    pub list_again :
        (q : Q) (items : List Q) → variant.items q ≡ some items → json.of_list items ≡ q
    pub map_again :
        (q : Q) (entries : List (Text × Q))
        → variant.entries q ≡ some entries
        → variant.of_entries entries ≡ q
    pub list_deeper :
        (q : Q) (items : List Q)
        → variant.items q ≡ some items
        → nesting_items items < json.nesting q
    pub map_deeper :
        (q : Q) (entries : List (Text × Q))
        → variant.entries q ≡ some entries
        → nesting_of s entries < json.nesting q

  module _ (laws : IsJson) (again : List (Text × Q) → Option (List (Text × Q))) (fuel : ℕ)
      (enough : (entries : List (Text × Q))
        → nesting_of s entries < fuel
        → again entries ≡ some entries) where
    built_map :
        (q : Q) (entries : List (Text × Q))
        → variant.entries q ≡ some entries
        → json.nesting q ≤ fuel
        → Option.map variant.of_entries (again entries) ≡ some q
    built_map q entries e deep =
        let inside = laws.map_deeper q entries e in
        rw (enough entries (omega arith)) (ap some (laws.map_again q entries e))

    deserialize_items_lem :
        (items : List Q) → nesting_items items ≤ fuel → deserialize_items s again items ≡ some items
    unfolding deserialize_items
    deserialize_items_lem [] deep = refl
    deserialize_items_lem (item ∷ items) deep =
        let rest = deserialize_items_lem items (omega arith) in
        elim (Option-cases (variant.entries item)) [
          | inl plain ↦ rw (plain, rest) refl
          | inr (entries, e) ↦ rw (e, built_map item entries e (omega arith), rest) refl
        ]

    deserialize_value_lem :
        (key : Text) (q : Q) → json.nesting q ≤ fuel → deserialize_value s again key q ≡ some q
    unfolding deserialize_value
    deserialize_value_lem key q deep =
        if_elim (λ built. built ≡ some q)
          (key == text "container" || key == text "containers_json" || variant.is_text q)
          (λ _. refl)
          (λ _. elim (Option-cases (variant.items q)) [
            | inr (items, e) ↦
                let inside = laws.list_deeper q items e in
                rw (e, deserialize_items_lem items (omega arith))
                  (ap some (laws.list_again q items e))
            | inl no_list ↦ elim (Option-cases (variant.entries q)) [
              | inl plain ↦ rw (no_list, plain) refl
              | inr (entries, e) ↦ rw (no_list, e) (built_map q entries e deep)
            ]
          ])

    deserialize_entries_lem :
        (params : List (Text × Q))
        → nesting_of s params ≤ fuel
        → deserialize_entries s again params ≡ some params
    unfolding deserialize_entries nesting_of
    deserialize_entries_lem [] deep = refl
    deserialize_entries_lem (entry ∷ entries) deep =
        rw
          (
            deserialize_value_lem entry.0 entry.1 (omega arith),
            deserialize_entries_lem entries (omega arith),
          )
          refl

  -- The recursion ends within the nesting of the parameters, and of JSON values it returns them as
  -- they are.
  pub deserialize_params-returns :
      IsJson
      → (fuel : ℕ) (params : List (Text × Q)) → nesting_of s params < fuel
      → deserialize_params s fuel params ≡ some params
  unfolding deserialize_params
  deserialize_params-returns laws zero params h = absurd (omega arith)
  deserialize_params-returns laws (suc fuel) params h =
      deserialize_entries_lem laws (deserialize_params s fuel) fuel
        (λ entries inside. deserialize_params-returns laws fuel entries inside) params (omega arith)
