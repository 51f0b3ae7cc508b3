-- ===== src/Network/Parsing.antt =====
-- How src/terminal/terminal_graph.cpp reads modes, interfaces and names from variants.
use mathlib.Core.Option
use terminal_sim.Prelude.{
  Bool, true, false, not, ◌&&◌, ◌||◌, Option, none, some, List, [], ◌∷◌, Text, text_eq,
  if◌then◌else◌, any,
}
use terminal_sim.Prelude.Maps
use terminal_sim.Prelude.Sets
use terminal_sim.Common.{Mode, Side, Qt, mode_eq, side_eq, try_parse_mode, try_parse_side}
use terminal_sim.Reply.{Failure, Reply, ok, throws, require, or_throw, ◌>>=◌, ◌>>◌}
use terminal_sim.Network.{Host, Variant, interface_supports_mode, is_concrete}

abbrev pub is_nil {ℓ} : {A : Type ℓ} → List A → Bool
is_nil [] = true
is_nil (_ ∷ _) = false

-- `terminalSupportsMode`, of a terminal that is there.
unfoldable pub terminal_supports_mode : {H Q T : Type 0} → Host H Q T → H → Mode → Bool
terminal_supports_mode host h mode =
    is_concrete mode
    && any (λ side. Sets.contains mode side.1 && interface_supports_mode side.0 mode)
        (host.interfaces h)

-- `QStringList::removeDuplicates`, on what is left with the names before it.
unfoldable pub without_repetition : List Text → List Text → List Text
without_repetition seen [] = []
without_repetition seen (name ∷ names) =
    let rest = without_repetition (name ∷ seen) names in
    let same = without_repetition seen names in
    if Sets.contains name seen then same else name ∷ rest

module _ {Q T : Type 0} (v : Variant Q T) (qt : Qt) where
  unfoldable pub parse_mode_variant : Q → Bool → Reply Mode
  parse_mode_variant q allow_any = do
    mode ←
        (if v.is_text q
          then or_throw (try_parse_mode qt (v.to_text q))
          else or_throw (v.to_int q) >>= λ z. or_throw (try_parse_mode qt (qt.number z)))
    require (allow_any || is_concrete mode)
    ok mode

  -- The loop over the modes of one interface.
  unfoldable pub parse_modes : Side → List Q → List Mode → Reply (List Mode)
  parse_modes side [] modes = ok modes
  parse_modes side (q ∷ qs) modes = do
    mode ← parse_mode_variant q false
    require (interface_supports_mode side mode)
    parse_modes side qs (Sets.insert mode modes)

  unfoldable pub parse_each_interface :
      List (Text × Q) → List (Side × List Mode) → Reply (List (Side × List Mode))
  parse_each_interface [] interfaces = ok interfaces
  parse_each_interface (entry ∷ entries) interfaces = do
    side ← or_throw (try_parse_side qt entry.0)
    let listed = Option.get_or (v.items entry.1) []
    require (not (is_nil listed))
    modes ← parse_modes side listed []
    parse_each_interface entries (Maps.insert side modes interfaces)

  unfoldable pub parse_terminal_interfaces : List (Text × Q) → Reply (List (Side × List Mode))
  parse_terminal_interfaces entries =
      require (not (is_nil entries)) >> parse_each_interface entries []

  -- The names of a list, trimmed, without the empty ones.
  unfoldable pub listed_names : List Q → List Text
  listed_names [] = []
  listed_names (q ∷ qs) =
      let name = qt.trimmed (v.to_text q) in
      let rest = listed_names qs in if is_nil name then rest else name ∷ rest

  unfoldable pub names_of : Q → Option (List Text)
  names_of q =
      if v.is_text q
      then some (v.to_text q ∷ [])
      else elim (v.texts q) as (λ _. Option (List Text)) [
        | some names ↦ some names
        | none ↦ Option.map listed_names (v.items q)
      ]

  -- The canonical name, which is the first, and the others.
  unfoldable pub first_name : List Text → Reply (Text × List Text)
  first_name [] = throws Failure.invalid_argument
  first_name (name ∷ names) = ok (name, names)

  unfoldable pub parse_terminal_names : Q → Reply (Text × List Text)
  parse_terminal_names q = do
    names ← or_throw (names_of q)
    first_name (without_repetition [] names)
