-- ===== src/Common.antt =====
-- src/common/common.h and common.cpp: the two enumerations and `EnumUtils`. The descriptions for
-- display are left out. `QMetaEnum` knows an enumerator by its name in the source;
-- a name with its scope in front is not modelled.
pub mod RoundTrip
use terminal_sim.Prelude.{
  ◌≡◌, ◌↔◌, Bool, true, false, ◌||◌, Option, none, some, arith, Eq, ◌==◌, Text, text, text_eq,
  if◌then◌else◌, nat_eq,
}
use terminal_sim.Prelude.Int.{ℤ, pos, negsuc}

-- The functions of Qt on texts: `QString::trimmed`, `toLower`, `toInt` and `QString::number`.
pub record Qt : Type 0 where
  pub trimmed : Text → Text
  pub lower : Text → Text
  pub to_int : Text → Option ℤ
  pub number : ℤ → Text

pub data Mode : Type 0 where
  any ship truck train : Mode

unfoldable pub mode_beq : Mode → Mode → Bool
mode_beq any any = true
mode_beq ship ship = true
mode_beq truck truck = true
mode_beq train train = true
mode_beq _ _ = false

pub mode_beq_iff : (a b : Mode) → (mode_beq a b ≡ true) ↔ (a ≡ b)
unfolding mode_beq
mode_beq_iff a b = ground arith

instance abbrev pub mode_eq : Eq Mode
mode_eq = record { same_key = mode_beq; same_iff = mode_beq_iff }

-- `TerminalInterface`.
pub data Side : Type 0 where
  land_side sea_side air_side : Side

unfoldable pub side_beq : Side → Side → Bool
side_beq land_side land_side = true
side_beq sea_side sea_side = true
side_beq air_side air_side = true
side_beq _ _ = false

pub side_beq_iff : (a b : Side) → (side_beq a b ≡ true) ↔ (a ≡ b)
unfolding side_beq
side_beq_iff a b = ground arith

instance abbrev pub side_eq : Eq Side
side_eq = record { same_key = side_beq; same_iff = side_beq_iff }

-- `static_cast<int>` of a mode.
abbrev pub mode_value : Mode → ℤ
mode_value any = negsuc 0
mode_value ship = pos 0
mode_value truck = pos 1
mode_value train = pos 2

abbrev pub side_value : Side → ℤ
side_value land_side = pos 0
side_value sea_side = pos 1
side_value air_side = pos 2

-- The cast back of the values that the switch names, or that are in range.
abbrev pub mode_of_value : ℤ → Option Mode
mode_of_value (negsuc n) = if n == 0 then some any else none
mode_of_value (pos n) =
    if n == 0 then some ship else if n == 1 then some truck else if n == 2 then some train else none

abbrev pub side_of_value : ℤ → Option Side
side_of_value (negsuc n) = none
side_of_value (pos n) =
    if n == 0
    then some land_side
    else if n == 1
    then some sea_side
    else if n == 2
    then some air_side
    else none

-- `transportationModeToString` and `terminalInterfaceToString`.
unfoldable pub mode_to_string : Mode → Text
mode_to_string any = text "Any"
mode_to_string ship = text "Ship"
mode_to_string truck = text "Truck"
mode_to_string train = text "Train"

unfoldable pub side_to_string : Side → Text
side_to_string land_side = text "LAND_SIDE"
side_to_string sea_side = text "SEA_SIDE"
side_to_string air_side = text "AIR_SIDE"

-- `QMetaEnum::keyToValue`.
abbrev pub mode_of_key : Text → Option Mode
mode_of_key key =
    if key == text "Any"
    then some any
    else if key == text "Ship"
    then some ship
    else if key == text "Truck"
    then some truck
    else if key == text "Train"
    then some train
    else none

abbrev pub side_of_key : Text → Option Side
side_of_key key =
    if key == text "LAND_SIDE"
    then some land_side
    else if key == text "SEA_SIDE"
    then some sea_side
    else if key == text "AIR_SIDE"
    then some air_side
    else none

-- The comparisons with the lower-case name.
abbrev pub mode_of_name : Text → Option Mode
mode_of_name name =
    if name == text "any"
    then some any
    else if name == text "ship"
    then some ship
    else if name == text "truck"
    then some truck
    else if name == text "train"
    then some train
    else none

abbrev pub side_of_name : Text → Option Side
side_of_name name =
    if name == text "land_side" || name == text "land"
    then some land_side
    else if name == text "sea_side" || name == text "sea"
    then some sea_side
    else if name == text "air_side" || name == text "air"
    then some air_side
    else none

-- The first of two answers.
infixr 4 ◌<|>◌
abbrev pub ◌<|>◌ {ℓ} : {A : Type ℓ} → Option A → Option A → Option A
none <|> b = b
some a <|> b = some a

abbrev pub then_value {ℓ} : {A : Type ℓ} → Option ℤ → (ℤ → Option A) → Option A
then_value none f = none
then_value (some z) f = f z

-- `tryParseTransportationMode`; `parseTransportationMode` throws where this is `none`.
unfoldable pub try_parse_mode : Qt → Text → Option Mode
try_parse_mode qt str =
    let t = qt.trimmed str in
    mode_of_key t <|> mode_of_name (qt.lower t) <|> then_value (qt.to_int t) mode_of_value

-- `tryParseTerminalInterface`.
unfoldable pub try_parse_side : Qt → Text → Option Side
try_parse_side qt str =
    let t = qt.trimmed str in
    side_of_key t <|> side_of_name (qt.lower t) <|> then_value (qt.to_int t) side_of_value
