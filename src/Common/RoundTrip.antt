-- ===== src/Common/RoundTrip.antt =====
-- Texts and numbers of the enumerations, written and read back.
use terminal_sim.Prelude.{◌≡◌, ◌⊎◌, inl, inr, refl, none, some, text, text_eq, text_beq, Text}
use terminal_sim.Common.{
  Mode, Qt, mode_of_key, mode_of_name, mode_of_value, mode_to_string, mode_value, try_parse_mode,
}

-- The name of a mode in lower case.
abbrev pub lower_name : Mode → Text
lower_name Mode.any = text "any"
lower_name Mode.ship = text "ship"
lower_name Mode.truck = text "truck"
lower_name Mode.train = text "train"

-- What the text functions of Qt do to the numbers of modes: their digits are no name, in lower case
-- neither, and are read back.
pub record KnowsModes (qt : Qt) : Type 0 where
  pub no_key : (m : Mode) → mode_of_key (qt.number (mode_value m)) ≡ none
  pub no_name : (m : Mode) → mode_of_name (qt.lower (qt.number (mode_value m))) ≡ none
  pub reads : (m : Mode) → qt.to_int (qt.number (mode_value m)) ≡ some (mode_value m)

key_back : (m : Mode) → mode_of_key (mode_to_string m) ≡ some m
unfolding mode_to_string text_beq
key_back Mode.any = refl
key_back Mode.ship = refl
key_back Mode.truck = refl
key_back Mode.train = refl

name_back : (m : Mode) → mode_of_name (lower_name m) ≡ some m
unfolding text_beq
name_back Mode.any = refl
name_back Mode.ship = refl
name_back Mode.truck = refl
name_back Mode.train = refl

value_back : (m : Mode) → mode_of_value (mode_value m) ≡ some m
value_back Mode.any = refl
value_back Mode.ship = refl
value_back Mode.truck = refl
value_back Mode.train = refl

-- A text that trims to the name of a mode as `transportationModeToString` writes it, to a text that
-- is no such name and has the lower case of one, or to the number of the mode.
abbrev pub IsWritten : Qt → Mode → Text → Type 0
IsWritten qt m str =
    (qt.trimmed str ≡ mode_to_string m)
    ⊎ (((mode_of_key (qt.trimmed str) ≡ none) × (qt.lower (qt.trimmed str) ≡ lower_name m))
        ⊎ (qt.trimmed str ≡ qt.number (mode_value m)))

-- A text that trims to the name of a mode, to the name in another case or to the number of a mode is
-- read as that mode, if `QString::toInt` reads the numbers of modes back and they are no names.
pub parse-written :
    (qt : Qt) (m : Mode) (str : Text)
    → KnowsModes qt
    → IsWritten qt m str
    → try_parse_mode qt str ≡ some m
unfolding try_parse_mode
parse-written qt m str knows (inl name) = rw (name, key_back m) refl
parse-written qt m str knows (inr (inl (no_key, name))) = rw (no_key, name, name_back m) refl
parse-written qt m str knows (inr (inr digits)) =
    rw (digits, knows.no_key m, knows.no_name m, knows.reads m) (value_back m)
