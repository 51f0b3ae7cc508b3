-- ===== src/Examples/Names.antt =====
-- The numbers of modes under functions of Qt that leave texts alone.
use terminal_sim.Prelude.{
  ◌≡◌, ◌+◌, refl, none, some, [], ◌∷◌, inr, if◌then◌else◌, Option, Text, text, text_beq, text_eq,
  ◌==◌,
}
use terminal_sim.Prelude.Int.{ℤ, pos, negsuc}
use terminal_sim.Common.{Mode, Qt, mode_of_key, mode_of_name, mode_value, try_parse_mode}
use terminal_sim.Common.RoundTrip.{KnowsModes, parse-written}

abbrev number_at : Text → Option ℤ
number_at t =
    if t == text "-1"
    then some (negsuc 0)
    else if t == text "0"
    then some (pos 0)
    else if t == text "1"
    then some (pos 1)
    else if t == text "2"
    then some (pos 2)
    else none

abbrev plain : Qt
plain = record {
  trimmed = λ t. t;
  lower = λ t. t;
  to_int = number_at;
  number = λ z. elim z as (λ _. Text) [ pos n ↦ (n + 48) ∷ [] | negsuc n ↦ 45 ∷ (n + 49) ∷ [] ];
}

no_key : (m : Mode) → mode_of_key (plain.number (mode_value m)) ≡ none
unfolding text_beq
no_key Mode.any = refl
no_key Mode.ship = refl
no_key Mode.truck = refl
no_key Mode.train = refl

no_name : (m : Mode) → mode_of_name (plain.lower (plain.number (mode_value m))) ≡ none
unfolding text_beq
no_name Mode.any = refl
no_name Mode.ship = refl
no_name Mode.truck = refl
no_name Mode.train = refl

reads : (m : Mode) → plain.to_int (plain.number (mode_value m)) ≡ some (mode_value m)
unfolding text_beq
reads Mode.any = refl
reads Mode.ship = refl
reads Mode.truck = refl
reads Mode.train = refl

plain-KnowsModes : KnowsModes plain
plain-KnowsModes = record { no_key = no_key; no_name = no_name; reads = reads }

parse-written_example : try_parse_mode plain (text "-1") ≡ some Mode.any
parse-written_example = parse-written plain Mode.any (text "-1") plain-KnowsModes (inr (inr refl))
