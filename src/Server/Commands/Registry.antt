-- ===== src/Server/Commands/Registry.antt =====
-- What holds of every command that `registerCommands` of src/server/command_processor.cpp registers.
use terminal_sim.Prelude.{
  ◌≡◌, true, some, List, [], ◌∷◌, Text, text_eq, ◌==◌, if_elim, eq_of, subst,
}
use terminal_sim.Prelude.Maps
use terminal_sim.Server.{Handler}

infixr 2 ◌&◌
pub data AllHandlers {H Q T : Type 0} (P : Text × Handler H Q T → Type 0)
    : List (Text × Handler H Q T) → Type 0 where
  none_left : AllHandlers P []
  ◌&◌ :
      {entry : Text × Handler H Q T} {entries : List (Text × Handler H Q T)}
      → P entry
      → AllHandlers P entries
      → AllHandlers P (entry ∷ entries)

-- The command that is found under a name.
pub AllHandlers-lookup :
    {H Q T : Type 0} (P : Text × Handler H Q T → Type 0) (command : Text)
    (entries : List (Text × Handler H Q T)) {handler : Handler H Q T}
    → AllHandlers P entries
    → Maps.lookup command entries ≡ some handler
    → P (command, handler)
unfolding Maps.lookup
AllHandlers-lookup P command [] all h = cc
AllHandlers-lookup P command (entry ∷ entries) {handler} (p & ps) h =
    if_elim (λ found. found ≡ some handler → P (command, handler)) (entry.0 == command)
      (λ at same.
        let same_handler : entry.1 ≡ handler = cc in
        let named : entry ≡ (command, handler) =
          λ i. (eq_of entry.0 command at i, same_handler i) in
        subst P (named) p)
      (λ _ later. AllHandlers-lookup P command entries ps later) h

pub AllHandlers-has :
    {H Q T : Type 0} (P : Text → Type 0) (command : Text) (entries : List (Text × Handler H Q T))
    → AllHandlers (λ entry. P entry.0) entries
    → Maps.has command entries ≡ true
    → P command
unfolding Maps.has
AllHandlers-has P command [] all h = cc
AllHandlers-has P command (entry ∷ entries) (p & ps) h =
    if_elim (λ found. found ≡ true → P command) (entry.0 == command)
      (λ at _. subst P (eq_of entry.0 command at) p)
      (λ _ later. AllHandlers-has P command entries ps later) h
