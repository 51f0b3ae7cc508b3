-- ===== src/Server/Commands/Events.antt =====
-- The event names of the commands that src/server/command_processor.cpp registers.
use terminal_sim.Prelude.{◌≡◌, ◌↔◌, refl, true, Text, text, text_eq, text_beq}
use terminal_sim.Prelude.Maps
use terminal_sim.Real.{Real}
use terminal_sim.Server.{Setting}
use terminal_sim.Server.Commands.{determine_event_name, handlers}
use terminal_sim.Server.Commands.Registry.{AllHandlers, AllHandlers-has, ◌&◌, none_left}

-- The name of an error is the event of a command just if it is this one.
abbrev OnlyStatus : Text → Type 0
OnlyStatus command =
    (determine_event_name command ≡ text "errorOccurred") ↔ (command ≡ text "get_terminal_status")

module _ {C H K Q T : Type 0} ⦃r : Real T⦄ (s : Setting C H K Q T) where
  handlers-OnlyStatus : (now : Text) → AllHandlers (λ entry. OnlyStatus entry.0) (handlers s now)
  unfolding handlers determine_event_name text_beq
  handlers-OnlyStatus now =
      ((λ h. cc), (λ h. cc))
      & ((λ h. cc), (λ h. cc))
      & ((λ h. cc), (λ h. cc))
      & ((λ h. cc), (λ h. cc))
      & ((λ h. cc), (λ h. cc))
      & ((λ h. cc), (λ h. cc))
      & ((λ h. cc), (λ h. cc))
      & ((λ h. cc), (λ h. cc))
      & ((λ h. cc), (λ h. cc))
      & ((λ _. refl), (λ _. refl))
      & ((λ h. cc), (λ h. cc))
      & ((λ h. cc), (λ h. cc))
      & ((λ h. cc), (λ h. cc))
      & ((λ h. cc), (λ h. cc))
      & ((λ h. cc), (λ h. cc))
      & ((λ h. cc), (λ h. cc))
      & ((λ h. cc), (λ h. cc))
      & ((λ h. cc), (λ h. cc))
      & ((λ h. cc), (λ h. cc))
      & ((λ h. cc), (λ h. cc))
      & ((λ h. cc), (λ h. cc))
      & ((λ h. cc), (λ h. cc))
      & ((λ h. cc), (λ h. cc))
      & ((λ h. cc), (λ h. cc))
      & ((λ h. cc), (λ h. cc))
      & ((λ h. cc), (λ h. cc))
      & ((λ h. cc), (λ h. cc))
      & ((λ h. cc), (λ h. cc))
      & ((λ h. cc), (λ h. cc))
      & ((λ h. cc), (λ h. cc))
      & ((λ h. cc), (λ h. cc))
      & ((λ h. cc), (λ h. cc))
      & ((λ h. cc), (λ h. cc))
      & ((λ h. cc), (λ h. cc))
      & ((λ h. cc), (λ h. cc))
      & ((λ h. cc), (λ h. cc))
      & ((λ h. cc), (λ h. cc))
      & ((λ h. cc), (λ h. cc))
      & ((λ h. cc), (λ h. cc))
      & none_left

  -- Of the commands that are registered, just get_terminal_status has errorOccurred for the name of
  -- its event, which is the name for unknown commands.
  pub determine_event_name-registered :
      (now command : Text)
      → Maps.has command (handlers s now) ≡ true
      → (determine_event_name command ≡ text "errorOccurred")
        ↔ (command ≡ text "get_terminal_status")
  determine_event_name-registered now command there =
      AllHandlers-has OnlyStatus command (handlers s now) (handlers-OnlyStatus now) there
