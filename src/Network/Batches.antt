-- ===== src/Network/Batches.antt =====
-- Batches of terminals in src/terminal/terminal_graph.cpp: `addTerminals` tests every item before it
-- adds the first.
use terminal_sim.Prelude.{◌≡◌, List, ◌∷◌, ◌++◌, Text, text, text_eq}
use terminal_sim.Prelude.Maps
use terminal_sim.Common.{Mode, Side, Qt}
use terminal_sim.Reply.{Failure, ok, throws}
use terminal_sim.Network.{Host, Network, Variant}
use terminal_sim.Network.Parsing.{parse_terminal_interfaces, parse_terminal_names}
use terminal_sim.Network.Terminals.{add_each_terminal, entries_of, value_of}

module _ {H Q T : Type 0} (host : Host H Q T) (v : Variant Q T) (qt : Qt) where
  -- What the tests read of an item is enough to plan it.
  abbrev IsReadable : List (Text × Q) → Type 0
  IsReadable fields =
      ((names : Text × List Text) × (parse_terminal_names v qt
            (value_of host v qt (text "terminal_names") fields)
          ≡ ok names))
      × ((sides : List (Side × List Mode)) × (parse_terminal_interfaces v qt
              (entries_of host v qt (text "terminal_interfaces") fields)
            ≡ ok sides))

  -- The constructor of the terminal of an item that was read throws.
  abbrev pub IsRefused : List (Text × Q) → Failure → Type 0
  IsRefused fields f =
      (names : Text × List Text) × (sides : List (Side × List Mode)) × (host.create names.0
          (v.to_text (value_of host v qt (text "display_name") fields)) sides
          (entries_of host v qt (text "custom_config") fields)
        ≡ throws f)

  -- The loop stopped at an item whose constructor threw, after it had added those before.
  abbrev pub StopsAt :
      List (List (Text × Q)) → List (Text × H) → Network H Q T → Network H Q T → Failure → Type 0
  StopsAt each added n m f =
      (before : List (List (Text × Q))) × (fields : List (Text × Q)) × (after : List
        (List (Text × Q)))
      × (each ≡ before ++ fields ∷ after)
      × IsRefused fields f
      × ((all : List (Text × H)) × (add_each_terminal host v qt before added n ≡ (m, ok all)))
