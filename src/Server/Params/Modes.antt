-- ===== src/Server/Params/Modes.antt =====
-- `parseModeParam` of src/server/command_processor.cpp beside `parseModeVariant` of
-- src/terminal/terminal_graph.cpp.
use terminal_sim.Prelude.{◌≡◌, Bool, arith}
use terminal_sim.Common.{mode_beq}
use terminal_sim.Real.{Real}
use terminal_sim.Network.Parsing.{parse_mode_variant}
use terminal_sim.Server.{Setting}
use terminal_sim.Server.Params.{parse_mode_param}

module _ {C H K Q T : Type 0} ⦃r : Real T⦄ (s : Setting C H K Q T) where
  open s use {variant, qt}

  -- The two readers of a mode take the same values, give the same modes and refuse the same.
  pub parse_mode_param-parse_mode_variant :
      (value : Q) (allow_any : Bool)
      → parse_mode_param s value allow_any ≡ parse_mode_variant variant qt value allow_any
  unfolding parse_mode_param parse_mode_variant mode_beq
  parse_mode_param-parse_mode_variant value allow_any = ground arith
