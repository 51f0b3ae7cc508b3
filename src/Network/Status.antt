-- ===== src/Network/Status.antt =====
-- `resetRuntimeState` and `getTerminalStatus` of src/terminal/terminal_graph.cpp.
use terminal_sim.Prelude.{ℕ, not, Option, List, [], ◌∷◌, Text, text_eq, if◌then◌else◌, map, length}
use terminal_sim.Prelude.Int.{ℤ}
use terminal_sim.Prelude.Maps
use terminal_sim.Prelude.Sets
use terminal_sim.Common.{Qt}
use terminal_sim.Reply.{Failure, Reply, ok, throws, or_throw, ◌>>=◌}
use terminal_sim.Network.{Host, Network, canonical_name, registered}
use terminal_sim.Network.Parsing.{is_nil}

pub record TerminalStatus : Type 0 where
  pub container_count : ℕ
  pub available_capacity : ℤ
  pub max_capacity : ℤ
  pub region : Option Text
  pub aliases : List Text

-- The status of the terminal that was asked for, or of each one by its name.
pub data Statuses : Type 0 where
  one : TerminalStatus → Statuses
  each : List (Text × TerminalStatus) → Statuses

module _ {H Q T : Type 0} (host : Host H Q T) where
  -- The terminals that the ids name, each once; `seen` are those named so far.
  unfoldable pub resolve : Qt → Network H Q T → List Text → List Text → Reply (List Text)
  resolve qt n [] seen = ok []
  resolve qt n (id ∷ ids) seen =
      let canonical = canonical_name n (qt.trimmed id) in
      let skip = resolve qt n ids seen in
      let take = resolve qt n ids (canonical ∷ seen) in
      if is_nil canonical
      then skip
      else if not (registered n canonical)
      then throws Failure.invalid_argument
      else if Sets.contains canonical seen
      then skip
      else take >>= λ rest. ok (canonical ∷ rest)

  unfoldable pub reset_those : List Text → List (Text × H) → List (Text × H)
  reset_those names [] = []
  reset_those names ((name, h) ∷ more) =
      (name, if Sets.contains name names then host.reset h else h) ∷ reset_those names more

  -- Every terminal, or those that the ids name.
  unfoldable pub to_reset : Qt → List Text → Network H Q T → Reply (List Text)
  to_reset qt ids n =
      if is_nil ids then ok (map (λ entry. entry.0) n.terminals) else resolve qt n ids []

  unfoldable pub reset_runtime_state_of : Qt → List Text → Network H Q T → Network H Q T × Reply ℕ
  reset_runtime_state_of qt ids n = elim (to_reset qt ids n) as (λ _. Network H Q T × Reply ℕ) [
    | throws f ↦ (n, throws f)
    | ok names ↦ (record n { terminals = reset_those names n.terminals }, ok (length names))
  ]

  unfoldable pub status_of : Network H Q T → Text → H → TerminalStatus
  status_of n canonical h = record {
    container_count = host.container_count h;
    available_capacity = host.available_capacity h;
    max_capacity = host.max_capacity h;
    region = Maps.lookup canonical n.regions;
    aliases = Maps.get_or canonical n.canonical_to_aliases [];
  }

  unfoldable pub get_terminal_status : Network H Q T → Text → Reply Statuses
  get_terminal_status n name =
      if is_nil name
      then ok (each (map (λ entry. (entry.0, status_of n entry.0 entry.1)) n.terminals))
      else (or_throw (Maps.lookup (canonical_name n name) n.terminals) >>= λ h.
          ok (one (status_of n (canonical_name n name) h)))
