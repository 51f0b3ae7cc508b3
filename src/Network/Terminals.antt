-- ===== src/Network/Terminals.antt =====
-- The terminals of a network in src/terminal/terminal_graph.cpp: adding, naming, removing and
-- resetting them, and their status. The data of a new terminal is a map of variants.
use mathlib.Core.Option
use terminal_sim.Prelude.{
  ℕ, Bool, true, false, not, ◌&&◌, ◌||◌, List, [], ◌∷◌, Text, text, text_eq, if◌then◌else◌, ◌==◌,
  any, length,
}
use terminal_sim.Prelude.Maps
use terminal_sim.Prelude.Sets
use terminal_sim.Common.{Qt}
use terminal_sim.Graph.{EdgeKey, add_vertex, empty, remove_vertex}
use terminal_sim.Reply.{Failure, Reply, ok, throws, require, or_throw, ◌>>=◌, ◌>>◌}
use terminal_sim.Network.{Host, Network, Variant, canonical_name, registered}
use terminal_sim.Network.Parsing.{is_nil, parse_terminal_interfaces, parse_terminal_names}

-- A terminal that is ready to be added.
pub record Plan (H : Type 0) : Type 0 where
  pub canonical : Text
  pub names : List Text
  pub host : H
  pub region : Text

-- `m_terminalAliases[alias] = canonical` for each name.
unfoldable pub name_all : Text → List Text → List (Text × Text) → List (Text × Text)
name_all canonical [] aliases = aliases
name_all canonical (name ∷ names) aliases =
    name_all canonical names (Maps.insert name canonical aliases)

unfoldable pub set_of : List Text → List Text
set_of [] = []
set_of (name ∷ names) = Sets.insert name (set_of names)

unfoldable pub forget_all : List Text → List (Text × Text) → List (Text × Text)
forget_all [] aliases = aliases
forget_all (name ∷ names) aliases = forget_all names (Maps.remove name aliases)

unfoldable pub without_edges_of :
    {A : Type 0} → Text → List (EdgeKey Text × A) → List (EdgeKey Text × A)
without_edges_of canonical [] = []
without_edges_of canonical (entry ∷ entries) =
    let rest = without_edges_of canonical entries in
    if entry.0.source == canonical || entry.0.target == canonical then rest else entry ∷ rest

unfoldable pub no_aliases : {A : Type 0} → List (Text × A) → List (Text × List Text)
no_aliases [] = []
no_aliases (entry ∷ entries) = (entry.0, []) ∷ no_aliases entries

module _ {H Q T : Type 0} (host : Host H Q T) where
  unfoldable pub install : Plan H → Network H Q T → Network H Q T
  install p n = record n {
    graph = (add_vertex p.canonical n.graph).0;
    regions = if is_nil p.region then n.regions else Maps.insert p.canonical p.region n.regions;
    terminals = Maps.insert p.canonical p.host n.terminals;
    canonical_to_aliases = Maps.insert p.canonical (set_of p.names) n.canonical_to_aliases;
    aliases = name_all p.canonical p.names n.aliases;
    terminal_data =
        Maps.insert p.canonical
          (record {
            handling_time = host.handling_time p.host;
            handling_cost = host.handling_cost p.host;
          })
          n.terminal_data;
  }

  module _ (v : Variant Q T) (qt : Qt) where
    -- `terminalData.value(key)`, and its `toMap()`.
    abbrev pub value_of : Text → List (Text × Q) → Q
    value_of key fields = Maps.get_or key fields v.null

    abbrev pub entries_of : Text → List (Text × Q) → List (Text × Q)
    entries_of key fields = Option.get_or (v.entries (value_of key fields)) []

    -- `addTerminalInternal` up to the first change.
    unfoldable pub plan : List (Text × Q) → Reply (Plan H)
    plan fields = do
      names ← parse_terminal_names v qt (value_of (text "terminal_names") fields)
      interfaces ← parse_terminal_interfaces v qt (entries_of (text "terminal_interfaces") fields)
      made ←
          host.create names.0 (v.to_text (value_of (text "display_name") fields)) interfaces
            (entries_of (text "custom_config") fields)
      ok (record {
        canonical = names.0;
        names = names.0 ∷ names.1;
        host = made;
        region =
            if Maps.has (text "region") fields
            then v.to_text (value_of (text "region") fields)
            else [];
      })

    unfoldable pub add_terminal_internal : List (Text × Q) → Network H Q T → Network H Q T × Reply H
    add_terminal_internal fields n = elim (plan fields) as (λ _. Network H Q T × Reply H) [
      | throws f ↦ (n, throws f)
      | ok p ↦ (install p n, ok p.host)
    ]

    abbrev pub has_required_fields : List (Text × Q) → Bool
    has_required_fields fields =
        Maps.has (text "terminal_names") fields
        && Maps.has (text "display_name") fields
        && Maps.has (text "terminal_interfaces") fields
        && Maps.has (text "custom_config") fields

    -- A name that another terminal has.
    abbrev pub is_taken : Network H Q T → Text → Text → Bool
    is_taken n canonical name = Maps.has name n.aliases && not (canonical_name n name == canonical)

    -- The tests of `addTerminal`.
    unfoldable pub check_terminal : List (Text × Q) → Network H Q T → Reply (Unit {0})
    check_terminal fields n = do
      require (has_required_fields fields)
      names ← parse_terminal_names v qt (value_of (text "terminal_names") fields)
      require (not (registered n names.0))
      require (not (any (is_taken n names.0) (names.0 ∷ names.1)))
      interfaces ← parse_terminal_interfaces v qt (entries_of (text "terminal_interfaces") fields)
      ok tt

    unfoldable pub add_terminal : List (Text × Q) → Network H Q T → Network H Q T × Reply H
    add_terminal fields n = elim (check_terminal fields n) as (λ _. Network H Q T × Reply H) [
      | throws f ↦ (n, throws f)
      | ok _ ↦ add_terminal_internal fields n
    ]

    -- The names of one terminal against the network and the names before them, which are returned.
    unfoldable pub claim_names : Network H Q T → List Text → List Text → Reply (List Text)
    claim_names n [] seen = ok seen
    claim_names n (name ∷ names) seen = do
      require (not (Maps.has name n.aliases))
      require (not (Sets.contains name seen))
      claim_names n names (Sets.insert name seen)

    unfoldable pub check_terminals :
        Network H Q T → List (List (Text × Q)) → List Text → Reply (Unit {0})
    check_terminals n [] seen = ok tt
    check_terminals n (fields ∷ more) seen = do
      require (has_required_fields fields)
      names ← parse_terminal_names v qt (value_of (text "terminal_names") fields)
      require (not (registered n names.0))
      seen' ← claim_names n (names.0 ∷ names.1) seen
      interfaces ← parse_terminal_interfaces v qt (entries_of (text "terminal_interfaces") fields)
      check_terminals n more seen'

    unfoldable pub add_each_terminal :
        List (List (Text × Q))
        → List (Text × H)
        → Network H Q T
        → Network H Q T × Reply (List (Text × H))
    add_each_terminal [] added n = (n, ok added)
    add_each_terminal (fields ∷ more) added n =
        let step = add_terminal_internal fields n in
        let rest = λ (h : H). add_each_terminal more (Maps.insert (host.name h) h added) step.0 in
        elim step.1 as (λ _. Network H Q T × Reply (List (Text × H))) [
          | throws f ↦ (step.0, throws f)
          | ok h ↦ rest h
        ]

    unfoldable pub add_terminals :
        List (List (Text × Q)) → Network H Q T → Network H Q T × Reply (List (Text × H))
    add_terminals each n =
        elim (check_terminals n each []) as (λ _. Network H Q T × Reply (List (Text × H))) [
          | throws f ↦ (n, throws f)
          | ok _ ↦ add_each_terminal each [] n
        ]

module _ {H Q T : Type 0} where
  unfoldable pub add_alias_to_terminal :
      Text → Text → Network H Q T → Network H Q T × Reply (Unit {0})
  add_alias_to_terminal name alias n =
      let canonical = canonical_name n name in
      if not (registered n canonical) then (n, throws Failure.invalid_argument) else (
        record n {
          aliases = Maps.insert alias canonical n.aliases;
          canonical_to_aliases =
              Maps.insert canonical
                (Sets.insert alias (Maps.get_or canonical n.canonical_to_aliases []))
                n.canonical_to_aliases;
        },
        ok tt,
      )

  unfoldable pub get_aliases_of_terminal : Network H Q T → Text → List Text
  get_aliases_of_terminal n name = Maps.get_or (canonical_name n name) n.canonical_to_aliases []

  unfoldable pub get_terminal : Network H Q T → Text → Reply H
  get_terminal n name = or_throw (Maps.lookup (canonical_name n name) n.terminals)

  unfoldable pub remove_terminal : Text → Network H Q T → Network H Q T × Bool
  remove_terminal name n =
      let canonical = canonical_name n name in
      if not (registered n canonical) then (n, false) else (
        record n {
          aliases = forget_all (Maps.get_or canonical n.canonical_to_aliases []) n.aliases;
          canonical_to_aliases = Maps.remove canonical n.canonical_to_aliases;
          edge_data = without_edges_of canonical n.edge_data;
          graph = (remove_vertex canonical n.graph).0;
          terminals = Maps.remove canonical n.terminals;
          regions = Maps.remove canonical n.regions;
          terminal_data = Maps.remove canonical n.terminal_data;
        },
        true,
      )

  unfoldable pub terminal_count : Network H Q T → ℕ
  terminal_count n = length n.terminals

  unfoldable pub all_terminal_names : Network H Q T → Bool → List (Text × List Text)
  all_terminal_names n include_aliases =
      if include_aliases then n.canonical_to_aliases else no_aliases n.terminals

  unfoldable pub clear : Network H Q T → Network H Q T
  clear n = record n {
    graph = empty;
    edge_data = [];
    aliases = [];
    canonical_to_aliases = [];
    terminals = [];
    regions = [];
    terminal_data = [];
  }
