-- ===== src/Server/Messages/Terminals.antt =====
-- What the commands of src/server/command_processor.cpp keep of every terminal, if its own methods
-- keep it.
pub mod Kept
pub mod Methods
use terminal_sim.Prelude.{
  ◌≡◌, refl, sym, ap, subst, ◌∙◌, inl, inr, ℕ, Bool, true, false, Option, none, some, List, [], ◌∷◌,
  ◌++◌, Text, text, text_eq, ◌==◌, ◌&&◌, arith, if◌then◌else◌, if_elim, Eq,
}
use terminal_sim.Prelude.Maps
use terminal_sim.Prelude.Sets
use terminal_sim.Common.{Mode, Qt, Side}
use terminal_sim.Real.{Real}
use terminal_sim.Reply.{Reply, ok, throws, Reply-cases, >>=-ok, ok_inj}
use terminal_sim.Graph.{add_vertices, empty}
use terminal_sim.Network.{Host, Network, Variant, canonical_name}
use terminal_sim.Network.Parsing.{parse_terminal_interfaces, parse_terminal_names}
use terminal_sim.Network.Invariant.{AllEntries, AllEntries-insert}
use terminal_sim.Network.Routes.{
  Route, add_each_route, add_route, add_routes, build_all, check_route, names, read_routes,
  store_route, route_cost, update_graph,
}
use terminal_sim.Network.Status.{reset_runtime_state_of, reset_those, to_reset}
use terminal_sim.Network.Terminals.{
  Plan, add_each_terminal, add_terminal, add_terminal_internal, add_terminals, check_terminal,
  check_terminals, get_terminal, install, plan, remove_terminal, entries_of, value_of,
}

module _ {H : Type 0} (P : H → Type 0) where
  -- Each terminal of a network has the property.
  abbrev pub AllTerminals : {Q T : Type 0} → Network H Q T → Type 0
  AllTerminals n = AllEntries (λ (entry : Text × H). P entry.1) n.terminals

  AllEntries-lookup :
      (key : Text) (m : List (Text × H)) {h : H}
      → AllEntries (λ (entry : Text × H). P entry.1) m
      → Maps.lookup key m ≡ some h
      → P h
  unfolding Maps.lookup
  AllEntries-lookup key [] all e = cc
  AllEntries-lookup key (entry ∷ m) {h} all e =
      if_elim (λ found. found ≡ some h → P h) (entry.0 == key)
        (λ _ same. let here : entry.1 ≡ h = cc in subst P (here) all.0)
        (λ _ later. AllEntries-lookup key m all.1 later) e

  AllEntries-remove :
      (key : Text) (m : List (Text × H))
      → AllEntries (λ (entry : Text × H). P entry.1) m
      → AllEntries (λ (entry : Text × H). P entry.1) (Maps.remove key m)
  unfolding Maps.remove
  AllEntries-remove key [] all = tt
  AllEntries-remove key ((j, h) ∷ m) all =
      let rest = AllEntries-remove key m all.1 in
      if_elim (AllEntries (λ (entry : Text × H). P entry.1)) (j == key) (λ _. rest)
        (λ _. (all.0, rest))

  pub get_terminal-P :
      {Q T : Type 0} (n : Network H Q T) (name : Text) {h : H}
      → AllTerminals n
      → get_terminal n name ≡ ok h
      → P h
  unfolding get_terminal
  get_terminal-P n name all e =
      AllEntries-lookup (canonical_name n name) n.terminals all (ground arith)

  pub remove_terminal-AllTerminals :
      {Q T : Type 0} (name : Text) (n : Network H Q T)
      → AllTerminals n
      → AllTerminals (remove_terminal name n).0
  unfolding remove_terminal
  remove_terminal-AllTerminals {Q} {T} name n all =
      if_elim (λ (step : Network H Q T × Bool). AllTerminals step.0) _ (λ _. all)
        (λ _. AllEntries-remove (canonical_name n name) n.terminals all)

  module _ {Q T : Type 0} (host : Host H Q T) where
    AllEntries-reset_those :
        ((h : H) → P h → P (host.reset h))
        → (ids : List Text) (m : List (Text × H)) → AllEntries (λ (entry : Text × H). P entry.1) m
        → AllEntries (λ (entry : Text × H). P entry.1) (reset_those host ids m)
    unfolding reset_those
    AllEntries-reset_those resets ids [] all = tt
    AllEntries-reset_those resets ids ((name, h) ∷ m) all = (
      if_elim P (Sets.contains name ids) (λ _. resets h all.0) (λ _. all.0),
      AllEntries-reset_those resets ids m all.1,
    )

    pub reset-AllTerminals :
        ((h : H) → P h → P (host.reset h))
        → (qt : Qt) (ids : List Text) (n : Network H Q T) → AllTerminals n
        → AllTerminals (reset_runtime_state_of host qt ids n).0
    unfolding reset_runtime_state_of
    reset-AllTerminals resets qt ids n all = elim (Reply-cases (to_reset host qt ids n)) [
      | inr (f, failed) ↦ rw (failed, reset_runtime_state_of) all
      | inl (named, done) ↦
          rw (done, reset_runtime_state_of) (AllEntries-reset_those resets named n.terminals all)
    ]

    module _ (v : Variant Q T) (qt : Qt)
        (creates : (name display : Text) (sides : List (Side × List Mode))
            (config : List (Text × Q)) (h : H)
          → host.create name display sides config ≡ ok h
          → P h) where
      plan-P : (fields : List (Text × Q)) {p : Plan H} → plan host v qt fields ≡ ok p → P p.host
      unfolding plan
      plan-P fields planned =
          let (names, _, e1) =
            >>=-ok (parse_terminal_names v qt (value_of host v qt (text "terminal_names") fields)) _
              planned in
          let (sides, _, e2) =
            >>=-ok
              (parse_terminal_interfaces v qt
                (entries_of host v qt (text "terminal_interfaces") fields))
              _ e1 in
          let display = v.to_text (value_of host v qt (text "display_name") fields) in
          let config = entries_of host v qt (text "custom_config") fields in
          let (made, created, e3) = >>=-ok (host.create names.0 display sides config) _ e2 in
          subst P (ap (λ (q : Plan H). q.host) (ok_inj e3))
            (creates names.0 display sides config made created)

      add_internal-AllTerminals :
          (fields : List (Text × Q)) (n : Network H Q T)
          → AllTerminals n
          → AllTerminals (add_terminal_internal host v qt fields n).0
      unfolding add_terminal_internal install
      add_internal-AllTerminals fields n all = elim (Reply-cases (plan host v qt fields)) [
        | inr (f, failed) ↦ rw (failed, add_terminal_internal) all
        | inl (p, planned) ↦
            rw (planned, add_terminal_internal)
              (AllEntries-insert (λ (entry : Text × H). P entry.1) p.canonical p.host n.terminals
                (plan-P fields planned) all)
      ]

      pub add_terminal-AllTerminals :
          (fields : List (Text × Q)) (n : Network H Q T)
          → AllTerminals n
          → AllTerminals (add_terminal host v qt fields n).0
      unfolding add_terminal
      add_terminal-AllTerminals fields n all =
          elim (Reply-cases (check_terminal host v qt fields n)) [
            | inr (f, failed) ↦ rw (failed, add_terminal) all
            | inl (u, checked) ↦ rw (checked, add_terminal) (add_internal-AllTerminals fields n all)
          ]

      add_each-AllTerminals :
          (each : List (List (Text × Q))) (added : List (Text × H)) (n : Network H Q T)
          → AllTerminals n
          → AllTerminals (add_each_terminal host v qt each added n).0
      unfolding add_each_terminal
      add_each-AllTerminals [] added n all = all
      add_each-AllTerminals (fields ∷ each) added n all =
          let first = add_internal-AllTerminals fields n all in
          elim (Reply-cases (add_terminal_internal host v qt fields n).1) [
            | inr (f, failed) ↦ rw (failed, add_each_terminal) first
            | inl (h, made) ↦ rw (made, add_each_terminal) (add_each-AllTerminals each _ _ first)
          ]

      pub add_terminals-AllTerminals :
          (each : List (List (Text × Q))) (n : Network H Q T)
          → AllTerminals n
          → AllTerminals (add_terminals host v qt each n).0
      unfolding add_terminals
      add_terminals-AllTerminals each n all =
          elim (Reply-cases (check_terminals host v qt n each [])) [
            | inr (f, failed) ↦ rw (failed, add_terminals) all
            | inl (u, checked) ↦ rw (checked, add_terminals) (add_each-AllTerminals each [] n all)
          ]

-- Routes leave the terminals alone.
module _ {H Q T : Type 0} ⦃r : Real T⦄ (v : Variant Q T) (qt : Qt) where
  pub update_graph-terminals :
      (mode : Mode) (n : Network H Q T) → (update_graph v qt mode n).0.terminals ≡ n.terminals
  unfolding update_graph
  update_graph-terminals mode n =
      elim (Reply-cases
        (build_all v qt n mode n.edge_data (add_vertices (names n.terminals) empty))) [
          | inr (f, failed) ↦ rw (failed, update_graph) refl
          | inl (built, done) ↦ rw (done, update_graph) refl
        ]

  module _ (host : Host H Q T) where
    pub add_route-terminals :
        (x : Route Q) (n : Network H Q T) → (add_route host v qt x n).0.terminals ≡ n.terminals
    unfolding add_route store_route
    add_route-terminals x n = elim (Reply-cases (check_route host v qt x n)) [
      | inr (f, failed) ↦ rw (failed, add_route) refl
      | inl (data_of, checked) ↦
          elim (Reply-cases
            (route_cost v qt n (canonical_name n x.start) (canonical_name n x.end) data_of)) [
              | inr (f, failed) ↦ rw (checked, add_route, store_route, failed) refl
              | inl (cost, priced) ↦ rw (checked, add_route, store_route, priced) refl
            ]
    ]

    add_each_route-terminals :
        (xs : List (Route Q)) (added : List (Text × Text)) (n : Network H Q T)
        → (add_each_route host v qt xs added n).0.terminals ≡ n.terminals
    unfolding add_each_route
    add_each_route-terminals [] added n = refl
    add_each_route-terminals (x ∷ xs) added n =
        let first = add_route-terminals x n in
        elim (Reply-cases (add_route host v qt x n).1) [
          | inr (f, failed) ↦ rw (failed, add_each_route) first
          | inl (ends, done) ↦
              rw (done, add_each_route)
                (add_each_route-terminals xs (added ++ ends ∷ []) (add_route host v qt x n).0
                  ∙ first)
        ]

    pub add_routes-terminals :
        (each : List (List (Text × Q))) (n : Network H Q T)
        → (add_routes host v qt each n).0.terminals ≡ n.terminals
    unfolding add_routes
    add_routes-terminals each n = elim (Reply-cases (read_routes host v qt n each)) [
      | inr (f, failed) ↦ rw (failed, add_routes) refl
      | inl (routes, read) ↦ rw (read, add_routes) (add_each_route-terminals routes [] n)
    ]
