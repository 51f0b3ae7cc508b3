-- ===== src/Network/Invariant/Added.antt =====
-- `addTerminal` and `addTerminals` of src/terminal/terminal_graph.cpp keep a network sound.
use terminal_sim.Prelude.{
  ◌≡◌, ◌⊎◌, ⊎_elim, inl, inr, sym, ap, ◌∙◌, subst, true, false, not, List, [], ◌∷◌, Text, text,
  text_eq, arith, if_elim, ◌==◌, ==_refl,
}
use terminal_sim.Prelude.Maps
use terminal_sim.Prelude.Sets
use terminal_sim.Common.{Qt}
use terminal_sim.Reply.{Reply, ok, ok_inj, require-ok, >>=-ok, Reply-cases}
use terminal_sim.Network.{Host, Network, Variant, registered}
use terminal_sim.Network.Parsing.{parse_terminal_interfaces, parse_terminal_names}
use terminal_sim.Network.Terminals.{
  Plan, add_each_terminal, add_terminal, add_terminal_internal, add_terminals, check_terminal,
  check_terminals, claim_names, install, plan, value_of, entries_of, has_required_fields,
}
use terminal_sim.Network.Invariant.{IsSound}
use terminal_sim.Network.Invariant.Keeps.{install-IsSound}

module _ {H Q T : Type 0} (host : Host H Q T) (v : Variant Q T) (qt : Qt) where
  abbrev names_in : List (Text × Q) → Reply (Text × List Text)
  names_in fields = parse_terminal_names v qt (value_of host v qt (text "terminal_names") fields)

  -- A plan carries the canonical name that its data names.
  plan_names :
      (fields : List (Text × Q)) (p : Plan H)
      → plan host v qt fields ≡ ok p
      → (names : Text × List Text) × (names_in fields ≡ ok names) × (p.canonical ≡ names.0)
  unfolding plan
  plan_names fields p h =
      let (names, read, h1) = >>=-ok (names_in fields) _ h in
      let (sides, parsed, h2) =
        >>=-ok
          (parse_terminal_interfaces v qt
            (entries_of host v qt (text "terminal_interfaces") fields))
          _ h1 in
      let (made, created, h3) =
        >>=-ok
          (host.create names.0 (v.to_text (value_of host v qt (text "display_name") fields)) sides
            (entries_of host v qt (text "custom_config") fields))
          _ h2 in
      (names, read, sym (ap (λ q. q.canonical) (ok_inj h3)))

  check_terminal-fresh :
      (fields : List (Text × Q)) (n : Network H Q T) {u : Unit {0}}
      → check_terminal host v qt fields n ≡ ok u
      → (names : Text × List Text) × (names_in fields ≡ ok names) × (registered n names.0 ≡ false)
  unfolding check_terminal
  check_terminal-fresh fields n h =
      let (required, h1) = require-ok (has_required_fields host v qt fields) _ h in
      let (names, read, h2) = >>=-ok (names_in fields) _ h1 in
      let (new, h3) = require-ok (not (registered n names.0)) _ h2 in (names, read, ground arith)

  add_terminal_internal-IsSound :
      (fields : List (Text × Q)) (n : Network H Q T)
      → ((names : Text × List Text) → names_in fields ≡ ok names → registered n names.0 ≡ false)
      → IsSound n
      → IsSound (add_terminal_internal host v qt fields n).0
  unfolding add_terminal_internal
  add_terminal_internal-IsSound fields n fresh k = elim (Reply-cases (plan host v qt fields)) [
    | inr (f, failed) ↦ rw (failed, add_terminal_internal) k
    | inl (p, planned) ↦
        let (names, read, same) = plan_names fields p planned in
        rw (planned, add_terminal_internal)
          (install-IsSound host p n (ap (registered n) same ∙ fresh names read) k)
  ]

  pub add_terminal-IsSound :
      (fields : List (Text × Q)) (n : Network H Q T)
      → IsSound n
      → IsSound (add_terminal host v qt fields n).0
  unfolding add_terminal
  add_terminal-IsSound fields n k = elim (Reply-cases (check_terminal host v qt fields n)) [
    | inr (f, failed) ↦ rw (failed, add_terminal) k
    | inl (u, checked) ↦
        let (names, read, new) = check_terminal-fresh fields n checked in
        rw (checked, add_terminal)
          (add_terminal_internal-IsSound fields n
            (λ others again. subst (λ y. registered n y.0 ≡ false) (ok_inj (sym read ∙ again)) new)
            k)
  ]

  -- What `claim_names` says of its first name, and that it forgets none.
  claim_names-more :
      (n : Network H Q T) (names seen all : List Text)
      → claim_names host v qt n names seen ≡ ok all
      → (a : Text) → Sets.contains a seen ≡ true
      → Sets.contains a all ≡ true
  unfolding claim_names
  claim_names-more n [] seen all h a k = subst (λ y. Sets.contains a y ≡ true) (ok_inj h) k
  claim_names-more n (name ∷ names) seen all h a k =
      let (free, h1) = require-ok (not (Maps.has name n.aliases)) _ h in
      let (new, h2) = require-ok (not (Sets.contains name seen)) _ h1 in
      claim_names-more n names (Sets.insert name seen) all h2 a
        (ground (arith, Sets.contains-insert name a seen))

  claim_names-first :
      (n : Network H Q T) (name : Text) (names seen all : List Text)
      → claim_names host v qt n (name ∷ names) seen ≡ ok all
      → (Sets.contains name seen ≡ false) × (Sets.contains name all ≡ true)
  unfolding claim_names
  claim_names-first n name names seen all h =
      let (free, h1) = require-ok (not (Maps.has name n.aliases)) _ h in
      let (new, h2) = require-ok (not (Sets.contains name seen)) _ h1 in
      (
        ground arith,
        claim_names-more n names (Sets.insert name seen) all h2 name
            (ground (arith, Sets.contains-insert name name seen, ==_refl name)),
      )

  -- The terminals of `m` are those of `n` and some that were claimed.
  abbrev Claimed : Network H Q T → Network H Q T → List Text → Type 0
  Claimed n m seen =
      (a : Text) → registered m a ≡ true → (registered n a ≡ true) ⊎ (Sets.contains a seen ≡ true)

  check_terminals-cons :
      (n : Network H Q T) (fields : List (Text × Q)) (more : List (List (Text × Q)))
      (seen : List Text) {u : Unit {0}}
      → check_terminals host v qt n (fields ∷ more) seen ≡ ok u
      → (names : Text × List Text) × (all : List Text) × (names_in fields ≡ ok names)
        × (registered n names.0 ≡ false)
        × (claim_names host v qt n (names.0 ∷ names.1) seen ≡ ok all)
        × (check_terminals host v qt n more all ≡ ok u)
  unfolding check_terminals
  check_terminals-cons n fields more seen h =
      let (required, h1) = require-ok (has_required_fields host v qt fields) _ h in
      let (names, read, h2) = >>=-ok (names_in fields) _ h1 in
      let (new, h3) = require-ok (not (registered n names.0)) _ h2 in
      let (all, claimed, h4) = >>=-ok (claim_names host v qt n (names.0 ∷ names.1) seen) _ h3 in
      let (sides, parsed, h5) =
        >>=-ok
          (parse_terminal_interfaces v qt
            (entries_of host v qt (text "terminal_interfaces") fields))
          _ h4 in
      (names, all, read, ground arith, claimed, h5)

  add_terminal_internal-Claimed :
      (n m : Network H Q T) (fields : List (Text × Q)) (names : Text × List Text)
      (seen all : List Text)
      → names_in fields ≡ ok names
      → claim_names host v qt n (names.0 ∷ names.1) seen ≡ ok all
      → Claimed n m seen
      → Claimed n (add_terminal_internal host v qt fields m).0 all
  unfolding add_terminal_internal install
  add_terminal_internal-Claimed n m fields names seen all read claimed k a =
      elim (Reply-cases (plan host v qt fields)) [
        | inr (f, failed) ↦
            rw (failed, add_terminal_internal)
              (λ there.
                ⊎_elim inl (λ s. inr (claim_names-more n (names.0 ∷ names.1) seen all claimed a s))
                  (k a there))
        | inl (p, planned) ↦
            rw (planned, add_terminal_internal)
              (λ there.
                let (others, again, first) = plan_names fields p planned in
                let same : p.canonical ≡ names.0 =
                  first ∙ ap (λ y. y.0) (ok_inj (sym again ∙ read)) in
                if_elim (λ b. b ≡ true → (registered n a ≡ true) ⊎ (Sets.contains a all ≡ true))
                  (p.canonical == a)
                  (λ is _. inr (
                    subst (λ y. Sets.contains y all ≡ true)
                      (sym same ∙ (text_eq.same_iff p.canonical a).0 is)
                      (claim_names-first n names.0 names.1 seen all claimed).1))
                  (λ _ old.
                    ⊎_elim inl
                      (λ s. inr (claim_names-more n (names.0 ∷ names.1) seen all claimed a s))
                      (k a old))
                  (sym (Maps.has-insert p.canonical a p.host m.terminals) ∙ there))
      ]

  add_each_terminal-IsSound :
      (n : Network H Q T) (each : List (List (Text × Q))) (added : List (Text × H))
      (m : Network H Q T) (seen : List Text) {u : Unit {0}}
      → check_terminals host v qt n each seen ≡ ok u
      → Claimed n m seen
      → IsSound m
      → IsSound (add_each_terminal host v qt each added m).0
  unfolding add_each_terminal
  add_each_terminal-IsSound n [] added m seen h c k = k
  add_each_terminal-IsSound n (fields ∷ more) added m seen h c k =
      let (names, all, read, new, claimed, later) = check_terminals-cons n fields more seen h in
      let fresh = λ (others : Text × List Text) (again : names_in fields ≡ ok others).
        subst (λ y. registered m y.0 ≡ false) (ok_inj (sym read ∙ again))
          (ground (arith, c names.0, new, claim_names-first n names.0 names.1 seen all claimed)) in
      let one = add_terminal_internal-IsSound fields m fresh k in
      let step = (add_terminal_internal host v qt fields m).0 in
      let rest = λ (h : H).
        add_each_terminal-IsSound n more (Maps.insert (host.name h) h added) step all later
          (add_terminal_internal-Claimed n m fields names seen all read claimed c) one in
      elim (Reply-cases (add_terminal_internal host v qt fields m).1) [
        | inr (f, failed) ↦ rw (failed, add_each_terminal) one
        | inl (h, done) ↦ rw (done, add_each_terminal) (rest h)
      ]

  pub add_terminals-IsSound :
      (each : List (List (Text × Q))) (n : Network H Q T)
      → IsSound n
      → IsSound (add_terminals host v qt each n).0
  unfolding add_terminals
  add_terminals-IsSound each n k = elim (Reply-cases (check_terminals host v qt n each [])) [
    | inr (f, failed) ↦ rw (failed, add_terminals) k
    | inl (u, checked) ↦
        rw (checked, add_terminals)
          (add_each_terminal-IsSound n each [] n [] checked (λ a there. inl there) k)
  ]
