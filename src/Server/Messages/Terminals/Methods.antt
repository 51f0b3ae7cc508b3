-- ===== src/Server/Messages/Terminals/Methods.antt =====
-- What the commands of src/server/command_processor.cpp keep of the terminals that they change.
use terminal_sim.Prelude.{
  ◌≡◌, Bool-cases, refl, sym, ap, subst, ◌∙◌, inl, inr, ℕ, ◌+◌, Bool, true, false, Option, List, [],
  ◌∷◌, Text, text_eq, nat_eq, arith, if◌then◌else◌,
}
use terminal_sim.Common.{Mode, Side}
use terminal_sim.Terminal.{Semantics}
use terminal_sim.Real.{Real}
use terminal_sim.Reply.{Reply, ok, throws, Reply-cases, >>=-ok, require-ok, ok_inj}
use terminal_sim.Network.{Network, canonical_name}
use terminal_sim.Network.Attributes.{set_cost_parameters, validate_cost_parameters}
use terminal_sim.Network.Invariant.{AllEntries, AllEntries-insert}
use terminal_sim.Network.Routes.{update_graph}
use terminal_sim.Network.Terminals.{add_alias_to_terminal, get_terminal}
use terminal_sim.Server.{Handler, SelectionCriteria, Setting}
use terminal_sim.Server.Messages.Terminals.{AllTerminals, get_terminal-P, update_graph-terminals}
use terminal_sim.Server.Graphs.{after}
use terminal_sim.Server.Queries.{clear_each, update_each}
use terminal_sim.Server.Terminals.{
  begin_command, change_terminal, get_terminal_from_params, with_terminal, updated,
}

-- A terminal has the property when it is made, and each of its methods that changes it keeps it.
pub record IsKept {C H K Q T : Type 0} (s : Setting C H K Q T) (P : H → Type 0) : Type 0 where
  pub made :
      (name display : Text) (sides : List (Side × List Mode)) (config : List (Text × Q)) (h : H)
      → s.host.create name display sides config ≡ ok h
      → P h
  pub reset : (h : H) → P h → P (s.host.reset h)
  pub adds :
      (c : C) (t : T) (m : Mode) (w : Semantics) (h : H)
      → P h
      → P (s.yard.add_container c t m w h).0
  pub adds_all :
      (cs : List C) (t : T) (m : Mode) (w : Semantics) (h : H)
      → P h
      → P (s.yard.add_containers cs t m w h).0
  pub adds_json :
      (o : List (Text × Q)) (t : T) (m : Mode) (w : Semantics) (h : H)
      → P h
      → P (s.yard.add_containers_from_json o t m w h).0
  pub dequeues_to :
      (d : Text) (t : T) (h : H) → P h → P (s.yard.dequeue_by_next_destination d t h).0
  pub dequeues : (c : SelectionCriteria K Q T) (t : T) (h : H) → P h → P (s.yard.dequeue c t h).0
  pub reserves : (i : Text) (c : SelectionCriteria K Q T) (h : H) → P h → P (s.yard.reserve i c h).0
  pub commits : (i : Text) (t : T) (h : H) → P h → P (s.yard.commit i t h).0
  pub releases : (i : Text) (h : H) → P h → P (s.yard.release i h).0
  pub clears : (h : H) → P h → P (s.yard.clear h).0
  pub updates : (now step : T) (h : H) → P h → P (s.yard.update_dynamics now step h).0
  pub clears_results : (e : Text) (h : H) → P h → P (s.yard.clear_execution_results e h).0

module _ {C H K Q T : Type 0} ⦃r : Real T⦄ (s : Setting C H K Q T) (P : H → Type 0)
    (kept : IsKept s P) where
  open s use {variant, host, yard, qt, text_lt, encoding}

  abbrev pub Keeps : Handler H Q T → Type 0
  Keeps handler =
      (params : List (Text × Q)) (n : Network H Q T)
      → AllTerminals P n
      → AllTerminals P (handler params n).0

  pub after-All :
      {A : Type 0} (n : Network H Q T) (m : Reply A) (next : A → Network H Q T × Option (Reply Q))
      → AllTerminals P n
      → ((a : A) → AllTerminals P (next a).0)
      → AllTerminals P (after n m next).0
  after-All n (throws f) next k h = k
  after-All n (ok a) next k h = h a

  -- The terminals of another network with the same ones.
  pub same-All :
      (n m : Network H Q T) → m.terminals ≡ n.terminals → AllTerminals P n → AllTerminals P m
  same-All n m e k = subst (AllEntries (λ (entry : Text × H). P entry.1)) (sym e) k

  with_terminal-All :
      (name : Text) (h : H) (n : Network H Q T)
      → P h
      → AllTerminals P n
      → AllTerminals P (with_terminal name h n)
  with_terminal-All name h n p k =
      AllEntries-insert (λ (entry : Text × H). P entry.1) (canonical_name n name) h n.terminals p k

  pub change_terminal-Keeps :
      {A : Type 0} (holds : Bool) (parsed : Reply A) (method : A → H → H × Reply Q)
      → ((a : A) (h : H) → P h → P (method a h).0)
      → Keeps (change_terminal s holds parsed method)
  unfolding change_terminal begin_command get_terminal_from_params
  change_terminal-Keeps {A} holds parsed method keeps params n k =
      elim (Reply-cases (begin_command s holds parsed params n)) [
        | inr (f, failed) ↦ rw (failed, change_terminal) k
        | inl ((h, a), begun) ↦
            rw (begun, change_terminal)
              (let (_, e1) = require-ok holds _ begun in
                let (h', found, e2) = >>=-ok (get_terminal_from_params s params n) _ e1 in
                let (_, e3) = require-ok _ _ found in
                let (a', _, e4) = >>=-ok parsed _ e2 in
                let there : h' ≡ h = ap (λ (x : H × A). x.0) (ok_inj e4) in
                with_terminal-All _ (method a h).0 n
                  (keeps a h (subst P (there) (get_terminal-P P n _ k e3))) k)
      ]

  pub set_costs-terminals :
      (costs : List (Text × Q)) (n : Network H Q T)
      → (set_cost_parameters variant qt costs n).0.terminals ≡ n.terminals
  unfolding set_cost_parameters
  set_costs-terminals costs n = elim (Reply-cases (validate_cost_parameters variant qt costs)) [
    | inr (f, failed) ↦ rw (failed, set_cost_parameters) refl
    | inl (u, valid) ↦ rw (valid, set_cost_parameters) refl
  ]

  add_alias-terminals :
      (name alias : Text) (n : Network H Q T)
      → (add_alias_to_terminal name alias n).0.terminals ≡ n.terminals
  unfolding add_alias_to_terminal
  add_alias-terminals name alias n = ground arith

  pub aliased :
      (n : Network H Q T) (name alias : Text)
      → AllTerminals P n
      → AllTerminals P (add_alias_to_terminal name alias n).0
  aliased n name alias k =
      same-All n (add_alias_to_terminal name alias n).0 (add_alias-terminals name alias n) k

  pub search-All :
      (test : Bool) (mode : Mode) (n m : Network H Q T)
      → m ≡ (if test then (update_graph variant qt mode n).0 else n)
      → AllTerminals P n
      → AllTerminals P m
  search-All true mode n m e k =
      same-All n m
        (ap (λ (x : Network H Q T). x.terminals) e ∙ update_graph-terminals variant qt mode n) k
  search-All false mode n m e k = same-All n m (ap (λ (x : Network H Q T). x.terminals) e) k

  pub clear_each-All :
      (execution : Text) (ids : List Text) (cleared : ℕ) (n : Network H Q T)
      → AllTerminals P n
      → AllTerminals P (clear_each s execution ids cleared n).0
  unfolding clear_each
  clear_each-All execution [] cleared n k = k
  clear_each-All execution (id ∷ ids) cleared n k = elim (Reply-cases (get_terminal n id)) [
    | inr (f, missing) ↦ rw (missing, clear_each) k
    | inl (h, found) ↦
        let step = yard.clear_execution_results execution h in
        rw (found, clear_each)
          (clear_each-All execution ids (cleared + step.1) (with_terminal id step.0 n) (
            with_terminal-All id step.0 n
              (kept.clears_results execution h (get_terminal-P P n id k found)) k))
  ]

  pub update_each-All :
      (params : List (Text × Q)) (names : List Text) (results : List Q) (n : Network H Q T)
      → AllTerminals P n
      → AllTerminals P (update_each s params names results n).0
  unfolding update_each
  update_each-All params [] results n k = k
  update_each-All params (name ∷ names) results n k = elim (Reply-cases (get_terminal n name)) [
    | inr (f, missing) ↦ rw (missing, update_each) k
    | inl (h, found) ↦
        let there =
          with_terminal-All name (updated s params h).0 n
            (kept.updates _ _ h (get_terminal-P P n name k found)) k in
        elim (Bool-cases (yard.dynamics_enabled h)) [
          | inr off ↦ rw (found, update_each, off) (update_each-All params names results n k)
          | inl on ↦ elim (Reply-cases (updated s params h).1) [
            | inr (f, failed) ↦ rw (found, update_each, on, failed) there
            | inl (u, done) ↦
                rw (found, update_each, on, done) (update_each-All params names _ _ there)
          ]
        ]
  ]
