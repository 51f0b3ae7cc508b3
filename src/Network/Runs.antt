-- ===== src/Network/Runs.antt =====
-- The calls that change a network, of src/terminal/terminal_graph.cpp, as steps, and what every run
-- of them keeps.
use terminal_sim.Prelude.{◌≡◌, ◌∙◌, sym, refl, inl, inr, List, [], ◌∷◌, Text, text_eq, arith}
use terminal_sim.Prelude.Maps
use terminal_sim.Common.{Mode, Qt}
use terminal_sim.Real.{Real}
use terminal_sim.Reply.{Reply-cases}
use terminal_sim.Graph.{empty}
use terminal_sim.Network.{Host, Network, Variant}
use terminal_sim.Network.Attributes.{
  default_cost_parameters, default_link_attributes, reset_configuration, set_cost_parameters,
  set_link_default_attributes, validate_cost_parameters, validated_attribute_map,
  route_attribute_keys,
}
use terminal_sim.Network.Terminals.{
  add_alias_to_terminal, add_terminal, add_terminals, clear, remove_terminal,
}
use terminal_sim.Network.Status.{reset_runtime_state_of, reset_those, to_reset}
use terminal_sim.Network.Routes.{Route, add_route, add_routes, update_graph}
use terminal_sim.Network.Invariant.{AllEntries-map, IsSound}
use terminal_sim.Network.Invariant.Keeps.{add_alias-IsSound, clear-IsSound, remove_terminal-IsSound}
use terminal_sim.Network.Invariant.Added.{add_terminal-IsSound, add_terminals-IsSound}
use terminal_sim.Network.Invariant.Routed.{
  add_route-IsSound, add_routes-IsSound, update_graph-IsSound,
}

module _ {H Q T : Type 0} ⦃r : Real T⦄ (host : Host H Q T) (v : Variant Q T) (qt : Qt) where
  -- The searches change a network by `updates` only.
  pub data Step : Network H Q T → Network H Q T → Type 0 where
    adds_terminal :
        (fields : List (Text × Q)) (n : Network H Q T) → Step n (add_terminal host v qt fields n).0
    adds_terminals :
        (each : List (List (Text × Q))) (n : Network H Q T)
        → Step n (add_terminals host v qt each n).0
    adds_alias :
        (name alias : Text) (n : Network H Q T) → Step n (add_alias_to_terminal name alias n).0
    removes : (name : Text) (n : Network H Q T) → Step n (remove_terminal name n).0
    adds_route : (x : Route Q) (n : Network H Q T) → Step n (add_route host v qt x n).0
    adds_routes :
        (each : List (List (Text × Q))) (n : Network H Q T) → Step n (add_routes host v qt each n).0
    updates : (mode : Mode) (n : Network H Q T) → Step n (update_graph v qt mode n).0
    sets_costs :
        (params : List (Text × Q)) (n : Network H Q T)
        → Step n (set_cost_parameters v qt params n).0
    sets_defaults :
        (attrs : List (Text × Q)) (n : Network H Q T)
        → Step n (set_link_default_attributes v attrs n).0
    resets_configuration : (n : Network H Q T) → Step n (reset_configuration v qt n)
    resets : (ids : List Text) (n : Network H Q T) → Step n (reset_runtime_state_of host qt ids n).0
    clears : (n : Network H Q T) → Step n (clear n)

  pub data Run : Network H Q T → Network H Q T → Type 0 where
    stays : (n : Network H Q T) → Run n n
    goes : (n m k : Network H Q T) → Step n m → Run m k → Run n k

  -- The network that the constructor makes.
  unfoldable pub new_network : Network H Q T
  new_network = record {
    graph = empty;
    edge_data = [];
    aliases = [];
    canonical_to_aliases = [];
    terminals = [];
    regions = [];
    terminal_data = [];
    cost_weights = default_cost_parameters v qt;
    default_attributes = default_link_attributes v;
  }

  -- The invariant does not read the configuration.
  configured :
      (n : Network H Q T) (weights attrs : List (Text × Q))
      → IsSound n
      → IsSound (record n { cost_weights = weights; default_attributes = attrs })
  configured n weights attrs k = record {
    graph_well = k.graph_well;
    vertices = k.vertices;
    entries = k.entries;
    named = k.named;
    described = k.described;
  }

  -- The invariant reads only which terminals there are.
  pub terminals-IsSound :
      (n : Network H Q T) (others : List (Text × H))
      → ((y : Text) → Maps.has y others ≡ Maps.has y n.terminals)
      → IsSound n
      → IsSound (record n { terminals = others })
  terminals-IsSound n others same k = record {
    graph_well = k.graph_well;
    vertices = λ y. k.vertices y ∙ sym (same y);
    entries =
        AllEntries-map _ _ n.edge_data
          (λ entry g. (g.0, g.1, same entry.0.source ∙ g.2, same entry.0.target ∙ g.3)) k.entries;
    named = λ a c h. let (there, listed) = k.named a c h in (same c ∙ there, listed);
    described = λ y. k.described y ∙ sym (same y);
  }

  has-reset_those :
      (names : List Text) (y : Text) (m : List (Text × H))
      → Maps.has y (reset_those host names m) ≡ Maps.has y m
  unfolding reset_those Maps.has
  has-reset_those names y [] = refl
  has-reset_those names y ((name, h) ∷ m) = ground (arith, has-reset_those names y m)

  sets_costs-IsSound :
      (params : List (Text × Q)) (n : Network H Q T)
      → IsSound n
      → IsSound (set_cost_parameters v qt params n).0
  unfolding set_cost_parameters
  sets_costs-IsSound params n k = elim (Reply-cases (validate_cost_parameters v qt params)) [
    | inr (f, failed) ↦ rw (failed, set_cost_parameters) k
    | inl (u, valid) ↦ rw (valid, set_cost_parameters) (configured n params n.default_attributes k)
  ]

  sets_defaults-IsSound :
      (attrs : List (Text × Q)) (n : Network H Q T)
      → IsSound n
      → IsSound (set_link_default_attributes v attrs n).0
  unfolding set_link_default_attributes
  sets_defaults-IsSound attrs n k =
      elim (Reply-cases
        (validated_attribute_map v attrs route_attribute_keys route_attribute_keys)) [
          | inr (f, failed) ↦ rw (failed, set_link_default_attributes) k
          | inl (valid, done) ↦
              rw (done, set_link_default_attributes) (configured n n.cost_weights valid k)
        ]

  resets-IsSound :
      (ids : List Text) (n : Network H Q T)
      → IsSound n
      → IsSound (reset_runtime_state_of host qt ids n).0
  unfolding reset_runtime_state_of
  resets-IsSound ids n k = elim (Reply-cases (to_reset host qt ids n)) [
    | inr (f, failed) ↦ rw (failed, reset_runtime_state_of) k
    | inl (names, done) ↦
        rw (done, reset_runtime_state_of)
          (terminals-IsSound n (reset_those host names n.terminals)
            (λ y. has-reset_those names y n.terminals) k)
  ]

  pub Step-IsSound : (n m : Network H Q T) → Step n m → IsSound n → IsSound m
  unfolding reset_configuration
  Step-IsSound n _ (adds_terminal fields _) k = add_terminal-IsSound host v qt fields n k
  Step-IsSound n _ (adds_terminals each _) k = add_terminals-IsSound host v qt each n k
  Step-IsSound n _ (adds_alias name alias _) k = add_alias-IsSound name alias n k
  Step-IsSound n _ (removes name _) k = remove_terminal-IsSound name n k
  Step-IsSound n _ (adds_route x _) k = add_route-IsSound v qt host x n k
  Step-IsSound n _ (adds_routes each _) k = add_routes-IsSound v qt host each n k
  Step-IsSound n _ (updates mode _) k = update_graph-IsSound v qt mode n k
  Step-IsSound n _ (sets_costs params _) k = sets_costs-IsSound params n k
  Step-IsSound n _ (sets_defaults attrs _) k = sets_defaults-IsSound attrs n k
  Step-IsSound n _ (resets_configuration _) k =
      configured n (default_cost_parameters v qt) (default_link_attributes v) k
  Step-IsSound n _ (resets ids _) k = resets-IsSound ids n k
  Step-IsSound n _ (clears _) k = clear-IsSound n

  pub Run-IsSound : (n : Network H Q T) → Run new_network n → IsSound n
  unfolding new_network clear
  Run-IsSound n run = from new_network n run (
      configured (clear new_network) (default_cost_parameters v qt) (default_link_attributes v)
        (clear-IsSound new_network))
    where
      from : (n m : Network H Q T) → Run n m → IsSound n → IsSound m
      from n _ (stays _) k = k
      from n m (goes _ next _ step more) k = from next m more (Step-IsSound n next step k)
