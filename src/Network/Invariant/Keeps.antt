-- ===== src/Network/Invariant/Keeps.antt =====
-- The changes of src/terminal/terminal_graph.cpp keep a network sound.
use terminal_sim.Prelude.{
  ◌≡◌, ◌≢◌, ◌⊎◌, inl, inr, refl, ap, ◌∙◌, true, false, List, [], ◌∷◌, Text, text_eq, arith,
  Bool-cases,
}
use terminal_sim.Prelude.Maps
use terminal_sim.Prelude.Sets
use terminal_sim.Common.{Mode, mode_eq}
use terminal_sim.Graph.{EdgeKey, empty, key_eq}
use terminal_sim.Graph.WellFormed.{add_vertex-WellFormed, empty-WellFormed, has-add_vertex}
use terminal_sim.Graph.Removal.{Restricts-WellFormed, away_from, remove_vertex-exact}
use terminal_sim.Network.{EdgeData, Host, Network, canonical_name, registered}
use terminal_sim.Network.Routes.{put_edge, put_edge_data}
use terminal_sim.Network.Terminals.{
  Plan, add_alias_to_terminal, clear, install, remove_terminal, set_of, without_edges_of,
}
use terminal_sim.Network.Invariant.{
  AllEntries, AllEntries-get_or, AllEntries-insert, AllEntries-map, AllEntries-without_edges_of,
  IsGoodEntry, IsSound, contains-get_or-insert, contains-set_of, lookup-forget_all, lookup-name_all,
}

-- No data yet, or data of the mode of the key.
abbrev OneOfMode : {Q : Type 0} → EdgeKey Text × List (EdgeData Q) → Type 0
OneOfMode {Q} entry =
    (entry.1 ≡ []) ⊎ ((y : EdgeData Q) × (entry.1 ≡ y ∷ []) × (y.mode ≡ entry.0.mode))

module _ {H Q : Type 0} where
  -- The data of a route between two terminals.
  pub put_edge_data-entries :
      (terminals : List (Text × H)) (s t : Text) (x : EdgeData Q)
      (m : List (EdgeKey Text × List (EdgeData Q)))
      → x.mode ≢ Mode.any
      → Maps.has s terminals ≡ true
      → Maps.has t terminals ≡ true
      → AllEntries (IsGoodEntry terminals) m
      → AllEntries (IsGoodEntry terminals) (put_edge_data s t x m)
  unfolding put_edge_data put_edge
  put_edge_data-entries terminals s t x m some_mode hs ht k =
      let key : EdgeKey Text = record { source = s; target = t; mode = x.mode } in
      AllEntries-insert (IsGoodEntry terminals) key (put_edge x (Maps.get_or key m [])) m
        (
          (
            x,
            only (Maps.get_or key m []) (
                AllEntries-get_or OneOfMode key m [] (AllEntries-map _ _ m (λ entry g. inr g.0) k)
                  (inl refl)),
            refl,
          ),
          some_mode,
          hs,
          ht,
        )
        k
    where
      only :
          (xs : List (EdgeData Q))
          → (xs ≡ []) ⊎ ((y : EdgeData Q) × (xs ≡ y ∷ []) × (y.mode ≡ x.mode))
          → put_edge x xs ≡ x ∷ []
      only xs (inl nothing) = rw (nothing, put_edge) refl
      only xs (inr (y, one, same)) =
          rw (one, put_edge) (rw ((mode_eq.same_iff y.mode x.mode).1 same) refl)

module _ {H Q T : Type 0} where
  pub install-IsSound :
      (host : Host H Q T) (p : Plan H) (n : Network H Q T)
      → Maps.has p.canonical n.terminals ≡ false
      → IsSound n
      → IsSound (install host p n)
  unfolding install
  install-IsSound host p n fresh k = record {
    graph_well = add_vertex-WellFormed p.canonical n.graph k.graph_well;
    vertices = λ v. ground (
      arith,
      k.vertices v,
      has-add_vertex p.canonical v n.graph,
      Maps.has-insert p.canonical v p.host n.terminals,
      text_eq.same_iff p.canonical v,
    );
    entries =
        AllEntries-map _ _ n.edge_data
          (λ entry g. (
            g.0,
            g.1,
            ground (arith, g.2, Maps.has-insert p.canonical entry.0.source p.host n.terminals),
            ground (arith, g.3, Maps.has-insert p.canonical entry.0.target p.host n.terminals),
          ))
          k.entries;
    named = λ a c h. ground (
      arith,
      lookup-name_all a p.canonical p.names n.aliases,
      k.named a c,
      text_eq.same_iff p.canonical c,
      Maps.has-insert p.canonical c p.host n.terminals,
      contains-get_or-insert a p.canonical c (set_of p.names) n.canonical_to_aliases,
      contains-set_of a p.names,
      λ (q : p.canonical ≡ c). ap (λ y. Maps.has y n.terminals) q,
    );
    described = λ v. ground (
      arith,
      k.described v,
      Maps.has-insert p.canonical v
          (record {
            handling_time = host.handling_time p.host;
            handling_cost = host.handling_cost p.host;
          })
          n.terminal_data,
      Maps.has-insert p.canonical v p.host n.terminals,
    );
  }

  -- A name that leads to a terminal leads to it by the table of aliases, or is its own.
  pub add_alias-IsSound :
      (name alias : Text) (n : Network H Q T)
      → IsSound n
      → IsSound (add_alias_to_terminal name alias n).0
  unfolding add_alias_to_terminal
  add_alias-IsSound name alias n k = elim (Bool-cases (registered n (canonical_name n name))) [
    | inr missing ↦ rw missing k
    | inl there ↦ rw there (record {
      graph_well = k.graph_well;
      vertices = k.vertices;
      entries = k.entries;
      named = λ a c h. ground (
        arith,
        there,
        Maps.lookup-insert alias a (canonical_name n name) n.aliases,
        k.named a c,
        text_eq.same_iff alias a,
        text_eq.same_iff (canonical_name n name) c,
        contains-get_or-insert a (canonical_name n name) c
            (Sets.insert alias (Maps.get_or (canonical_name n name) n.canonical_to_aliases []))
            n.canonical_to_aliases,
        Sets.contains-insert alias a
            (Maps.get_or (canonical_name n name) n.canonical_to_aliases []),
        λ (q : canonical_name n name ≡ c). ap (λ y. Maps.has y n.terminals) q,
        λ (q : canonical_name n name ≡ c).
            ap (λ y. Sets.contains a (Maps.get_or y n.canonical_to_aliases [])) q,
      );
      described = k.described;
    })
  ]

  pub remove_terminal-IsSound :
      (name : Text) (n : Network H Q T) → IsSound n → IsSound (remove_terminal name n).0
  unfolding remove_terminal
  remove_terminal-IsSound name n k = elim (Bool-cases (registered n (canonical_name n name))) [
    | inr missing ↦ rw missing k
    | inl there ↦
        let c = canonical_name n name in
        let exact = remove_vertex-exact c n.graph k.graph_well (k.vertices c ∙ there) in
        rw there (record {
          graph_well = Restricts-WellFormed (away_from c) n.graph _ exact.2 k.graph_well;
          vertices = λ v. ground (arith, k.vertices v, exact.1 v, Maps.has-remove c v n.terminals);
          entries =
              AllEntries-map _ _ (without_edges_of c n.edge_data)
                (λ entry g. (
                  g.0.0,
                  g.0.1,
                  ground (
                    arith,
                    g,
                    g.0.2,
                    Maps.has-remove c entry.0.source n.terminals,
                    text_eq.same_iff c entry.0.source,
                    text_eq.same_iff entry.0.source c,
                  ),
                  ground (
                    arith,
                    g,
                    g.0.3,
                    Maps.has-remove c entry.0.target n.terminals,
                    text_eq.same_iff c entry.0.target,
                    text_eq.same_iff entry.0.target c,
                  ),
                ))
                (AllEntries-without_edges_of (IsGoodEntry n.terminals) c n.edge_data k.entries);
          named = λ a d h. ground (
            arith,
            lookup-forget_all a (Maps.get_or c n.canonical_to_aliases []) n.aliases,
            k.named a d,
            text_eq.same_iff c d,
            Maps.has-remove c d n.terminals,
            Maps.get_or-remove c d [] n.canonical_to_aliases,
            λ (q : c ≡ d). ap (λ y. Sets.contains a (Maps.get_or y n.canonical_to_aliases [])) q,
            λ (q : Maps.get_or d (Maps.remove c n.canonical_to_aliases) []
                  ≡ Maps.get_or d n.canonical_to_aliases []).
                ap (Sets.contains a) q,
          );
          described = λ v. ground (
            arith,
            k.described v,
            Maps.has-remove c v n.terminal_data,
            Maps.has-remove c v n.terminals,
          );
        })
  ]

  pub clear-IsSound : (n : Network H Q T) → IsSound (clear n)
  unfolding clear empty Maps.has Maps.lookup
  clear-IsSound n = record {
    graph_well = empty-WellFormed;
    vertices = λ v. refl;
    entries = tt;
    named = λ a c h. absurd cc;
    described = λ v. refl;
  }
