-- ===== src/Network/Invariant/Routed.antt =====
-- `addRoute`, `addRoutes` and `updateGraph` of src/terminal/terminal_graph.cpp keep a network sound.
use terminal_sim.Prelude.{
  ◌≡◌, ◌≢◌, inl, inr, refl, ap, ◌∙◌, subst, true, false, not, ◌||◌, ◌&&◌, List, [], ◌∷◌, ◌++◌, Text,
  text_eq, arith, if_elim, ◌==◌,
}
use terminal_sim.Prelude.Maps
use terminal_sim.Prelude.Sets
use terminal_sim.Common.{Mode, Qt, mode_eq, mode_beq}
use terminal_sim.Real.{Real}
use terminal_sim.Reply.{ok, ok_inj, require-ok, >>=-ok, Reply-cases}
use terminal_sim.Graph.{EdgeKey, Graph, add_edge, add_vertex, add_vertices, empty, key_eq}
use terminal_sim.Graph.WellFormed.{
  WellFormed, add_edge-WellFormed, empty-WellFormed, has-add_edge, has-add_vertex,
}
use terminal_sim.Graph.Copies.{add_vertices-WellFormed}
use terminal_sim.Network.{EdgeData, Host, Network, Variant, canonical_name, is_concrete, registered}
use terminal_sim.Network.Routes.{
  Route, add_each_route, add_route, add_routes, build_all, build_edges, check_route, end_supports,
  names, put_edge_data, read_routes, route_cost, store_route, update_graph,
}
use terminal_sim.Network.Attributes.{validated_route_attributes}
use terminal_sim.Network.Invariant.{IsSound}
use terminal_sim.Network.Invariant.Keeps.{put_edge_data-entries}

-- What an edge whose cost passes `C` does not take from a graph.
abbrev pub GrowsBy : {T : Type 0} → (T → Type 0) → (Graph Text T → Type 0) → Type 0
GrowsBy {T} C P =
    (s t : Text) (cost : T) (m : Mode) (g : Graph Text T)
    → C cost
    → P g
    → P (add_edge s t cost m g).0

pub contains-names :
    {H : Type 0} (v : Text) (m : List (Text × H)) → Sets.contains v (names m) ≡ Maps.has v m
unfolding names Sets.contains Maps.has
contains-names v [] = refl
contains-names v (entry ∷ m) = ground (arith, contains-names v m)

has-add_vertices :
    {T : Type 0} (v : Text) (vs : List Text) (g : Graph Text T)
    → Maps.has v (add_vertices vs g).adjacency ≡ (Sets.contains v vs || Maps.has v g.adjacency)
unfolding add_vertices Sets.contains
has-add_vertices v [] g = refl
has-add_vertices v (x ∷ vs) g =
    ground (arith, has-add_vertices v vs (add_vertex x g).0, has-add_vertex x v g)

is_concrete_sound : (m : Mode) → is_concrete m ≡ true → m ≢ Mode.any
unfolding mode_beq
is_concrete_sound m h = ground arith

contains_only :
    {H : Type 0} (v : Text) (m : List (Text × H))
    → (Sets.contains v (names m) || false) ≡ Maps.has v m
contains_only v m = ground (arith, contains-names v m)

-- The graph that holds the terminals only.
pub has_terminals :
    {H : Type 0} (T : Type 0) (v : Text) (m : List (Text × H))
    → Maps.has v (add_vertices (names m) (empty {W = T})).adjacency ≡ Maps.has v m
unfolding empty Maps.has
has_terminals T v m = has-add_vertices v (names m) empty ∙ contains_only v m

module _ {H Q T : Type 0} ⦃r : Real T⦄ (v : Variant Q T) (qt : Qt) where
  -- Every cost of a route passes `C`.
  abbrev pub Priced : Network H Q T → (T → Type 0) → Type 0
  Priced n C = (s t : Text) (x : EdgeData Q) (cost : T) → route_cost v qt n s t x ≡ ok cost → C cost

  build_edges-keeps :
      (C : T → Type 0) (P : Graph Text T → Type 0)
      → GrowsBy C P
      → (n : Network H Q T) → Priced n C
      → (mode : Mode) (key : EdgeKey Text) (xs : List (EdgeData Q)) (g built : Graph Text T)
      → build_edges v qt n mode key xs g ≡ ok built
      → P g
      → P built
  unfolding build_edges
  build_edges-keeps C P grows n fair mode key [] g built h p = subst P (ok_inj h) p
  build_edges-keeps C P grows n fair mode key (x ∷ xs) g built h p =
      let skip = build_edges-keeps C P grows n fair mode key xs g built in
      let take = λ (cost : T).
        build_edges-keeps C P grows n fair mode key xs
          (add_edge key.source key.target cost x.mode g).0 built in
      if_elim (λ reply. reply ≡ ok built → P built) (not (mode == Mode.any) && not (x.mode == mode))
        (λ _ same. skip same p)
        (λ _ same.
          let (cost, priced, later) = >>=-ok (route_cost v qt n key.source key.target x) _ same in
          take cost later (
            grows key.source key.target cost x.mode g (fair key.source key.target x cost priced) p))
        h

  pub build_all-keeps :
      (C : T → Type 0) (P : Graph Text T → Type 0)
      → GrowsBy C P
      → (n : Network H Q T) → Priced n C
      → (mode : Mode) (m : List (EdgeKey Text × List (EdgeData Q))) (g built : Graph Text T)
      → build_all v qt n mode m g ≡ ok built
      → P g
      → P built
  unfolding build_all
  build_all-keeps C P grows n fair mode [] g built h p = subst P (ok_inj h) p
  build_all-keeps C P grows n fair mode (entry ∷ m) g built h p =
      let (next, first, later) = >>=-ok (build_edges v qt n mode entry.0 entry.1 g) _ h in
      build_all-keeps C P grows n fair mode m next built later
        (build_edges-keeps C P grows n fair mode entry.0 entry.1 g next first p)

  pub update_graph-IsSound :
      (mode : Mode) (n : Network H Q T) → IsSound n → IsSound (update_graph v qt mode n).0
  unfolding update_graph empty Maps.has
  update_graph-IsSound mode n k =
      elim (Reply-cases
        (build_all v qt n mode n.edge_data (add_vertices (names n.terminals) empty))) [
          | inr (f, failed) ↦ rw (failed, update_graph) k
          | inl (built, done) ↦
              rw (done, update_graph)
                (record {
                  graph_well =
                      build_all-keeps (λ _. Unit {0}) WellFormed
                        (λ s t cost m g _ wf. add_edge-WellFormed s t cost m g wf) n
                        (λ s t x cost _. tt) mode n.edge_data _ built done
                        (add_vertices-WellFormed (names n.terminals) empty empty-WellFormed);
                  vertices = λ y.
                      build_all-keeps (λ _. Unit {0})
                        (λ g. Maps.has y g.adjacency ≡ Maps.has y n.terminals)
                        (λ s t cost m g _ same. has-add_edge s t cost m g y ∙ same) n
                        (λ s t x cost _. tt) mode n.edge_data _ built done
                        (has_terminals T y n.terminals);
                  entries = k.entries;
                  named = k.named;
                  described = k.described;
                })
        ]

  store_route-IsSound :
      (s t : Text) (x : EdgeData Q) (n : Network H Q T)
      → x.mode ≢ Mode.any
      → registered n s ≡ true
      → registered n t ≡ true
      → IsSound n
      → IsSound (store_route v qt s t x n).0
  unfolding store_route
  store_route-IsSound s t x n some_mode hs ht k =
      let stored =
        put_edge_data-entries n.terminals t s x (put_edge_data s t x n.edge_data) some_mode ht hs
          (put_edge_data-entries n.terminals s t x n.edge_data some_mode hs ht k.entries) in
      elim (Reply-cases (route_cost v qt n s t x)) [
        | inr (f, failed) ↦
            rw (failed, store_route)
              (record {
                graph_well = k.graph_well;
                vertices = k.vertices;
                entries = stored;
                named = k.named;
                described = k.described;
              })
        | inl (cost, priced) ↦
            rw (priced, store_route)
              (record {
                graph_well =
                    add_edge-WellFormed t s cost x.mode _
                      (add_edge-WellFormed s t cost x.mode n.graph k.graph_well);
                vertices = λ y.
                    has-add_edge t s cost x.mode _ y
                    ∙ has-add_edge s t cost x.mode n.graph y
                    ∙ k.vertices y;
                entries = stored;
                named = k.named;
                described = k.described;
              })
      ]

  module _ (host : Host H Q T) where
    check_route-ends :
        (x : Route Q) (n : Network H Q T) (d : EdgeData Q)
        → check_route host v qt x n ≡ ok d
        → (d.mode ≢ Mode.any)
          × (registered n (canonical_name n x.start) ≡ true)
          × (registered n (canonical_name n x.end) ≡ true)
    unfolding check_route
    check_route-ends x n d h =
        let (concrete, h1) = require-ok (is_concrete x.mode) _ h in
        let (there, h2) =
          require-ok
            (registered n (canonical_name n x.start) && registered n (canonical_name n x.end)) _
            h1 in
        let (supported, h3) =
          require-ok
            (end_supports host v qt n x.mode (canonical_name n x.start)
              && end_supports host v qt n x.mode (canonical_name n x.end))
            _ h2 in
        let (attributes, valid, h4) =
          >>=-ok (validated_route_attributes v x.attributes n.default_attributes)
            (λ attributes. ok (record { route_id = x.id; mode = x.mode; attributes = attributes }))
            h3 in
        let same = ap (λ y. y.mode) (ok_inj h4) in
        (
          subst (λ m. m ≢ Mode.any) same (is_concrete_sound x.mode concrete),
          ground arith,
          ground arith,
        )

    pub add_route-IsSound :
        (x : Route Q) (n : Network H Q T) → IsSound n → IsSound (add_route host v qt x n).0
    unfolding add_route
    add_route-IsSound x n k = elim (Reply-cases (check_route host v qt x n)) [
      | inr (f, failed) ↦ rw (failed, add_route) k
      | inl (d, checked) ↦
          let (some_mode, hs, ht) = check_route-ends x n d checked in
          rw (checked, add_route)
            (store_route-IsSound (canonical_name n x.start) (canonical_name n x.end) d n some_mode
              hs ht k)
    ]

    add_each_route-IsSound :
        (xs : List (Route Q)) (added : List (Text × Text)) (n : Network H Q T)
        → IsSound n
        → IsSound (add_each_route host v qt xs added n).0
    unfolding add_each_route
    add_each_route-IsSound [] added n k = k
    add_each_route-IsSound (x ∷ xs) added n k =
        let one = add_route-IsSound x n k in
        let rest = λ (ends : Text × Text).
          add_each_route-IsSound xs (added ++ ends ∷ []) (add_route host v qt x n).0 one in
        elim (Reply-cases (add_route host v qt x n).1) [
          | inr (f, failed) ↦ rw (failed, add_each_route) one
          | inl (ends, done) ↦ rw (done, add_each_route) (rest ends)
        ]

    pub add_routes-IsSound :
        (each : List (List (Text × Q))) (n : Network H Q T)
        → IsSound n
        → IsSound (add_routes host v qt each n).0
    unfolding add_routes
    add_routes-IsSound each n k = elim (Reply-cases (read_routes host v qt n each)) [
      | inr (f, failed) ↦ rw (failed, add_routes) k
      | inl (routes, read) ↦ rw (read, add_routes) (add_each_route-IsSound routes [] n k)
    ]
