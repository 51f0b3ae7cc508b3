-- ===== src/Network/Routes.antt =====
-- The routes of a network in src/terminal/terminal_graph.cpp: `addRouteInternal`, `addRoute`,
-- `addRoutes`, and `updateGraph`, which builds the graph of a mode from the data of the routes.
use mathlib.Core.Option
use terminal_sim.Prelude.{
  Bool, false, not, ◌&&◌, none, some, List, [], ◌∷◌, ◌++◌, Text, text, text_eq, if◌then◌else◌, ◌==◌,
}
use terminal_sim.Prelude.Maps
use terminal_sim.Common.{Mode, Qt, mode_eq}
use terminal_sim.Real.{Real}
use terminal_sim.Graph.{EdgeKey, key_eq, Graph, add_edge, add_vertices, empty}
use terminal_sim.Reply.{Reply, ok, throws, require, ◌>>=◌, ◌>>◌}
use terminal_sim.Network.{EdgeData, Host, Network, Variant, canonical_name, is_concrete, registered}
use terminal_sim.Network.Attributes.{validated_route_attributes}
use terminal_sim.Network.Costs.{compute_cost, cost_params, details_of}
use terminal_sim.Network.Parsing.{is_nil, parse_mode_variant, terminal_supports_mode}

-- A route as `addRouteInternal` is given it.
pub record Route (Q : Type 0) : Type 0 where
  pub id : Text
  pub start : Text
  pub end : Text
  pub mode : Mode
  pub attributes : List (Text × Q)

-- The data of one mode takes the place of what was there for it.
unfoldable pub put_edge : {Q : Type 0} → EdgeData Q → List (EdgeData Q) → List (EdgeData Q)
put_edge x [] = x ∷ []
put_edge x (y ∷ ys) = let rest = put_edge x ys in if y.mode == x.mode then x ∷ ys else y ∷ rest

unfoldable pub put_edge_data :
    {Q : Type 0}
    → Text
    → Text
    → EdgeData Q
    → List (EdgeKey Text × List (EdgeData Q))
    → List (EdgeKey Text × List (EdgeData Q))
put_edge_data s t x m =
    let key : EdgeKey Text = record { source = s; target = t; mode = x.mode } in
    Maps.insert key (put_edge x (Maps.get_or key m [])) m

unfoldable pub names : {H : Type 0} → List (Text × H) → List Text
names [] = []
names (entry ∷ entries) = entry.0 ∷ names entries

module _ {H Q T : Type 0} ⦃r : Real T⦄ (v : Variant Q T) (qt : Qt) where
  -- `computeCost` of a route between two terminals.
  unfoldable pub route_cost : Network H Q T → Text → Text → EdgeData Q → Reply T
  route_cost n s t x =
      compute_cost v qt
        (cost_params v qt x.attributes (details_of n.terminal_data s)
          (details_of n.terminal_data t))
        n.cost_weights x.mode

  -- The data of the route stays if its cost cannot be computed.
  unfoldable pub store_route :
      Text → Text → EdgeData Q → Network H Q T → Network H Q T × Reply (Text × Text)
  store_route s t x n =
      let stored = record n { edge_data = put_edge_data t s x (put_edge_data s t x n.edge_data) } in
      elim (route_cost n s t x) as (λ _. Network H Q T × Reply (Text × Text)) [
        | throws f ↦ (stored, throws f)
        | ok cost ↦ (
          record stored {
            graph = (add_edge t s cost x.mode (add_edge s t cost x.mode n.graph).0).0;
          },
          ok (s, t),
        )
      ]

  -- The edges of one entry of `m_edgeData` that the mode admits.
  unfoldable pub build_edges :
      Network H Q T → Mode → EdgeKey Text → List (EdgeData Q) → Graph Text T → Reply (Graph Text T)
  build_edges n mode key [] g = ok g
  build_edges n mode key (x ∷ xs) g =
      let skip = build_edges n mode key xs g in
      let take =
        λ (cost : T). build_edges n mode key xs (add_edge key.source key.target cost x.mode g).0 in
      if not (mode == Mode.any) && not (x.mode == mode)
      then skip
      else route_cost n key.source key.target x >>= take

  unfoldable pub build_all :
      Network H Q T
      → Mode
      → List (EdgeKey Text × List (EdgeData Q))
      → Graph Text T
      → Reply (Graph Text T)
  build_all n mode [] g = ok g
  build_all n mode (entry ∷ entries) g =
      build_edges n mode entry.0 entry.1 g >>= build_all n mode entries

  unfoldable pub update_graph : Mode → Network H Q T → Network H Q T × Reply (Unit {0})
  update_graph mode n =
      elim (build_all n mode n.edge_data (add_vertices (names n.terminals) empty))
        as (λ _. Network H Q T × Reply (Unit {0})) [
          | throws f ↦ (n, throws f)
          | ok built ↦ (record n { graph = built }, ok tt)
        ]

module _ {H Q T : Type 0} ⦃r : Real T⦄ (host : Host H Q T) (v : Variant Q T) (qt : Qt) where
  abbrev pub end_supports : Network H Q T → Mode → Text → Bool
  end_supports n mode canonical = elim (Maps.lookup canonical n.terminals) as (λ _. Bool) [
    | none ↦ false
    | some h ↦ terminal_supports_mode host h mode
  ]

  -- The tests before the first change: what comes back is the data of the route.
  unfoldable pub check_route : Route Q → Network H Q T → Reply (EdgeData Q)
  check_route x n = do
    let s = canonical_name n x.start
    let t = canonical_name n x.end
    require (is_concrete x.mode)
    require (registered n s && registered n t)
    require (end_supports n x.mode s && end_supports n x.mode t)
    attributes ← validated_route_attributes v x.attributes n.default_attributes
    ok (record { route_id = x.id; mode = x.mode; attributes = attributes })

  -- `addRouteInternal` and `addRoute`.
  unfoldable pub add_route : Route Q → Network H Q T → Network H Q T × Reply (Text × Text)
  add_route x n = elim (check_route x n) as (λ _. Network H Q T × Reply (Text × Text)) [
    | throws f ↦ (n, throws f)
    | ok checked ↦ store_route v qt (canonical_name n x.start) (canonical_name n x.end) checked n
  ]

  abbrev text_field : Text → List (Text × Q) → Text
  text_field key fields = v.to_text (Maps.get_or key fields v.null)

  -- The tests of `addRoutes` on one item, with the route that it describes.
  unfoldable pub read_route : Network H Q T → List (Text × Q) → Reply (Route Q)
  read_route n fields = do
    require (
        Maps.has (text "route_id") fields
        && Maps.has (text "start_terminal") fields
        && Maps.has (text "end_terminal") fields
        && Maps.has (text "mode") fields)
    let id = text_field (text "route_id") fields
    let start = text_field (text "start_terminal") fields
    let end = text_field (text "end_terminal") fields
    let s = canonical_name n start
    let t = canonical_name n end
    require (
        not (is_nil (qt.trimmed id))
        && not (is_nil (qt.trimmed start))
        && not (is_nil (qt.trimmed end)))
    require (registered n s && registered n t)
    mode ← parse_mode_variant v qt (Maps.get_or (text "mode") fields v.null) false
    require (end_supports n mode s && end_supports n mode t)
    let given = Option.get_or (v.entries (Maps.get_or (text "attributes") fields v.null)) []
    attributes ←
        validated_route_attributes v (if Maps.has (text "attributes") fields then given else [])
          n.default_attributes
    ok (record { id = id; start = start; end = end; mode = mode; attributes = attributes })

  unfoldable pub read_routes : Network H Q T → List (List (Text × Q)) → Reply (List (Route Q))
  read_routes n [] = ok []
  read_routes n (fields ∷ more) = do
    x ← read_route n fields
    rest ← read_routes n more
    ok (x ∷ rest)

  unfoldable pub add_each_route :
      List (Route Q)
      → List (Text × Text)
      → Network H Q T
      → Network H Q T × Reply (List (Text × Text))
  add_each_route [] added n = (n, ok added)
  add_each_route (x ∷ xs) added n =
      let step = add_route x n in
      let rest = λ (ends : Text × Text). add_each_route xs (added ++ ends ∷ []) step.0 in
      elim step.1 as (λ _. Network H Q T × Reply (List (Text × Text))) [
        | throws f ↦ (step.0, throws f)
        | ok ends ↦ rest ends
      ]

  unfoldable pub add_routes :
      List (List (Text × Q)) → Network H Q T → Network H Q T × Reply (List (Text × Text))
  add_routes each n =
      elim (read_routes n each) as (λ _. Network H Q T × Reply (List (Text × Text))) [
        | throws f ↦ (n, throws f)
        | ok routes ↦ add_each_route routes [] n
      ]
