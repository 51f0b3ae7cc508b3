-- ===== src/Network/Paths.antt =====
-- `convertEdgePathToTerminalPath` of src/terminal/terminal_graph.cpp, and the path of
-- src/terminal/terminal_path.h.
use terminal_sim.Prelude.{
  ℕ, zero, suc, Bool, true, false, ◌&&◌, ◌||◌, Option, none, some, List, [], ◌∷◌, ◌++◌, Text, text,
  text_eq, if◌then◌else◌, ◌==◌, nat_eq,
}
use terminal_sim.Prelude.Maps
use terminal_sim.Common.{Mode, Qt, mode_eq}
use terminal_sim.Real.{Real}
use terminal_sim.Graph.{Edge, key_eq, key_of}
use terminal_sim.Reply.{Reply, ok, ◌>>=◌}
use terminal_sim.Network.{EdgeData, Network, Variant}
use terminal_sim.Network.Costs.{Segment, build_path_segment, details_of, Position}
use terminal_sim.Network.Parsing.{is_nil}
use terminal_sim.Yen.{last}

-- The texts of `skip_reason`.
pub data SkipReason : Type 0 where
  origin_terminal same_mode_continuation : SkipReason

-- An entry of `terminalsInPath`.
pub record Stop (T : Type 0) : Type 0 where
  pub terminal : Text
  pub sequence_index : ℕ
  pub handling_time : T
  pub cost : T
  pub costs_skipped : Bool
  pub skip_reason : Option SkipReason
  pub weighted_delay : T
  pub weighted_cost : T
  pub weighted_total : T

-- `Path`. The costs by category of `costBreakdown` are `weighted_edge`, and the two totals of the
-- terminals.
pub record NetworkPath (Q T : Type 0) : Type 0 where
  pub path_uid : Text
  pub path_id : ℕ
  pub rank : ℕ
  pub start_terminal : Text
  pub end_terminal : Text
  pub requested_mode : Mode
  pub requested_top_n : ℕ
  pub skip_same_mode : Bool
  pub ranking_cost : T
  pub total_path_cost : T
  pub total_edge_costs : T
  pub total_terminal_costs : T
  pub weighted_delay_total : T
  pub weighted_direct_total : T
  pub raw_delay_total : T
  pub raw_cost_total : T
  pub stops : List (Stop T)
  pub segments : List (Segment Q T)
  pub weighted_edge : List (Text × T)

abbrev categories : List Text
categories =
    text "carbonEmissions"
    ∷ text "cost"
    ∷ text "distance"
    ∷ text "energyConsumption"
    ∷ text "risk"
    ∷ text "travelTime"
    ∷ []

-- `xs[i] = f(xs[i])`; the code does not leave the range.
unfoldable pub update_at {ℓ} : {A : Type ℓ} → ℕ → (A → A) → List A → List A
update_at i f [] = []
update_at zero f (x ∷ xs) = f x ∷ xs
update_at (suc i) f (x ∷ xs) = x ∷ update_at i f xs

-- The data of an edge under the mode that was asked for.
unfoldable pub find_edge_data : {Q : Type 0} → Mode → List (EdgeData Q) → Option (EdgeData Q)
find_edge_data requested [] = none
find_edge_data requested (x ∷ xs) =
    let rest = find_edge_data requested xs in
    if requested == Mode.any || x.mode == requested then some x else rest

abbrev pub same_mode : {T : Type 0} → Mode → List (Edge Text T) → Bool
same_mode mode [] = false
same_mode mode (d ∷ _) = mode == d.mode

module _ {Q T : Type 0} ⦃r : Real T⦄ (v : Variant Q T) (qt : Qt) where
  unfoldable pub zeros : List Text → List (Text × T)
  zeros [] = []
  zeros (key ∷ keys) = (key, r.of_nat 0) ∷ zeros keys

  unfoldable pub empty_path : ℕ → Mode → NetworkPath Q T
  empty_path id requested = record {
    path_uid = [];
    path_id = id;
    rank = 0;
    start_terminal = [];
    end_terminal = [];
    requested_mode = requested;
    requested_top_n = 0;
    skip_same_mode = true;
    ranking_cost = r.of_nat 0;
    total_path_cost = r.of_nat 0;
    total_edge_costs = r.of_nat 0;
    total_terminal_costs = r.of_nat 0;
    weighted_delay_total = r.of_nat 0;
    weighted_direct_total = r.of_nat 0;
    raw_delay_total = r.of_nat 0;
    raw_cost_total = r.of_nat 0;
    stops = [];
    segments = [];
    weighted_edge = zeros categories;
  }

  -- A cost of a segment, as `estimatedCostValue` reads it.
  abbrev pub cost_of : Segment Q T → Text → T
  cost_of s key = Maps.get_or key s.estimated_cost (r.of_nat 0)

  unfoldable pub add_categories : Segment Q T → List Text → List (Text × T) → List (Text × T)
  add_categories s [] sums = sums
  add_categories s (key ∷ keys) sums =
      add_categories s keys
        (Maps.insert key (r.add (Maps.get_or key sums (r.of_nat 0)) (cost_of s key)) sums)

  -- The shares of a segment in the costs of one of its terminals.
  unfoldable pub contribute : T → T → Stop T → Stop T
  contribute delay cost x = record x {
    weighted_delay = r.add x.weighted_delay delay;
    weighted_cost = r.add x.weighted_cost cost;
    weighted_total = r.add (r.add x.weighted_delay delay) (r.add x.weighted_cost cost);
  }

  module _ {H : Type 0} (n : Network H Q T) where
    abbrev stop_at : Text → ℕ → Bool → Option SkipReason → Stop T
    stop_at name index skipped reason = record {
      terminal = name;
      sequence_index = index;
      handling_time = (details_of n.terminal_data name).handling_time;
      cost = (details_of n.terminal_data name).handling_cost;
      costs_skipped = skipped;
      skip_reason = reason;
      weighted_delay = r.of_nat 0;
      weighted_cost = r.of_nat 0;
      weighted_total = r.of_nat 0;
    }

    -- What an iteration adds for a segment: `index` is that of its edge, `skipped` says that the
    -- raw costs of its destination are skipped.
    unfoldable pub add_segment : ℕ → Bool → Segment Q T → NetworkPath Q T → NetworkPath Q T
    add_segment index skipped s p =
        let delay_before = cost_of s (text "previousTerminalDelay") in
        let cost_before = cost_of s (text "previousTerminalCost") in
        let delay_after = cost_of s (text "nextTerminalDelay") in
        let cost_after = cost_of s (text "nextTerminalCost") in
        let reached =
          stop_at s.to (suc index) skipped
            (if skipped then some SkipReason.same_mode_continuation else none) in
        record p {
          segments = p.segments ++ s ∷ [];
          total_edge_costs = r.add p.total_edge_costs s.weighted_edge_cost;
          ranking_cost = r.add p.ranking_cost s.ranking_cost;
          weighted_edge = add_categories s categories p.weighted_edge;
          weighted_delay_total = r.add p.weighted_delay_total (r.add delay_before delay_after);
          weighted_direct_total = r.add p.weighted_direct_total (r.add cost_before cost_after);
          stops =
              after_last (contribute delay_after cost_after)
                (update_at index (contribute delay_before cost_before) (p.stops ++ reached ∷ []));
        }
      where
        after_last : (Stop T → Stop T) → List (Stop T) → List (Stop T)
        after_last f [] = []
        after_last f (x ∷ []) = f x ∷ []
        after_last f (x ∷ y ∷ xs) = x ∷ after_last f (y ∷ xs)

    -- The loop over the edges: `previous` is the mode of the edge before.
    unfoldable pub convert_edges :
        Mode
        → Bool
        → Option Mode
        → ℕ
        → List (Edge Text T)
        → NetworkPath Q T
        → Reply (NetworkPath Q T)
    convert_edges requested skip_delays previous index [] p = ok p
    convert_edges requested skip_delays previous index (d ∷ ds) p =
        let skip_next = same_mode d.mode ds in
        let skip_previous = elim previous as (λ _. Bool) [ none ↦ true | some m ↦ d.mode == m ] in
        let at : Position = record {
          sequence_index = index;
          is_start = index == 0;
          is_end = is_nil ds;
          skip_start = skip_previous;
          skip_end = skip_next;
        } in
        let rest = convert_edges requested skip_delays (some d.mode) (suc index) ds in
        elim (find_edge_data requested (Maps.get_or (key_of d) n.edge_data []))
          as (λ _. Reply (NetworkPath Q T)) [
            | none ↦ rest p
            | some x ↦ build_path_segment v qt n at d.source d.target x.mode x.attributes >>= λ s.
                rest (add_segment index (skip_delays && skip_next) s p)
          ]

    -- The raw terminal costs that are not skipped.
    unfoldable pub raw_totals : List (Stop T) → NetworkPath Q T → NetworkPath Q T
    raw_totals [] p = p
    raw_totals (x ∷ xs) p = raw_totals xs (
        if x.costs_skipped then p else record p {
          raw_delay_total = r.add p.raw_delay_total x.handling_time;
          raw_cost_total = r.add p.raw_cost_total x.cost;
        })

    unfoldable pub finish_path : NetworkPath Q T → NetworkPath Q T
    finish_path p =
        let summed = raw_totals p.stops p in
        record summed {
          total_terminal_costs = r.add p.weighted_delay_total p.weighted_direct_total;
          total_path_cost = p.ranking_cost;
        }

    -- The target of the last edge.
    abbrev target_of : Edge Text T → List (Edge Text T) → Text
    target_of d ds = (last d ds).target

    unfoldable pub to_terminal_path : List (Edge Text T) → ℕ → Mode → Bool → Reply (NetworkPath Q T)
    to_terminal_path [] id requested skip_delays = ok (empty_path id requested)
    to_terminal_path (d ∷ ds) id requested skip_delays =
        let first = stop_at d.source 0 true (some SkipReason.origin_terminal) in
        let begun = record (empty_path id requested) {
          start_terminal = d.source;
          end_terminal = target_of d ds;
          stops = first ∷ [];
        } in
        convert_edges requested skip_delays none 0 (d ∷ ds) begun >>= λ p. ok (finish_path p)
