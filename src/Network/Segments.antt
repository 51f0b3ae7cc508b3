-- ===== src/Network/Segments.antt =====
-- The segments that `convertEdgePathToTerminalPath` of src/terminal/terminal_graph.cpp makes of a
-- path.
use mathlib.Core.List.{append-nil, append_assoc, map-append}
use terminal_sim.Prelude.{
  ℕ, suc, ◌≡◌, refl, sym, ap, ◌∙◌, subst, ◌||◌, Bool, true, Option, none, some, List, [], ◌∷◌, ◌++◌,
  map, Text, text, text_eq, ◌==◌, nat_eq, if_elim,
}
use terminal_sim.Prelude.Maps
use terminal_sim.Common.{Mode, Qt, mode_eq}
use terminal_sim.Real.{Real}
use terminal_sim.Reply.{ok, ok_inj, >>=-ok}
use terminal_sim.Graph.{Edge, EdgeKey, key_eq, key_of}
use terminal_sim.Paths.{path_signature}
use terminal_sim.Network.{EdgeData, Network, Variant}
use terminal_sim.Network.Invariant.{AllEntries-get_or, AllEntries-map, IsGoodEntry, IsSound}
use terminal_sim.Network.Costs.{
  Position, Segment, attribute_cost, build_path_segment, cost_params, details_of, terminal_share,
}
use terminal_sim.Network.Parsing.{is_nil}
use terminal_sim.Network.Paths.{
  NetworkPath, Stop, empty_path, same_mode, add_segment, convert_edges, find_edge_data, finish_path,
  raw_totals, to_terminal_path,
}

-- The ends and the mode of a segment.
abbrev pub key_of_segment : {Q T : Type 0} → Segment Q T → EdgeKey Text
key_of_segment s = record { source = s.from; target = s.to; mode = s.mode }

module _ {H Q T : Type 0} ⦃r : Real T⦄ (v : Variant Q T) (qt : Qt) (n : Network H Q T) where
  built_key :
      (at : Position) (from to : Text) (mode : Mode) (attributes : List (Text × Q))
      (s : Segment Q T)
      → build_path_segment v qt n at from to mode attributes ≡ ok s
      → key_of_segment s ≡ record { source = from; target = to; mode = mode }
  unfolding build_path_segment
  built_key at from to mode attributes s h =
      let a = details_of n.terminal_data from in
      let b = details_of n.terminal_data to in
      let cost = attribute_cost v qt (cost_params v qt attributes a b) n.cost_weights mode in
      let share = terminal_share v qt n.cost_weights mode in
      let (carbon, _, h1) = >>=-ok (cost (text "carbonEmissions")) _ h in
      let (direct, _, h2) = >>=-ok (cost (text "cost")) _ h1 in
      let (distance, _, h3) = >>=-ok (cost (text "distance")) _ h2 in
      let (energy, _, h4) = >>=-ok (cost (text "energyConsumption")) _ h3 in
      let (risk, _, h5) = >>=-ok (cost (text "risk")) _ h4 in
      let (travel, _, h6) = >>=-ok (cost (text "travelTime")) _ h5 in
      let (delay_before, _, h7) =
        >>=-ok (share at.skip_start at.is_start (text "terminal_delay") a.handling_time) _ h6 in
      let (cost_before, _, h8) =
        >>=-ok (share at.skip_start at.is_start (text "terminal_cost") a.handling_cost) _ h7 in
      let (delay_after, _, h9) =
        >>=-ok (share at.skip_end at.is_end (text "terminal_delay") b.handling_time) _ h8 in
      let (cost_after, _, h10) =
        >>=-ok (share at.skip_end at.is_end (text "terminal_cost") b.handling_cost) _ h9 in
      sym (ap key_of_segment (ok_inj h10))

  -- The data that is found for an edge is that of its mode.
  abbrev pub HasData : Mode → Edge Text T → Type 0
  HasData requested d =
      (x : EdgeData Q) × (find_edge_data requested (Maps.get_or (key_of d) n.edge_data []) ≡ some x)

  abbrev pub AllHaveData : Mode → List (Edge Text T) → Type 0
  AllHaveData requested [] = Unit {0}
  AllHaveData requested (d ∷ ds) = HasData requested d × AllHaveData requested ds

  -- The data that is found under a key of a sound network is of its mode.
  found_mode :
      (requested : Mode) (key : EdgeKey Text) (x : EdgeData Q)
      → IsSound n
      → find_edge_data requested (Maps.get_or key n.edge_data []) ≡ some x
      → x.mode ≡ key.mode
  unfolding find_edge_data
  found_mode requested key x sound =
      AllEntries-get_or
        (λ (entry : EdgeKey Text × List (EdgeData Q)).
          find_edge_data requested entry.1 ≡ some x → x.mode ≡ entry.0.mode)
        key n.edge_data []
        (AllEntries-map (IsGoodEntry n.terminals) _ n.edge_data
          (λ entry good found.
            let (y, one, same) = good.0 in
            let at_one = subst (λ l. find_edge_data requested l ≡ some x) (one) found in
            if_elim (λ answer. answer ≡ some x → x.mode ≡ entry.0.mode)
              (requested == Mode.any || y.mode == requested)
              (λ _ h. let here : y ≡ x = cc in subst (λ z. z.mode ≡ entry.0.mode) (here) same)
              (λ _ h. cc) at_one)
          sound.entries)
        (λ h. cc)

  convert_edges-segments :
      (requested : Mode) (skip : Bool) (previous : Option Mode) (index : ℕ)
      (ds : List (Edge Text T)) (p q : NetworkPath Q T)
      → IsSound n
      → AllHaveData requested ds
      → convert_edges v qt n requested skip previous index ds p ≡ ok q
      → map key_of_segment q.segments ≡ map key_of_segment p.segments ++ path_signature ds
  unfolding convert_edges path_signature add_segment
  convert_edges-segments requested skip previous index [] p q sound all h =
      ap (λ y. map key_of_segment y.segments) (sym (ok_inj h))
      ∙ sym (append-nil (map key_of_segment p.segments))
  convert_edges-segments requested skip previous index (d ∷ ds) p q sound ((x, found), all) h =
      let same = found_mode requested (key_of d) x sound found in
      let at : Position = record {
        sequence_index = index;
        is_start = index == 0;
        is_end = is_nil ds;
        skip_start = elim previous as (λ _. Bool) [ none ↦ true | some m ↦ d.mode == m ];
        skip_end = same_mode d.mode ds;
      } in
      let run = rw (found, convert_edges) at h in
      let (s, built, later) =
        >>=-ok (build_path_segment v qt n at d.source d.target x.mode x.attributes) _ run in
      let key : key_of_segment s ≡ key_of d =
        built_key at d.source d.target x.mode x.attributes s built
        ∙ ap (λ m. record { source = d.source; target = d.target; mode = m }) same in
      convert_edges-segments requested skip (some d.mode) (suc index) ds _ q sound all later
      ∙ ap (λ l. l ++ path_signature ds) (map-append key_of_segment p.segments (s ∷ []))
      ∙ append_assoc (map key_of_segment p.segments) (key_of_segment s ∷ []) (path_signature ds)
      ∙ ap (λ k. map key_of_segment p.segments ++ k ∷ path_signature ds) key

  raw_totals-segments :
      (stops : List (Stop T)) (p : NetworkPath Q T)
      → (raw_totals v qt n stops p).segments ≡ p.segments
  unfolding raw_totals
  raw_totals-segments [] p = refl
  raw_totals-segments (x ∷ xs) p =
      raw_totals-segments xs _
      ∙ if_elim (λ (y : NetworkPath Q T). y.segments ≡ p.segments) x.costs_skipped (λ _. refl)
          (λ _. refl)

  -- On a sound network, where the data of every edge of a path is found, a conversion that returns
  -- makes one segment of each edge, in their order, with its ends and its mode.
  pub to_terminal_path-segments :
      (ds : List (Edge Text T)) (id : ℕ) (requested : Mode) (skip : Bool) (q : NetworkPath Q T)
      → IsSound n
      → AllHaveData requested ds
      → to_terminal_path v qt n ds id requested skip ≡ ok q
      → map key_of_segment q.segments ≡ path_signature ds
  unfolding to_terminal_path finish_path path_signature empty_path
  to_terminal_path-segments [] id requested skip q sound all h =
      ap (λ y. map key_of_segment y.segments) (sym (ok_inj h))
  to_terminal_path-segments (d ∷ ds) id requested skip q sound all h =
      let (p, run, done) = >>=-ok (convert_edges v qt n requested skip none 0 (d ∷ ds) _) _ h in
      ap (λ y. map key_of_segment y.segments) (sym (ok_inj done))
      ∙ ap (map key_of_segment) (raw_totals-segments p.stops p)
      ∙ convert_edges-segments requested skip none 0 (d ∷ ds) _ p sound all run
