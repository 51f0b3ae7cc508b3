-- ===== src/Network/Search.antt =====
-- `findShortestPath` and `findTopNShortestPaths` of src/terminal/terminal_graph.cpp. As in
-- `Dijkstra`, an outer `none` says that a search ran out of fuel.
use mathlib.Core.Option
use terminal_sim.Prelude.{
  ℕ, suc, Bool, false, not, ◌&&◌, ◌||◌, Option, none, some, List, [], ◌∷◌, ◌++◌, Text, text,
  text_eq, if◌then◌else◌, ◌==◌, nat_eq,
}
use terminal_sim.Prelude.Sets
use terminal_sim.Common.{Mode, Qt, mode_value}
use terminal_sim.Real.{Real}
use terminal_sim.Reply.{Failure, Reply, ok, throws, ◌>>=◌}
use terminal_sim.Dijkstra.{PathInfo, dijkstra}
use terminal_sim.Yen.Diverse.{k_shortest_paths_modified}
use terminal_sim.Network.{Network, Variant, canonical_name, terminal_exists}
use terminal_sim.Network.Costs.{Segment}
use terminal_sim.Network.Costs.Bounds.{weight_of_real}
use terminal_sim.Network.Routes.{update_graph}
use terminal_sim.Network.Paths.{NetworkPath, to_terminal_path}

-- `QUrl::toPercentEncoding`, and the hexadecimal SHA-256 of a text.
pub record Encoding : Type 0 where
  pub percent : Text → Text
  pub sha256 : Text → Text

abbrev policy : Bool → Text
policy skip = if skip then text "legacy-same-mode-skip:on" else text "legacy-same-mode-skip:off"

module _ {Q T : Type 0} (qt : Qt) where
  -- `canonicalSegmentSignature`, also the signature that `findTopNShortestPaths` builds.
  unfoldable pub segment_signature : List (Segment Q T) → Text
  segment_signature [] = []
  segment_signature (s ∷ ss) =
      s.from
      ++ text "->"
      ++ s.to
      ++ text ":"
      ++ qt.number (mode_value s.mode)
      ++ text "|"
      ++ segment_signature ss

  unfoldable pub build_path_uid : Encoding → NetworkPath Q T → Text
  build_path_uid encoding p =
      let signature =
        encoding.sha256
          (segment_signature p.segments ++ text "|policy=" ++ policy p.skip_same_mode) in
      text "pf|v2|start="
      ++ encoding.percent p.start_terminal
      ++ text "|end="
      ++ encoding.percent p.end_terminal
      ++ text "|mode="
      ++ qt.number (mode_value p.requested_mode)
      ++ text "|policy="
      ++ encoding.percent (policy p.skip_same_mode)
      ++ text "|sig="
      ++ signature

module _ {T : Type 0} ⦃r : Real T⦄ where
  -- `edge.weight() * (1.0 + count * 0.05)`.
  abbrev pub raised : T → ℕ → T
  raised x count =
      r.mul x (r.add (r.of_nat 1) (r.mul (r.of_nat count) (r.div (r.of_nat 5) (r.of_nat 100))))

module _ {Q T : Type 0} (qt : Qt) (encoding : Encoding) where
  unfoldable pub rank_paths : Mode → ℕ → Bool → ℕ → List (NetworkPath Q T) → List (NetworkPath Q T)
  rank_paths mode top skip_delays i [] = []
  rank_paths mode top skip_delays i (p ∷ ps) =
      let ranked = record p {
        rank = i;
        path_id = suc i;
        requested_mode = mode;
        requested_top_n = top;
        skip_same_mode = skip_delays;
      } in
      record ranked { path_uid = build_path_uid qt encoding ranked }
      ∷ rank_paths mode top skip_delays (suc i) ps

module _ {Q T : Type 0} ⦃r : Real T⦄ where
  -- `std::sort` by the ranking cost; paths of one cost may come in any order.
  unfoldable pub insert_path : NetworkPath Q T → List (NetworkPath Q T) → List (NetworkPath Q T)
  insert_path p [] = p ∷ []
  insert_path p (q ∷ qs) =
      let rest = insert_path p qs in
      if r.lt q.ranking_cost p.ranking_cost then q ∷ rest else p ∷ q ∷ qs

  unfoldable pub sort_paths : List (NetworkPath Q T) → List (NetworkPath Q T)
  sort_paths [] = []
  sort_paths (p ∷ ps) = insert_path p (sort_paths ps)

module _ {H Q T : Type 0} ⦃r : Real T⦄ (v : Variant Q T) (qt : Qt)
    (text_lt : Text → Text → Bool) where
  abbrev ends_registered : Network H Q T → Text → Text → Bool
  ends_registered n start end = terminal_exists n start && terminal_exists n end

  -- `findShortestPath`.
  unfoldable pub find_shortest_path :
      Text → Text → Mode → Network H Q T → Network H Q T × Option (Reply (List (Segment Q T)))
  find_shortest_path start end mode n =
      if not (ends_registered n start end)
      then (n, some (throws Failure.invalid_argument))
      else let updated = update_graph v qt mode n in
        let found =
          dijkstra ⦃w = weight_of_real r⦄ text_lt updated.0.graph mode (canonical_name n start)
            (canonical_name n end) in
        elim updated.1 as (λ _. Network H Q T × Option (Reply (List (Segment Q T)))) [
          | throws f ↦ (updated.0, some (throws f))
          | ok _ ↦ (
            updated.0,
            elim found as (λ _. Option (Reply (List (Segment Q T)))) [
              | none ↦ none
              | some none ↦ some (throws Failure.runtime_error)
              | some (some best) ↦
                  some
                    (to_terminal_path v qt updated.0 best.path 1 mode false >>= λ p. ok p.segments)
            ],
          )
        ]

  -- The paths, numbered from 1, without those whose signature came before.
  unfoldable pub unique_paths :
      Network H Q T
      → Mode
      → Bool
      → ℕ
      → List (PathInfo Text T)
      → List Text
      → Reply (List (NetworkPath Q T))
  unique_paths n mode skip_delays id [] seen = ok []
  unique_paths n mode skip_delays id (found ∷ more) seen =
      let keep = λ (s : List Text). unique_paths n mode skip_delays (suc id) more s in
      to_terminal_path v qt n found.path id mode skip_delays >>= λ p.
      if Sets.contains (segment_signature qt p.segments) seen
      then keep seen
      else keep (segment_signature qt p.segments ∷ seen) >>= λ rest. ok (p ∷ rest)

  module _ (encoding : Encoding) where
    -- `findTopNShortestPaths`, of a number `top` that is not negative.
    unfoldable pub find_top_n_shortest_paths :
        Text
        → Text
        → ℕ
        → Mode
        → Bool
        → Network H Q T
        → Network H Q T × Option (Reply (List (NetworkPath Q T)))
    find_top_n_shortest_paths start end top mode skip_delays n =
        if top == 0 || not (ends_registered n start end)
        then (n, some (ok []))
        else let updated = update_graph v qt mode n in
          let found =
            k_shortest_paths_modified ⦃w = weight_of_real r⦄ text_lt raised updated.0.graph mode
              (canonical_name n start) (canonical_name n end) top in
          elim updated.1 as (λ _. Network H Q T × Option (Reply (List (NetworkPath Q T)))) [
            | throws f ↦ (updated.0, some (throws f))
            | ok _ ↦ (
              updated.0,
              Option.map
                  (λ paths. unique_paths updated.0 mode skip_delays 1 paths [] >>= λ unique.
                    ok (rank_paths qt encoding mode top skip_delays 0 (sort_paths unique)))
                  found,
            )
          ]
