-- ===== src/Yen/Varied.antt =====
-- The paths that `kShortestPathsModified` of src/graph/Algorithms.h returns.
pub mod Counts
pub mod Chains
pub mod Steps
use mathlib.Core.Option
use mathlib.Core.List.{append_assoc, reverse-cons}
use mathlib.Core.List.Memᴰ
use terminal_sim.Prelude.{
  ℕ, zero, suc, ◌+◌, ◌-◌, ◌≤◌, ◌≡◌, ◌⊎◌, inl, inr, refl, sym, ap, ◌∙◌, subst, Bool, true, false,
  ◌||◌, Option, none, some, List, [], ◌∷◌, ◌++◌, reverse, length, length-reverse, reverse-concat,
  Memᴰ, arith, Eq, if◌then◌else◌, if_elim, any, list_beq, list_beq_iff,
}
use terminal_sim.Common.{Mode}
use terminal_sim.Weight.{Weight, ◌≼◌, IsOrdered}
use terminal_sim.Graph.{Edge, EdgeKey, Graph, key_eq, outgoing}
use terminal_sim.Graph.WellFormed.{WellFormed}
use terminal_sim.Paths.{edge_path_to_vertex_path, path_signature, path_weight}
use terminal_sim.Dijkstra.{PathInfo, dijkstra, skips}
use terminal_sim.Dijkstra.Walk.{IsWalk, NonNegative}
use terminal_sim.Dijkstra.Correct.{Answers, IsLeast, dijkstra_correct}
use terminal_sim.Yen.{lightest, pop_candidate}
use terminal_sim.Yen.Kept.{AllLists, Kept, Kept-AllLists, create_diverse_graph-Kept}
use terminal_sim.Yen.Diverse.{
  Pool, at_most_three, create_diverse_graph, deviate_from, deviations, diverse_rounds,
  k_shortest_paths_modified, offer,
}
use terminal_sim.Yen.Varied.Counts.{paths_with, paths_with-moved, paths_with-reverse}
use terminal_sim.Yen.Varied.Chains.{
  AllChains, AllChains-lightest, AllChains-reverse, IsChain, IsChain-append, IsWalk-IsChain,
}
use terminal_sim.Yen.Varied.Steps.{Fine, IsVaried, deviate_from-Fine}

module _ {V W : Type 0} ⦃e : Eq V⦄ ⦃w : Weight W⦄ (laws : IsOrdered W) (vertex_lt : V → V → Bool)
    (raised : W → ℕ → W) (P : Edge V W → Type 0) (g : Graph V W) (mode : Mode) (source target : V)
    (heavier : (d : Edge V W) (n : ℕ) → P d → P (record d { weight = raised d.weight n }))
    (positive : (d : Edge V W) → P d → w.nought ≼ d.weight) (each : AllLists P g.adjacency) where
  All-at_most_three :
      (ps : List (PathInfo V W))
      → AllChains P mode source target ps
      → AllChains P mode source target (at_most_three ps)
  All-at_most_three [] k = k
  All-at_most_three (a ∷ []) k = k
  All-at_most_three (a ∷ b ∷ []) k = k
  All-at_most_three (a ∷ b ∷ c ∷ ps) k = (k.0, (k.1.0, (k.1.1.0, tt)))

  -- What the rounds owe: varied paths, not too many, before those known already.
  record Rounds (n : ℕ) (known : List (PathInfo V W)) (r : Option (List (PathInfo V W)))
      : Type 0 where
    paths : List (PathInfo V W)
    ends : r ≡ some paths
    chains : AllChains P mode source target paths
    varied : (s : List (EdgeKey V)) → paths_with s paths ≤ 1
    bounded : length paths ≤ n + length known
    news : List (PathInfo V W)
    before_known : paths ≡ news ++ known

  Rounds-none :
      (n : ℕ) (known : List (PathInfo V W)) (pool : Pool V W)
      → AllChains P mode source target known
      → IsVaried known pool
      → Rounds n known (some known)
  Rounds-none n known pool k varied = record {
    paths = known;
    ends = refl;
    chains = k;
    varied = λ s.
        at_most (any (λ x. list_beq x s) pool.seen) (paths_with s known)
          (paths_with s pool.candidates) (varied s);
    bounded = omega arith;
    news = [];
    before_known = refl;
  }
    where
      at_most : (b : Bool) (x y : ℕ) → x + y ≤ (if b then 1 else 0) → x ≤ 1
      at_most true x y h = omega arith
      at_most false x y h = omega arith

  Rounds-more :
      (n : ℕ) (p : PathInfo V W) (known : List (PathInfo V W)) (r : Option (List (PathInfo V W)))
      → Rounds n (p ∷ known) r
      → Rounds (suc n) known r
  Rounds-more n p known r k = record {
    paths = k.paths;
    ends = k.ends;
    chains = k.chains;
    varied = k.varied;
    bounded = let b = k.bounded in omega arith;
    news = k.news ++ p ∷ [];
    before_known = k.before_known ∙ sym (append_assoc k.news (p ∷ []) known);
  }

  diverse_rounds-Rounds :
      (n : ℕ) (newest : PathInfo V W) (older : List (PathInfo V W)) (pool : Pool V W)
      → AllChains P mode source target (newest ∷ older)
      → Fine P mode source target (newest ∷ older) pool
      → Rounds n
          (newest ∷ older)
          (diverse_rounds vertex_lt raised g mode source target n newest older pool)
  unfolding diverse_rounds pop_candidate
  diverse_rounds-Rounds zero newest older pool a k = Rounds-none zero (newest ∷ older) pool a k.1
  diverse_rounds-Rounds (suc n) newest older pool a k =
      let (all, ends, ok) =
        deviate_from-Fine laws vertex_lt raised P g mode source target heavier positive each
          (newest ∷ older) (at_most_three (newest ∷ older)) pool
          (All-at_most_three (newest ∷ older) a) k in
      rw (ends, diverse_rounds)
        (take_best
          (λ best rest seen b s. Rounds-more n best (newest ∷ older) _ (
            diverse_rounds-Rounds n best (newest ∷ older)
              (record { candidates = rest; seen = seen }) b s))
          all.candidates all.seen ok)
    where
      next : List (PathInfo V W) → List (List (EdgeKey V)) → Option (List (PathInfo V W))
      next candidates seen =
          elim (pop_candidate candidates) as (λ _. Option (List (PathInfo V W))) [
            | none ↦ some (newest ∷ older)
            | some (best, rest) ↦
                diverse_rounds vertex_lt raised g mode source target n best (newest ∷ older)
                  (record { candidates = rest; seen = seen })
          ]

      take_best :
          ((best : PathInfo V W) (rest : List (PathInfo V W)) (seen : List (List (EdgeKey V)))
            → AllChains P mode source target (best ∷ newest ∷ older)
            → Fine P mode source target
                (best ∷ newest ∷ older)
                (record { candidates = rest; seen = seen })
            → Rounds (suc n) (newest ∷ older) (
                diverse_rounds vertex_lt raised g mode source target n best
                  (newest ∷ older)
                  (record { candidates = rest; seen = seen })))
          → (candidates : List (PathInfo V W)) (seen : List (List (EdgeKey V)))
          → Fine P mode source target
              (newest ∷ older)
              (record { candidates = candidates; seen = seen })
          → Rounds (suc n) (newest ∷ older) (next candidates seen)
      take_best later [] seen ok =
          Rounds-none (suc n) (newest ∷ older) (record { candidates = []; seen = seen }) a ok.1
      take_best later (x ∷ xs) seen ok =
          let best = AllChains-lightest P mode source target x xs ok.0 in
          later (lightest x xs).0 (lightest x xs).1 seen (best.0, a)
            (best.1, λ s. paths_with-moved s x xs (newest ∷ older) _ (ok.1 s))

  -- What is owed of a search for `k` varied paths.
  abbrev pub Varies : ℕ → Option (List (PathInfo V W)) → Type 0
  Varies k none = ⊥
  Varies k (some []) =
      (p : List (Edge V W)) → IsWalk g mode source p target → w.infinity ≼ path_weight p
  Varies k (some (p ∷ ps)) =
      IsLeast laws vertex_lt g mode source target p
      × AllChains P mode source target (p ∷ ps)
      × ((s : List (EdgeKey V)) → paths_with s (p ∷ ps) ≤ 1)
      × (length (p ∷ ps) ≤ suc (k - 1))

  Rounds-Varies :
      (k : ℕ) (p : PathInfo V W) (r : Option (List (PathInfo V W)))
      → IsLeast laws vertex_lt g mode source target p
      → Rounds (k - 1) (p ∷ []) r
      → Varies k (Option.map reverse r)
  Rounds-Varies k p r best k' =
      let shape : reverse k'.paths ≡ p ∷ reverse k'.news =
        ap reverse k'.before_known ∙ reverse-concat k'.news p in
      let all =
        subst (AllChains P mode source target) shape
          (AllChains-reverse P mode source target k'.paths k'.chains) in
      let few = ap length shape in
      let fewer = k'.bounded in
      let once = λ (s : List (EdgeKey V)).
        subst (λ n. n ≤ 1) (sym (paths_with-reverse s k'.paths) ∙ ap (paths_with s) shape)
          (k'.varied s) in
      rw (k'.ends, shape) (best, all, once, omega (arith, length-reverse k'.paths))

  -- Let every edge of a well-formed graph pass `P`, an edge that passes have no negative weight, and
  -- an edge that is made heavier pass still. Then `kShortestPathsModified` returns. If it returns no
  -- path, every walk weighs at least infinity. Otherwise its first path weighs least of all walks, no
  -- two of its paths have one signature, there are at most `k` of them, or one if `k` is zero, and
  -- each leads from the source to the target over edges that pass and that the mode admits, with the
  -- sum of their weights.
  pub k_shortest_paths_modified_correct :
      (wf : WellFormed g) (k : ℕ)
      → Varies k (k_shortest_paths_modified vertex_lt raised g mode source target k)
  unfolding k_shortest_paths_modified paths_with any
  k_shortest_paths_modified_correct wf k =
      cases (dijkstra vertex_lt g mode source target) (
        dijkstra_correct laws vertex_lt g mode source target wf
          (λ u d m. positive d (kept.1 u d m)))
    where
      kept : Kept P g
      kept = Kept-AllLists P g wf each

      first_once : (b : Bool) → (if b then 1 else 0) + 0 + 0 ≤ (if b || false then 1 else 0)
      first_once true = omega arith
      first_once false = omega arith

      first_varied :
          (p : PathInfo V W)
          → IsVaried (p ∷ []) (record { candidates = []; seen = path_signature p.path ∷ [] })
      first_varied p s = first_once (list_beq (path_signature p.path) s)

      cases :
          (r : Option (Option (PathInfo V W)))
          → Answers laws vertex_lt g mode source target r
          → Varies k (elim r as (λ _. Option (List (PathInfo V W))) [
            | none ↦ none
            | some none ↦ some []
            | some (some first) ↦ Option.map reverse (
                diverse_rounds vertex_lt raised g mode source target
                  (k - 1)
                  first
                  []
                  (record { candidates = []; seen = path_signature first.path ∷ [] }))
          ])
      cases none a = absurd a
      cases (some none) a = a
      cases (some (some p)) a = Rounds-Varies k p _ a (
          diverse_rounds-Rounds (k - 1) p [] _
            ((IsWalk-IsChain P mode g source target p.path kept a.leads, a.totals), tt)
            (tt, first_varied p))
