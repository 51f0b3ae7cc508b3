-- ===== src/Yen/Varied/Steps.antt =====
-- The search for deviations in `kShortestPathsModified` of src/graph/Algorithms.h ends, and keeps the
-- candidates fine.
use terminal_sim.Prelude.{
  ℕ, ◌+◌, ◌≤◌, ◌≡◌, ◌⊎◌, inl, inr, refl, ap, subst, Bool, false, ◌||◌, Option, none, some, List, [],
  ◌∷◌, ◌++◌, reverse, arith, Eq, if◌then◌else◌, if_elim, any, list_beq, list_beq_iff,
}
use terminal_sim.Common.{Mode}
use terminal_sim.Weight.{Weight, ◌≼◌, IsOrdered}
use terminal_sim.Graph.{Edge, EdgeKey, Graph, key_eq}
use terminal_sim.Paths.{path_signature}
use terminal_sim.Dijkstra.{PathInfo, dijkstra}
use terminal_sim.Dijkstra.Correct.{Answers, dijkstra_correct}
use terminal_sim.Yen.Kept.{AllLists, Kept, create_diverse_graph-Kept}
use terminal_sim.Yen.Diverse.{Pool, create_diverse_graph, deviate_from, deviations, offer}
use terminal_sim.Yen.Varied.Counts.{paths_with}
use terminal_sim.Yen.Varied.Chains.{AllChains, IsChain, IsChain-append, IsWalk-IsChain}

module _ {V W : Type 0} ⦃e : Eq V⦄ where
  -- Every signature has at most one path, and none if it has not been seen.
  abbrev pub IsVaried : List (PathInfo V W) → Pool V W → Type 0
  IsVaried found pool =
      (s : List (EdgeKey V))
      → paths_with s found + paths_with s pool.candidates
        ≤ (if any (λ x. list_beq x s) pool.seen then 1 else 0)

module _ {V W : Type 0} ⦃e : Eq V⦄ ⦃w : Weight W⦄ (P : Edge V W → Type 0) (mode : Mode)
    (source target : V) where
  abbrev pub Fine : List (PathInfo V W) → Pool V W → Type 0
  Fine found pool = AllChains P mode source target pool.candidates × IsVaried found pool

module _ {V W : Type 0} ⦃e : Eq V⦄ ⦃w : Weight W⦄ (laws : IsOrdered W) (vertex_lt : V → V → Bool)
    (raised : W → ℕ → W) (P : Edge V W → Type 0) (g : Graph V W) (mode : Mode) (source target : V)
    (heavier : (d : Edge V W) (n : ℕ) → P d → P (record d { weight = raised d.weight n }))
    (positive : (d : Edge V W) → P d → w.nought ≼ d.weight) (each : AllLists P g.adjacency) where
  offer-Fine :
      (found : List (PathInfo V W)) (root : List (Edge V W)) (at : V) (spur : PathInfo V W)
      (pool : Pool V W)
      → IsChain P mode source root at
      → IsChain P mode at spur.path target
      → Fine P mode source target found pool
      → Fine P mode source target found (offer vertex_lt raised g mode source target root spur pool)
  unfolding offer paths_with any
  offer-Fine found root at spur pool r s (k, varied) =
      let total = root ++ spur.path in
      if_elim (Fine P mode source target found)
        (any (λ x. list_beq x (path_signature total)) pool.seen) (λ _. (k, varied))
        (λ new.
          (((IsChain-append P mode source at target root spur.path r s, refl), k), λ x. more x new))
    where
      more :
          (x : List (EdgeKey V))
          → any (λ y. list_beq y (path_signature (root ++ spur.path))) pool.seen ≡ false
          → paths_with x found
              + ((if list_beq (path_signature (root ++ spur.path)) x then 1 else 0)
                  + paths_with x pool.candidates)
            ≤ (if list_beq (path_signature (root ++ spur.path)) x
                  || any (λ y. list_beq y x) pool.seen
                then 1
                else 0)
      more x new =
          let before = varied x in
          ground (
            arith,
            list_beq_iff (path_signature (root ++ spur.path)) x,
            λ (q : path_signature (root ++ spur.path) ≡ x).
                ap (λ z. any (λ y. list_beq y z) pool.seen) q,
          )

  spur-Answers :
      (h : Graph V W) (at : V)
      → Kept P h
      → (dijkstra vertex_lt h mode at target ≡ some none)
        ⊎ ((spur : PathInfo V W) × (dijkstra vertex_lt h mode at target ≡ some (some spur))
            × IsChain P mode at spur.path target)
  spur-Answers h at kept =
      cases (dijkstra vertex_lt h mode at target) (
        dijkstra_correct laws vertex_lt h mode at target kept.0
          (λ u d m. positive d (kept.1 u d m)))
    where
      cases :
          (r : Option (Option (PathInfo V W)))
          → Answers laws vertex_lt h mode at target r
          → (r ≡ some none)
            ⊎ ((spur : PathInfo V W) × (r ≡ some (some spur)) × IsChain P mode at spur.path target)
      cases none a = absurd a
      cases (some none) a = inl refl
      cases (some (some spur)) a =
          inr (spur, refl, IsWalk-IsChain P mode h at target spur.path kept a.leads)

  deviations-Fine :
      (found : List (PathInfo V W)) (root : List (Edge V W)) (at : V) (ds : List (Edge V W))
      (pool : Pool V W)
      → IsChain P mode source root at
      → IsChain P mode at ds target
      → Fine P mode source target found pool
      → (all : Pool V W) × (deviations vertex_lt raised g mode source target found root ds pool
          ≡ some all)
        × Fine P mode source target found all
  unfolding deviations
  deviations-Fine found root at [] pool r s k = (pool, refl, k)
  deviations-Fine found root at (d ∷ ds) pool r (here, fits, taken, s) k =
      let h = create_diverse_graph raised g d.source root (reverse found) source in
      let kept =
        create_diverse_graph-Kept P raised g d.source root (reverse found) source heavier each in
      let r' = IsChain-append P mode source at d.target root (d ∷ []) r (here, fits, taken, refl) in
      elim (spur-Answers h d.source kept) [
        | inl nothing ↦
            rw (nothing, deviations)
              (deviations-Fine found (root ++ d ∷ []) d.target ds pool r' s k)
        | inr (spur, there, walk) ↦
            rw (there, deviations)
              (deviations-Fine found (root ++ d ∷ []) d.target ds
                (offer vertex_lt raised g mode source target root spur pool) r' s
                (offer-Fine found root at spur pool r
                  (subst (λ v. IsChain P mode v spur.path target) here walk) k))
      ]

  pub deviate_from-Fine :
      (found ps : List (PathInfo V W)) (pool : Pool V W)
      → AllChains P mode source target ps
      → Fine P mode source target found pool
      → (all : Pool V W) × (deviate_from vertex_lt raised g mode source target found ps pool
          ≡ some all)
        × Fine P mode source target found all
  unfolding deviate_from
  deviate_from-Fine found [] pool a k = (pool, refl, k)
  deviate_from-Fine found (p ∷ ps) pool a k =
      let (more, ends, ok) = deviations-Fine found [] source p.path pool refl a.0.0 k in
      rw (ends, deviate_from) (deviate_from-Fine found ps more a.1 ok)
