-- ===== src/Yen/Varied/Chains.antt =====
-- Paths over edges of one kind, for `kShortestPathsModified` of src/graph/Algorithms.h.
use mathlib.Core.List.{reverse-cons}
use terminal_sim.Prelude.{
  ◌≡◌, sym, subst, false, List, [], ◌∷◌, ◌++◌, reverse, Eq, if◌then◌else◌, if_elim,
}
use terminal_sim.Common.{Mode}
use terminal_sim.Weight.{Weight}
use terminal_sim.Graph.{Edge, Graph, key_eq}
use terminal_sim.Paths.{path_weight}
use terminal_sim.Dijkstra.{PathInfo, skips}
use terminal_sim.Dijkstra.Walk.{IsWalk}
use terminal_sim.Yen.{lightest}
use terminal_sim.Yen.Kept.{Kept}

module _ {V W : Type 0} ⦃e : Eq V⦄ ⦃w : Weight W⦄ (P : Edge V W → Type 0) (mode : Mode) where
  -- Edges that pass `P` and that the mode admits lead from `u` to `v`.
  abbrev pub IsChain : V → List (Edge V W) → V → Type 0
  IsChain u [] v = u ≡ v
  IsChain u (d ∷ ds) v = (d.source ≡ u) × P d × (skips mode d ≡ false) × IsChain d.target ds v

  abbrev pub AllChains : V → V → List (PathInfo V W) → Type 0
  AllChains u v [] = Unit {0}
  AllChains u v (p ∷ ps) = (IsChain u p.path v × (p.total ≡ path_weight p.path)) × AllChains u v ps

  pub IsChain-append :
      (u v x : V) (cs ds : List (Edge V W))
      → IsChain u cs v
      → IsChain v ds x
      → IsChain u (cs ++ ds) x
  IsChain-append u v x [] ds h k = subst (λ y. IsChain y ds x) (sym h) k
  IsChain-append u v x (c ∷ cs) ds h k = (h.0, h.1, h.2, IsChain-append c.target v x cs ds h.3 k)

  pub IsWalk-IsChain :
      (h : Graph V W) (u v : V) (ds : List (Edge V W))
      → Kept P h
      → IsWalk h mode u ds v
      → IsChain u ds v
  IsWalk-IsChain h u v [] k walk = walk
  IsWalk-IsChain h u v (d ∷ ds) k walk =
      (walk.0, k.1 u d walk.1, walk.2, IsWalk-IsChain h d.target v ds k walk.3)

  pub AllChains-concat :
      (u v : V) (ps : List (PathInfo V W)) (p : PathInfo V W)
      → AllChains u v ps
      → IsChain u p.path v × (p.total ≡ path_weight p.path)
      → AllChains u v (ps ++ p ∷ [])
  AllChains-concat u v [] p k r = (r, tt)
  AllChains-concat u v (q ∷ ps) p k r = (k.0, AllChains-concat u v ps p k.1 r)

  pub AllChains-reverse :
      (u v : V) (ps : List (PathInfo V W)) → AllChains u v ps → AllChains u v (reverse ps)
  AllChains-reverse u v [] k = tt
  AllChains-reverse u v (p ∷ ps) k =
      rw (reverse-cons p ps)
        (AllChains-concat u v (reverse ps) p (AllChains-reverse u v ps k.1) k.0)

  pub AllChains-lightest :
      (u v : V) (best : PathInfo V W) (ps : List (PathInfo V W))
      → AllChains u v (best ∷ ps)
      → AllChains u v ((lightest best ps).0 ∷ (lightest best ps).1)
  unfolding lightest
  AllChains-lightest u v best [] k = k
  AllChains-lightest u v best (p ∷ ps) (b, (q, k)) =
      let one = λ (x : PathInfo V W). IsChain u x.path v × (x.total ≡ path_weight x.path) in
      let rest =
        AllChains-lightest u v (if w.lt p.total best.total then p else best) ps
          (if_elim one (w.lt p.total best.total) (λ _. q) (λ _. b), k) in
      (rest.0, (if_elim one (w.lt p.total best.total) (λ _. b) (λ _. q), rest.1))
