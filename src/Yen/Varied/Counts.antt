-- ===== src/Yen/Varied/Counts.antt =====
-- How many of the paths of a search have a signature, for `kShortestPathsModified` of
-- src/graph/Algorithms.h.
use mathlib.Core.List.{reverse-cons}
use terminal_sim.Prelude.{
  ℕ, ◌+◌, ◌≤◌, ◌≡◌, refl, Bool, true, false, List, [], ◌∷◌, ◌++◌, reverse, arith, Eq, if◌then◌else◌,
  list_beq,
}
use terminal_sim.Weight.{Weight}
use terminal_sim.Graph.{EdgeKey, key_eq}
use terminal_sim.Paths.{path_signature}
use terminal_sim.Dijkstra.{PathInfo}
use terminal_sim.Yen.{lightest}

module _ {V W : Type 0} ⦃e : Eq V⦄ where
  -- How many paths of a list have a signature.
  unfoldable pub paths_with : List (EdgeKey V) → List (PathInfo V W) → ℕ
  paths_with s [] = 0
  paths_with s (p ∷ ps) = (if list_beq (path_signature p.path) s then 1 else 0) + paths_with s ps

  pub paths_with-append :
      (s : List (EdgeKey V)) (ps qs : List (PathInfo V W))
      → paths_with s (ps ++ qs) ≡ paths_with s ps + paths_with s qs
  unfolding paths_with
  paths_with-append s [] qs = omega arith
  paths_with-append s (p ∷ ps) qs = omega (arith, paths_with-append s ps qs)

  pub paths_with-reverse :
      (s : List (EdgeKey V)) (ps : List (PathInfo V W))
      → paths_with s (reverse ps) ≡ paths_with s ps
  unfolding paths_with
  paths_with-reverse s [] = refl
  paths_with-reverse s (p ∷ ps) =
      rw (reverse-cons p ps)
        (omega (arith, paths_with-append s (reverse ps) (p ∷ []), paths_with-reverse s ps))

  pub paths_with-lightest :
      ⦃w : Weight W⦄ (s : List (EdgeKey V)) (best : PathInfo V W) (ps : List (PathInfo V W))
      → paths_with s ((lightest best ps).0 ∷ (lightest best ps).1) ≡ paths_with s (best ∷ ps)
  unfolding paths_with lightest
  paths_with-lightest s best [] = refl
  paths_with-lightest ⦃w⦄ s best (p ∷ ps) =
      let rest = paths_with-lightest s (if w.lt p.total best.total then p else best) ps in
      omega (arith, rest, swap (w.lt p.total best.total))
    where
      one : PathInfo V W → ℕ
      one q = if list_beq (path_signature q.path) s then 1 else 0

      swap :
          (b : Bool) → one (if b then p else best) + one (if b then best else p) ≡ one best + one p
      swap true = omega arith
      swap false = refl

  pub paths_with-moved :
      ⦃w : Weight W⦄ (s : List (EdgeKey V)) (x : PathInfo V W) (xs known : List (PathInfo V W))
      (bound : ℕ)
      → paths_with s known + paths_with s (x ∷ xs) ≤ bound
      → paths_with s ((lightest x xs).0 ∷ known) + paths_with s (lightest x xs).1 ≤ bound
  unfolding paths_with
  paths_with-moved s x xs known bound h = omega (arith, h, paths_with-lightest s x xs)
