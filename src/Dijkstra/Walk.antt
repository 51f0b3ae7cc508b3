-- ===== src/Dijkstra/Walk.antt =====
-- Walks that a search under a mode may follow, independently of how the search runs.
use terminal_sim.Prelude.{◌≡◌, refl, subst, sym, false, List, [], ◌∷◌, ◌++◌, Memᴰ, Eq}
use terminal_sim.Common.{Mode}
use terminal_sim.Weight.{Weight, ◌≼◌}
use terminal_sim.Graph.{Edge, Graph, outgoing}
use terminal_sim.Dijkstra.{skips}

module _ {V W : Type 0} ⦃e : Eq V⦄ (g : Graph V W) (mode : Mode) where
  -- `ds` leads from `u` to `v` over edges of the graph that `mode` admits.
  abbrev pub IsWalk : V → List (Edge V W) → V → Type 0
  IsWalk u [] v = u ≡ v
  IsWalk u (d ∷ ds) v =
      (d.source ≡ u) × Memᴰ d (outgoing u g) × (skips mode d ≡ false) × IsWalk d.target ds v

  pub IsWalk-concat :
      (u : V) (ds : List (Edge V W)) (d : Edge V W)
      → IsWalk u ds d.source
      → Memᴰ d (outgoing d.source g)
      → skips mode d ≡ false
      → IsWalk u (ds ++ d ∷ []) d.target
  IsWalk-concat u [] d h m take = (sym h, subst (λ y. Memᴰ d (outgoing y g)) (sym h) m, take, refl)
  IsWalk-concat u (c ∷ ds) d h m take = (h.0, h.1, h.2, IsWalk-concat c.target ds d h.3 m take)

  pub IsWalk-append :
      (u v x : V) (cs ds : List (Edge V W)) → IsWalk u cs v → IsWalk v ds x → IsWalk u (cs ++ ds) x
  IsWalk-append u v x [] ds h k = subst (λ y. IsWalk y ds x) (sym h) k
  IsWalk-append u v x (c ∷ cs) ds h k = (h.0, h.1, h.2, IsWalk-append c.target v x cs ds h.3 k)

-- No edge of the graph has a negative weight.
abbrev pub NonNegative : {V W : Type 0} ⦃e : Eq V⦄ ⦃w : Weight W⦄ → Graph V W → Type 0
NonNegative {V} {W} ⦃w⦄ g = (u : V) (d : Edge V W) → Memᴰ d (outgoing u g) → w.nought ≼ d.weight
