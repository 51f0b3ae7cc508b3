-- ===== src/Dijkstra/Invariant.antt =====
-- What holds of the search state between two rounds.
use terminal_sim.Prelude.{◌≡◌, ◌⊎◌, Bool, true, false, some, List, [], ◌∷◌, Memᴰ, Eq}
use terminal_sim.Prelude.Maps
use terminal_sim.Prelude.Sets
use terminal_sim.Common.{Mode}
use terminal_sim.Weight.{Weight, ◌≼◌}
use terminal_sim.Graph.{Edge, Graph, outgoing}
use terminal_sim.Dijkstra.{Item, Search, dist, skips}

abbrev pub IsFinite : {W : Type 0} ⦃w : Weight W⦄ → W → Type 0
IsFinite ⦃w⦄ x = w.lt x w.infinity ≡ true

module _ {V W : Type 0} ⦃e : Eq V⦄ ⦃w : Weight W⦄ (g : Graph V W) (mode : Mode) where
  -- An edge that the search may take.
  pub record IsUsable (d : Edge V W) : Type 0 where
    pub listed : Memᴰ d (outgoing d.source g)
    pub admitted : skips mode d ≡ false

  -- `v` was last reached over `d`, from a vertex in `done`.
  pub record Reached (s : Search V W) (done : List V) (v : V) (d : Edge V W) : Type 0 where
    pub recorded : Maps.lookup v s.previous ≡ some d
    pub usable : IsUsable d
    pub arrives : d.target ≡ v
    pub from_done : Sets.contains d.source done ≡ true
    pub sums : dist s v ≡ w.add (dist s d.source) d.weight

  -- Along `done`, newest first, each vertex but the source was reached from an older one.
  abbrev pub Ranked : V → Search V W → List V → Type 0
  Ranked source s [] = Unit {0}
  Ranked source s (v ∷ older) =
      ((v ≡ source) ⊎ ((d : Edge V W) × Reached s older v d)) × Ranked source s older

  -- `known` are the keys of the distance map.
  pub record Inv (known : V → Bool) (source : V) (s : Search V W) : Type 0 where
    pub source_zero : dist s source ≡ w.nought
    pub bounded : (v : V) → dist s v ≼ w.infinity
    pub queued :
        (x : Item V W)
        → Memᴰ x s.queue
        → (dist s x.vertex ≼ x.dist) × (w.nought ≼ x.dist) × IsFinite x.dist
    pub queued_known : (x : Item V W) → Memᴰ x s.queue → known x.vertex ≡ true
    pub settled_first :
        (u : V)
        → Sets.contains u s.visited ≡ true
        → (x : Item V W) → Memᴰ x s.queue
        → dist s u ≼ x.dist
    pub waiting :
        (v : V)
        → known v ≡ true
        → Sets.contains v s.visited ≡ false
        → IsFinite (dist s v)
        → Memᴰ (record { dist = dist s v; vertex = v }) s.queue
    pub reached :
        (v : V)
        → known v ≡ true
        → IsFinite (dist s v)
        → (v ≡ source) ⊎ ((d : Edge V W) × Reached s s.visited v d)
    pub ranked : Ranked source s s.visited

  -- The edges out of the visited vertices are relaxed.
  abbrev pub Closed : (V → Type 0) → Search V W → Type 0
  Closed expanded s =
      (u : V)
      → expanded u
      → (d : Edge V W) → Memᴰ d (outgoing u g)
      → skips mode d ≡ false
      → dist s d.target ≼ w.add (dist s u) d.weight
