-- ===== src/Dijkstra/Queue.antt =====
-- What is taken from the priority queue is least, and nothing else is lost.
use mathlib.Core.List.Memᴰ
use terminal_sim.Prelude.{
  suc, ◌≡◌, ◌↔◌, ◌⊎◌, inl, inr, ⊎_elim, refl, sym, subst, Bool, some, none, List, [], ◌∷◌, Memᴰ,
  arith, length, Memᴰ-cons,
}
use terminal_sim.Weight.{Weight, ◌≼◌, IsOrdered}
use terminal_sim.Dijkstra.{Item, before, extract, pop}

module _ {V W : Type 0} ⦃w : Weight W⦄ where
  -- What a `pop` of the queue `q` gives.
  pub record Pops (q : List (Item V W)) (x : Item V W) (rest : List (Item V W)) : Type 0 where
    pub splits : (z : Item V W) → Memᴰ z q ↔ ((z ≡ x) ⊎ Memᴰ z rest)
    pub least : (z : Item V W) → Memᴰ z rest → x.dist ≼ z.dist
    pub shorter : length q ≡ suc (length rest)

module _ {V W : Type 0} ⦃w : Weight W⦄ (laws : IsOrdered W) (vertex_lt : V → V → Bool) where
  open laws use {le_refl, le_trans, le_of_lt}

  mem-extract :
      (z best : Item V W) (xs : List (Item V W))
      → Memᴰ z (best ∷ xs)
        ↔ ((z ≡ (extract vertex_lt best xs).0) ⊎ Memᴰ z (extract vertex_lt best xs).1)
  unfolding extract
  mem-extract z best [] = Memᴰ-cons z best []
  mem-extract z best (x ∷ xs) = ground (
    arith,
    mem-extract z best xs,
    mem-extract z x xs,
    Memᴰ-cons z best (x ∷ xs),
    Memᴰ-cons z x xs,
    Memᴰ-cons z best xs,
    Memᴰ-cons z x (extract vertex_lt best xs).1,
    Memᴰ-cons z best (extract vertex_lt x xs).1,
  )

  extract-le-best :
      (best : Item V W) (xs : List (Item V W)) → (extract vertex_lt best xs).0.dist ≼ best.dist
  unfolding extract before
  extract-le-best best [] = le_refl best.dist
  extract-le-best best (x ∷ xs) = ground (
    arith,
    extract-le-best best xs,
    extract-le-best x xs,
    le_of_lt x.dist best.dist,
    le_trans (extract vertex_lt x xs).0.dist x.dist best.dist,
  )

  extract-le-mem :
      (best z : Item V W) (xs : List (Item V W))
      → Memᴰ z xs
      → (extract vertex_lt best xs).0.dist ≼ z.dist
  unfolding extract before
  extract-le-mem best z [] m = absurd (Memᴰ.not-nil m)
  extract-le-mem best z (x ∷ xs) m = ground (
    arith,
    Memᴰ-cons z x xs,
    extract-le-mem best z xs,
    extract-le-mem x z xs,
    extract-le-best best xs,
    extract-le-best x xs,
    le_of_lt best.dist x.dist,
    le_trans (extract vertex_lt best xs).0.dist best.dist x.dist,
  )

  length-extract :
      (best : Item V W) (xs : List (Item V W)) → length (extract vertex_lt best xs).1 ≡ length xs
  unfolding extract
  length-extract best [] = refl
  length-extract best (x ∷ xs) = ground (arith, length-extract best xs, length-extract x xs)

  extract-Pops :
      (best : Item V W) (xs : List (Item V W))
      → Pops (best ∷ xs) (extract vertex_lt best xs).0 (extract vertex_lt best xs).1
  extract-Pops best xs = record {
    splits = λ z. mem-extract z best xs;
    least = λ z m.
        ⊎_elim
          (λ p.
            subst (λ y. (extract vertex_lt best xs).0.dist ≼ y.dist) (sym p)
              (extract-le-best best xs))
          (extract-le-mem best z xs) ((Memᴰ-cons z best xs).0 ((mem-extract z best xs).1 (inr m)));
    shorter = omega (arith, length-extract best xs);
  }

  -- `pop` fails on the empty queue only, and otherwise takes a least pair and leaves the others.
  pub pop_cases :
      (q : List (Item V W))
      → ((q ≡ []) × (pop vertex_lt q ≡ none))
        ⊎ ((x : Item V W) × (rest : List (Item V W)) × (pop vertex_lt q ≡ some (x, rest))
            × Pops q x rest)
  unfolding pop
  pop_cases [] = inl (refl, refl)
  pop_cases (best ∷ xs) = inr (_, _, refl, extract-Pops best xs)
