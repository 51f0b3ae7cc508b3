-- ===== src/Graph/Erased.antt =====
-- What the loops of `Graph::removeEdge` erase.
use terminal_sim.Prelude.{
  ◌≡◌, refl, sym, ap, Bool, true, not, ◌&&◌, List, [], ◌∷◌, Memᴰ, arith, Eq, ◌==◌, if_elim, any,
  keep_if, erase_first, keep_if-all, any-false_elim,
}
use terminal_sim.Prelude.Sets
use terminal_sim.Common.{Mode, mode_eq}
use terminal_sim.Graph.{Edge, EdgeKey, key_eq, key_of, key_beq, key_beq_iff, erase_keys}
use terminal_sim.Graph.WellFormed.{Distinct}

module _ {V W : Type 0} ⦃e : Eq V⦄ where
  abbrev pub matches : V → Mode → Edge V W → Bool
  matches t m d = d.target == t && d.mode == m

  -- In a list without repeated keys, of edges of one vertex, the first match is the only one.
  pub erase_first-eq :
      (s t : V) (m : Mode) (ds : List (Edge V W))
      → Distinct ds
      → ((d : Edge V W) → Memᴰ d ds → d.source ≡ s)
      → erase_first (matches t m) ds ≡ keep_if (λ d. not (matches t m d)) ds
  unfolding erase_first keep_if
  erase_first-eq s t m [] h at = refl
  erase_first-eq s t m (d ∷ ds) h at =
      let ih = erase_first-eq s t m ds h.1 (λ x mem. at x (Memᴰ.tail mem)) in
      if_elim (λ l. l ≡ keep_if (λ x. not (matches t m x)) (d ∷ ds)) (matches t m d)
        (λ hit. rw hit (sym (keep_if-all (λ x. not (matches t m x)) ds (others hit))))
        (λ miss. rw miss (ap (◌∷◌ d) ih))
    where
      others : matches t m d ≡ true → (x : Edge V W) → Memᴰ x ds → not (matches t m x) ≡ true
      others hit x mem = ground (
        arith,
        any-false_elim (λ y. key_of y == key_of d) ds h.0 mem,
        key_beq_iff (key_of x) (key_of d),
        at x (Memᴰ.tail mem),
        at d (Memᴰ.head refl),
        e.same_iff d.target t,
        e.same_iff x.target t,
        mode_eq.same_iff d.mode m,
        mode_eq.same_iff x.mode m,
      )

  pub contains-erase_keys :
      (s t : V) (ds : List (Edge V W)) (keys : List (EdgeKey V)) (k : EdgeKey V)
      → Sets.contains k (erase_keys s t ds keys) ≡ (
          Sets.contains k keys && not (k.source == s && k.target == t && any (matches t k.mode) ds))
  unfolding erase_keys any key_beq
  contains-erase_keys s t [] keys k = ground arith
  contains-erase_keys s t (d ∷ ds) keys k = ground (
    arith,
    contains-erase_keys s t ds keys k,
    contains-erase_keys s t ds (Sets.remove (record { source = s; target = t; mode = d.mode }) keys)
        k,
    Sets.contains-remove (record { source = s; target = t; mode = d.mode }) k keys,
    e.same_iff s k.source,
    e.same_iff k.source s,
    e.same_iff t k.target,
    e.same_iff k.target t,
    mode_eq.same_iff d.mode k.mode,
  )
