-- ===== src/Dijkstra/Start.antt =====
-- The state in which the search begins.
use mathlib.Core.List.Memᴰ
use terminal_sim.Prelude.{
  ◌≡◌, inl, refl, sym, ap, subst, Bool, true, List, [], ◌∷◌, Memᴰ, arith, ◌||◌, Eq, ◌==◌,
  if◌then◌else◌,
}
use terminal_sim.Prelude.Maps
use terminal_sim.Prelude.Sets
use terminal_sim.Common.{Mode}
use terminal_sim.Weight.{Weight, ◌≼◌, IsOrdered}
use terminal_sim.Graph.{Edge, Graph, outgoing}
use terminal_sim.Graph.WellFormed.{WellFormed}
use terminal_sim.Dijkstra.{Item, dist, start, infinite}
use terminal_sim.Dijkstra.Invariant.{Inv, IsFinite}
use terminal_sim.Dijkstra.Expand.{IsSound}
use terminal_sim.Dijkstra.Rounds.{Between}
use terminal_sim.Dijkstra.Walk.{NonNegative}

has-infinite :
    {V : Type 0} ⦃e : Eq V⦄ (W : Type 0) ⦃w : Weight W⦄ (v : V) (vs : List V)
    → Maps.has v (infinite {W = W} vs) ≡ Sets.contains v vs
unfolding infinite Sets.contains Maps.has
has-infinite W v [] = refl
has-infinite W ⦃w⦄ v (x ∷ vs) =
    ground (arith, Maps.has-insert x v w.infinity (infinite {W = W} vs), has-infinite W v vs)

module _ {V W : Type 0} ⦃e : Eq V⦄ ⦃w : Weight W⦄ where
  get_or-infinite :
      (v : V) (vs : List V)
      → Sets.contains v vs ≡ true
      → Maps.get_or v (infinite vs) w.nought ≡ w.infinity
  unfolding infinite Sets.contains
  get_or-infinite v [] h = cc
  get_or-infinite v (x ∷ vs) h =
      ground (arith, Maps.get_or-insert x v w.infinity w.nought (infinite vs), get_or-infinite v vs)

  -- The keys of the distance map.
  abbrev pub is_known : Graph V W → V → V → Bool
  is_known g source v = Maps.has v (start g source).distance

  pub is_known_lem :
      (g : Graph V W) (source v : V)
      → is_known g source v ≡ (source == v || Sets.contains v g.vertices)
  unfolding start
  is_known_lem g source v = ground (
    arith,
    Maps.has-insert source v w.nought (infinite {W = W} g.vertices),
    has-infinite W v g.vertices,
  )

  dist-start :
      (g : Graph V W) (source v : V)
      → dist (start g source) v
        ≡ (if source == v then w.nought else Maps.get_or v (infinite g.vertices) w.nought)
  unfolding start
  dist-start g source v = Maps.get_or-insert source v w.nought w.nought (infinite g.vertices)

module _ {V W : Type 0} ⦃e : Eq V⦄ ⦃w : Weight W⦄ (laws : IsOrdered W) (g : Graph V W) (mode : Mode)
    (source : V) where
  open laws use {le_refl, le_of_lt, nought-lt-infinity}

  -- Every known vertex but the source is at infinity.
  finite_start :
      (v : V) → is_known g source v ≡ true → IsFinite (dist (start g source) v) → v ≡ source
  finite_start v k fin = ground (
    arith,
    is_known_lem g source v,
    dist-start g source v,
    get_or-infinite {W = W} v g.vertices,
    le_refl w.infinity,
    e.same_iff source v,
  )

  bounded_start : (v : V) → dist (start g source) v ≼ w.infinity
  bounded_start v = ground (
    arith,
    dist-start g source v,
    Maps.get_or_missing v (infinite {W = W} g.vertices) w.nought,
    has-infinite W v g.vertices,
    get_or-infinite {W = W} v g.vertices,
    le_refl w.infinity,
    le_of_lt w.nought w.infinity nought-lt-infinity,
  )

  dist-start_source : dist (start g source) source ≡ w.nought
  dist-start_source = ground (arith, dist-start g source source, e.same_iff source source)

  pub source_known : is_known g source source ≡ true
  source_known = ground (arith, is_known_lem g source source, e.same_iff source source)

  queued_start :
      (x : Item V W)
      → Memᴰ x (start g source).queue
      → x ≡ record { dist = w.nought; vertex = source }
  unfolding start
  queued_start x m = Memᴰ.eq_of_singleton m

  start-Inv : Inv g mode (is_known g source) source (start g source)
  unfolding start Sets.contains
  start-Inv = record {
    source_zero = dist-start_source;
    bounded = bounded_start;
    queued = λ x m.
        subst
          (λ (y : Item V W).
            (dist (start g source) y.vertex ≼ y.dist) × (w.nought ≼ y.dist) × IsFinite y.dist)
          (sym (queued_start x m))
          (
            subst (λ y. y ≼ w.nought) (sym dist-start_source) (le_refl w.nought),
            le_refl w.nought,
            nought-lt-infinity,
          );
    queued_known = λ x m.
        subst (λ (y : Item V W). is_known g source y.vertex ≡ true) (sym (queued_start x m))
          source_known;
    settled_first = λ v h x m. cc;
    waiting = λ v k h fin.
        let at = finite_start v k fin in
        Memᴰ.head (ground (arith, at, ap (dist (start g source)) at, dist-start_source));
    reached = λ v k fin. inl (finite_start v k fin);
    ranked = tt;
  }

  pub start-Between : Between laws g mode (is_known g source) source (start g source)
  unfolding start Sets.contains
  start-Between = record { inv = start-Inv; closed = λ u h d m take. cc }

  -- The edges of a well-formed graph without negative weights are fit to be relaxed.
  pub edges-IsSound :
      WellFormed g
      → NonNegative g
      → (u : V) (d : Edge V W) → Memᴰ d (outgoing u g)
      → IsSound laws g mode (is_known g source) source u d
  edges-IsSound wf pos u d m =
      let ok = wf.good u d m in
      record {
        listed = m;
        from_here = ok.at_source;
        to_known =
            ground (arith, is_known_lem g source d.target, wf.listed d.target, ok.has_target);
        not_negative = pos u d m;
      }
