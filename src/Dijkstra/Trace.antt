-- ===== src/Dijkstra/Trace.antt =====
-- The walk back over the previous edges ends, at the source, and adds up to the distance.
use mathlib.Core.List.{reverse-cons}
use terminal_sim.Prelude.{
  ℕ, zero, suc, ◌≤◌, ◌≡◌, inl, inr, sym, ap, ◌∙◌, subst, true, some, List, [], ◌∷◌, ◌++◌, reverse,
  arith, Eq, ◌==◌, Bool-cases, eq_of, length,
}
use terminal_sim.Prelude.Sets
use terminal_sim.Common.{Mode}
use terminal_sim.Weight.{Weight}
use terminal_sim.Graph.{Edge, Graph}
use terminal_sim.Paths.{path_weight, weight_from-concat}
use terminal_sim.Dijkstra.{Search, dist, trace}
use terminal_sim.Dijkstra.Invariant.{Reached, Ranked}
use terminal_sim.Dijkstra.Walk.{IsWalk, IsWalk-concat}

module _ {V W : Type 0} ⦃e : Eq V⦄ ⦃w : Weight W⦄ (g : Graph V W) (mode : Mode) (source : V)
    (s : Search V W) (source_zero : dist s source ≡ w.nought) where
  -- A walk back from `v`, and what it is worth.
  abbrev pub Traces : ℕ → V → Type 0
  Traces fuel v =
      (back : List (Edge V W)) × (trace source s.previous fuel v ≡ some back)
      × IsWalk g mode source (reverse back) v
      × (path_weight (reverse back) ≡ dist s v)

  pub trace_source : (fuel : ℕ) (v : V) → v ≡ source → Traces (suc fuel) v
  unfolding trace path_weight
  trace_source fuel v at =
      ([], ground (arith, e.same_iff v source), sym at, sym (ap (dist s) at ∙ source_zero))

  pub trace_step :
      (fuel : ℕ) (older : List V) (v : V) (d : Edge V W)
      → Reached g mode s older v d
      → Traces fuel d.source
      → Traces (suc fuel) v
  unfolding trace path_weight
  trace_step fuel older v d r (back, ends, walk, sums) = elim (Bool-cases (v == source)) [
    | inl at ↦ trace_source fuel v (eq_of v source at)
    | inr away ↦ (
      d ∷ back,
      ground (arith, away, r.recorded, ends),
      rw (reverse-cons d back) (
          subst (IsWalk g mode source (reverse back ++ d ∷ [])) r.arrives
            (IsWalk-concat g mode source (reverse back) d walk r.usable.listed r.usable.admitted)),
      rw (reverse-cons d back) (
          weight_from-concat w.nought (reverse back) d
          ∙ ap (λ y. w.add y d.weight) sums
          ∙ sym r.sums),
    )
  ]

  -- From every vertex along `done` the walk back succeeds.
  pub trace_lem :
      (done : List V)
      → Ranked g mode source s done
      → (v : V) → Sets.contains v done ≡ true
      → (fuel : ℕ) → length done ≤ fuel
      → Traces fuel v
  unfolding Sets.contains
  trace_lem [] r v h fuel le = cc
  trace_lem (a ∷ older) r v h zero le = absurd (omega arith)
  trace_lem (a ∷ older) r v h (suc fuel) le = elim (Bool-cases (a == v)) [
    | inl same ↦
        let av = eq_of a v same in
        elim r.0 [
          | inl at ↦ trace_source fuel v (sym av ∙ at)
          | inr (d, from) ↦
              trace_step fuel older v d (subst (λ y. Reached g mode s older y d) av from)
                (trace_lem older r.1 d.source from.from_done fuel (omega arith))
        ]
    | inr other ↦ trace_lem older r.1 v (ground arith) (suc fuel) (omega arith)
  ]
