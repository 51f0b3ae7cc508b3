-- ===== src/Dijkstra/Correct.antt =====
-- `dijkstraShortestPath` finds a walk of least weight, and finds none only if there is none.
use terminal_sim.Prelude.{
  suc, ◌≡◌, ◌⊎◌, inl, inr, ⊎_elim, sym, subst, Bool, true, false, not, ◌||◌, Option, none, some,
  List, [], ◌∷◌, arith, Eq, Bool-cases, length, if_elim,
}
use terminal_sim.Prelude.Maps
use terminal_sim.Common.{Mode}
use terminal_sim.Weight.{Weight, ◌≼◌, IsOrdered}
use terminal_sim.Graph.{Edge, Graph}
use terminal_sim.Graph.WellFormed.{WellFormed}
use terminal_sim.Paths.{weight_from, path_weight}
use terminal_sim.Dijkstra.{Search, PathInfo, dist, start, loop, finish, fuel_for, dijkstra}
use terminal_sim.Dijkstra.Invariant.{IsFinite}
use terminal_sim.Dijkstra.Rounds.{Ended, IsClosedAt}
use terminal_sim.Dijkstra.Loop.{loop_ends}
use terminal_sim.Dijkstra.Walk.{IsWalk, NonNegative}
use terminal_sim.Dijkstra.Trace.{Traces, trace_lem, trace_source, trace_step}
use terminal_sim.Dijkstra.Start.{is_known, source_known, start-Between, edges-IsSound}

module _ {V W : Type 0} ⦃e : Eq V⦄ ⦃w : Weight W⦄ (laws : IsOrdered W) (vertex_lt : V → V → Bool)
    (g : Graph V W) (mode : Mode) (source target : V) where
  open laws use {le_refl, le_trans, le_antisymm, add_mono, le-add}

  -- A walk from the source to the target of finite weight, and no walk weighs less.
  pub record IsLeast (r : PathInfo V W) : Type 0 where
    pub leads : IsWalk g mode source r.path target
    pub totals : r.total ≡ path_weight r.path
    pub finite : IsFinite r.total
    pub least : (p : List (Edge V W)) → IsWalk g mode source p target → r.total ≼ path_weight p

  -- What the search owes: a result, and the right one.
  abbrev pub Answers : Option (Option (PathInfo V W)) → Type 0
  Answers none = ⊥
  Answers (some none) =
      (p : List (Edge V W)) → IsWalk g mode source p target → w.infinity ≼ path_weight p
  Answers (some (some r)) = IsLeast r

  module _ (wf : WellFormed g) (pos : NonNegative g) where
    walk_known :
        (u v : V) (p : List (Edge V W))
        → is_known g source u ≡ true
        → IsWalk g mode u p v
        → is_known g source v ≡ true
    walk_known u v [] k h = subst (λ y. is_known g source y ≡ true) h k
    walk_known u v (d ∷ ds) k h =
        walk_known d.target v ds (edges-IsSound laws g mode source wf pos u d h.1).to_known h.3

    module _ (t : Search V W) (end : Ended laws g mode (is_known g source) source target t) where
      -- What is known of a walk of weight `x` to `u`.
      abbrev Within : V → W → Type 0
      Within u x = (end.limit ≼ x) ⊎ (dist t u ≼ x)

      walk-Within :
          (u v : V) (x : W) (p : List (Edge V W))
          → is_known g source u ≡ true
          → Within u x
          → IsWalk g mode u p v
          → Within v (weight_from x p)
      unfolding weight_from
      walk-Within u v x [] k b h = subst (λ y. Within y x) h b
      walk-Within u v x (d ∷ ds) k b h =
          let ok = edges-IsSound laws g mode source wf pos u d h.1 in
          let grows : x ≼ w.add x d.weight = le-add x d.weight ok.not_negative in
          let over : end.limit ≼ x → Within d.target (w.add x d.weight) =
            λ far. inl (le_trans end.limit x (w.add x d.weight) far grows) in
          walk-Within d.target v (w.add x d.weight) ds ok.to_known
            (⊎_elim over
              (λ (near : dist t u ≼ x).
                ⊎_elim
                  (λ (far : end.limit ≼ dist t u). over (le_trans end.limit (dist t u) x far near))
                  (λ (closed : IsClosedAt laws g mode (is_known g source) source t u). inr (
                    le_trans (dist t d.target) (w.add (dist t u) d.weight) (w.add x d.weight)
                      (closed d h.1 h.2) (add_mono (dist t u) x d.weight near)))
                  (end.each u k))
              b)
            h.3

      -- No walk to the target is lighter than its distance.
      target_least :
          (p : List (Edge V W)) → IsWalk g mode source p target → dist t target ≼ path_weight p
      unfolding path_weight
      target_least p h =
          ⊎_elim (le_trans (dist t target) end.limit (path_weight p) end.target_within)
            (λ near. near)
            (walk-Within source target w.nought p (source_known laws g mode source)
              (inr (subst (λ y. y ≼ w.nought) (sym end.inv.source_zero) (le_refl w.nought))) h)

      target-Traces :
          is_known g source target ≡ true
          → IsFinite (dist t target)
          → Traces g mode source t end.inv.source_zero (suc (length t.visited)) target
      target-Traces k fin =
          ⊎_elim (trace_source g mode source t end.inv.source_zero (length t.visited) target)
            (λ (d, r).
              trace_step g mode source t end.inv.source_zero (length t.visited) t.visited target d r
                (trace_lem g mode source t end.inv.source_zero t.visited end.inv.ranked d.source
                  r.from_done (length t.visited) (omega arith)))
            (end.inv.reached target k fin)

      finish-Answers : is_known g source target ≡ true → Answers (finish source target t)
      unfolding finish
      finish-Answers k = elim (Bool-cases (w.same (dist t target) w.infinity)) [
        | inl far ↦
            let same = (laws.same_iff (dist t target) w.infinity).0 far in
            rw (far, finish) (λ p h. subst (λ y. y ≼ path_weight p) same (target_least p h))
        | inr near ↦
            let fin = finite_of near in
            let (back, ends, walk, sums) = target-Traces k fin in
            rw (near, ends, finish)
              (record { leads = walk; totals = sym sums; finite = fin; least = target_least })
      ]
        where
          finite_of : w.same (dist t target) w.infinity ≡ false → IsFinite (dist t target)
          finite_of near = elim (Bool-cases (w.lt (dist t target) w.infinity)) [
            | inl fin ↦ fin
            | inr inf ↦ cc (
              near,
              (laws.same_iff (dist t target) w.infinity).1
                  (le_antisymm (dist t target) w.infinity (end.inv.bounded target) inf),
            )
          ]

    -- On a well-formed graph without negative weights the search returns, within its fuel and
    -- without a gap in the reconstruction. If it returns a path, this is a walk from the source to
    -- the target over edges that the mode admits, with its weight, which is finite, and no walk
    -- weighs less. If it returns none, every walk there weighs at least infinity.
    pub dijkstra_correct : Answers (dijkstra vertex_lt g mode source target)
    unfolding dijkstra fuel_for
    dijkstra_correct =
        if_elim Answers
          (not (Maps.has source (start g source).distance)
            || not (Maps.has target (start g source).distance))
          missing present
      where
        missing :
            (not (Maps.has source (start g source).distance)
                || not (Maps.has target (start g source).distance))
              ≡ true
            → Answers (some none)
        missing h p walk = absurd (
            let there = walk_known source target p (source_known laws g mode source) walk in
            ground (arith, source_known laws g mode source))

        present :
            (not (Maps.has source (start g source).distance)
                || not (Maps.has target (start g source).distance))
              ≡ false
            → Answers
                (elim (loop vertex_lt g mode target (fuel_for g (start g source)) (start g source))
                  as (λ _. Option (Option (PathInfo V W))) [
                    | none ↦ none
                    | some t ↦ finish source target t
                  ])
        present h =
            let (t, ends, ended) =
              loop_ends laws vertex_lt g mode (is_known g source) source target
                (edges-IsSound laws g mode source wf pos) (fuel_for g (start g source))
                (start g source) (start-Between laws g mode source) (omega arith) in
            rw ends (finish-Answers t ended (ground arith))
