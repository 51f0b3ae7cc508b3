-- ===== src/Dijkstra/Lowers.antt =====
-- States that differ from another by lower distances of vertices not yet visited.
use terminal_sim.Prelude.{◌≡◌, inl, inr, ⊎_elim, refl, sym, ap, ◌∙◌, true, List, [], ◌∷◌, arith, Eq}
use terminal_sim.Prelude.Maps
use terminal_sim.Prelude.Sets
use terminal_sim.Common.{Mode}
use terminal_sim.Weight.{Weight, ◌≼◌, IsOrdered}
use terminal_sim.Graph.{Edge, Graph}
use terminal_sim.Dijkstra.{Search, dist}
use terminal_sim.Dijkstra.Invariant.{Reached, Ranked}

module _ {V W : Type 0} ⦃e : Eq V⦄ ⦃w : Weight W⦄ where
  -- `t` is `s` with some distances lowered, none of a vertex in `done`.
  pub record Lowers (done : List V) (s t : Search V W) : Type 0 where
    pub lower : (v : V) → dist t v ≼ dist s v
    pub settled : (v : V) → Sets.contains v done ≡ true → dist t v ≡ dist s v
    pub linked :
        (v : V) → Sets.contains v done ≡ true → Maps.lookup v t.previous ≡ Maps.lookup v s.previous

  pub Lowers-trans :
      (laws : IsOrdered W) (done : List V) (r s t : Search V W)
      → Lowers done r s
      → Lowers done s t
      → Lowers done r t
  Lowers-trans laws done r s t a b = record {
    lower = λ v. laws.le_trans (dist t v) (dist s v) (dist r v) (b.lower v) (a.lower v);
    settled = λ v h. b.settled v h ∙ a.settled v h;
    linked = λ v h. b.linked v h ∙ a.linked v h;
  }

  pub Lowers-refl : (laws : IsOrdered W) (done : List V) (s : Search V W) → Lowers done s s
  Lowers-refl laws done s = record {
    lower = λ v. laws.le_refl (dist s v);
    settled = λ v h. refl;
    linked = λ v h. refl;
  }

module _ {V W : Type 0} ⦃e : Eq V⦄ ⦃w : Weight W⦄ (g : Graph V W) (mode : Mode) (source : V)
    (done : List V) (s t : Search V W) (low : Lowers done s t) where
  Reached-Lowers :
      (older : List V) (v : V) (d : Edge V W)
      → Sets.contains v done ≡ true
      → ((x : V) → Sets.contains x older ≡ true → Sets.contains x done ≡ true)
      → Reached g mode s older v d
      → Reached g mode t older v d
  Reached-Lowers older v d vis sub r = record {
    recorded = low.linked v vis ∙ r.recorded;
    usable = r.usable;
    arrives = r.arrives;
    from_done = r.from_done;
    sums =
        low.settled v vis
        ∙ r.sums
        ∙ ap (λ y. w.add y d.weight) (sym (low.settled d.source (sub d.source r.from_done)));
  }

  pub Ranked-Lowers :
      (older : List V)
      → ((x : V) → Sets.contains x older ≡ true → Sets.contains x done ≡ true)
      → Ranked g mode source s older
      → Ranked g mode source t older
  Ranked-Lowers [] sub r = tt
  Ranked-Lowers (v ∷ older) sub r =
      let sub' : (x : V) → Sets.contains x older ≡ true → Sets.contains x done ≡ true =
        λ x h. sub x (ground (arith, Sets.contains-cons x v older)) in
      let vis : Sets.contains v done ≡ true =
        sub v (ground (arith, Sets.contains-cons v v older, e.same_iff v v)) in
      (
        ⊎_elim inl (λ (d, q). inr (d, Reached-Lowers older v d vis sub' q)) r.0,
        Ranked-Lowers older sub' r.1,
      )
