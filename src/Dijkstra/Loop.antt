-- ===== src/Dijkstra/Loop.antt =====
-- The main loop ends within its fuel.
use mathlib.Core.List.Memᴰ
use terminal_sim.Prelude.{
  ℕ, zero, suc, ◌+◌, ◌≤◌, ◌<◌, ◌≡◌, ◌⊎◌, inl, inr, refl, sym, ap, ◌∙◌, subst, Bool, true, false,
  some, List, [], ◌∷◌, Memᴰ, arith, Eq, ◌==◌, if_elim, Bool-cases, eq_of, length,
}
use terminal_sim.Prelude.Maps
use terminal_sim.Prelude.Sets
use terminal_sim.Common.{Mode}
use terminal_sim.Weight.{Weight, ◌≼◌, IsOrdered}
use terminal_sim.Graph.{Edge, Graph, outgoing}
use terminal_sim.Dijkstra.{
  Item, Search, Round, stop, again, dist, relax, relax_all, round, loop, edges_left,
}
use terminal_sim.Dijkstra.Queue.{Pops, pop_cases}
use terminal_sim.Dijkstra.Expand.{IsSound, relax_all-Expands}
use terminal_sim.Dijkstra.Rounds.{
  Between, Ended, in_queue, least, skip-Inv, visit-Inv, visit-Front, expand-Between,
}

module _ {V W : Type 0} ⦃e : Eq V⦄ ⦃w : Weight W⦄ where
  relax-queue :
      (mode : Mode) (du : W) (s : Search V W) (d : Edge V W)
      → length (relax mode du s d).queue ≤ suc (length s.queue)
  unfolding relax
  relax-queue mode du s d = ground arith

  relax-visited :
      (mode : Mode) (du : W) (s : Search V W) (d : Edge V W)
      → (relax mode du s d).visited ≡ s.visited
  unfolding relax
  relax-visited mode du s d = ground arith

  pub relax_all-queue :
      (mode : Mode) (du : W) (s : Search V W) (ds : List (Edge V W))
      → length (relax_all mode du s ds).queue ≤ length s.queue + length ds
  unfolding relax_all
  relax_all-queue mode du s [] = omega arith
  relax_all-queue mode du s (d ∷ ds) =
      omega (arith, relax_all-queue mode du (relax mode du s d) ds, relax-queue mode du s d)

  pub relax_all-visited :
      (mode : Mode) (du : W) (s : Search V W) (ds : List (Edge V W))
      → (relax_all mode du s ds).visited ≡ s.visited
  unfolding relax_all
  relax_all-visited mode du s [] = refl
  relax_all-visited mode du s (d ∷ ds) =
      relax_all-visited mode du (relax mode du s d) ds ∙ relax-visited mode du s d

  edges_left-cons-le :
      (u : V) (visited : List V) (m : List (V × List (Edge V W)))
      → edges_left (u ∷ visited) m ≤ edges_left visited m
  unfolding edges_left
  edges_left-cons-le u visited [] = omega arith
  edges_left-cons-le u visited ((v, es) ∷ m) =
      ground (arith, edges_left-cons-le u visited m, Sets.contains-cons v u visited)

  -- The edges of a vertex are counted until it is visited.
  pub edges_left-visit :
      (u : V) (visited : List V) (m : List (V × List (Edge V W)))
      → Sets.contains u visited ≡ false
      → edges_left (u ∷ visited) m + length (Maps.get_or u m []) ≤ edges_left visited m
  unfolding edges_left Maps.get_or
  edges_left-visit u visited [] h = omega arith
  edges_left-visit u visited ((v, es) ∷ m) h = ground (
    arith,
    edges_left-visit u visited m h,
    edges_left-cons-le u visited m,
    Sets.contains-cons v u visited,
    e.same_iff u v,
    e.same_iff v u,
    λ (p : v ≡ u). ap (λ y. Sets.contains y visited) p,
  )

module _ {V W : Type 0} ⦃e : Eq V⦄ ⦃w : Weight W⦄ (laws : IsOrdered W) (vertex_lt : V → V → Bool)
    (g : Graph V W) (mode : Mode) (known : V → Bool) (source target : V)
    (sound : (u : V) (d : Edge V W)
      → Memᴰ d (outgoing u g)
      → IsSound laws g mode known source u d) where
  open laws use {le_refl}

  abbrev work : Search V W → ℕ
  work s = length s.queue + edges_left s.visited g.adjacency

  -- What a round leaves: a state with less work, or the end.
  abbrev Outcome : Search V W → Round V W → Type 0
  Outcome s (stop t) = Ended laws g mode known source target t
  Outcome s (again t) = Between laws g mode known source t × (work t < work s)

  module _ (s : Search V W) (b : Between laws g mode known source s) where
    empty-Ended : s.queue ≡ [] → Ended laws g mode known source target s
    empty-Ended done = record {
      inv = b.inv;
      limit = w.infinity;
      target_within = b.inv.bounded target;
      each = λ u k. elim (Bool-cases (Sets.contains u s.visited)) [
        | inl seen ↦ inr (b.closed u seen)
        | inr unseen ↦ inl (far u k unseen)
      ];
    }
      where
        far : (u : V) → known u ≡ true → Sets.contains u s.visited ≡ false → w.infinity ≼ dist s u
        far u k unseen = elim (Bool-cases (w.lt (dist s u) w.infinity)) [
          | inl fin ↦ absurd (Memᴰ.not-nil (subst (Memᴰ _) done (b.inv.waiting u k unseen fin)))
          | inr inf ↦ inf
        ]

    module _ (x : Item V W) (rest : List (Item V W)) (pops : Pops s.queue x rest) where
      target-Ended :
          Sets.contains x.vertex s.visited ≡ false
          → x.vertex ≡ target
          → Ended laws g mode known source target
              (record s { queue = rest; visited = x.vertex ∷ s.visited })
      target-Ended unseen hit = record {
        inv = visit-Inv laws g mode known source s x rest b.inv pops unseen;
        limit = x.dist;
        target_within =
            subst (λ y. dist s y ≼ x.dist) hit
              (b.inv.queued x (in_queue laws g mode known source s x rest b.inv pops)).0;
        each = λ u k. elim (Bool-cases (Sets.contains u s.visited)) [
          | inl seen ↦ inr (b.closed u seen)
          | inr fresh ↦ inl (far u k fresh)
        ];
      }
        where
          far : (u : V) → known u ≡ true → Sets.contains u s.visited ≡ false → x.dist ≼ dist s u
          far u k fresh = elim (Bool-cases (w.lt (dist s u) w.infinity)) [
            | inl fin ↦
                least laws g mode known source s x rest b.inv pops _ (b.inv.waiting u k fresh fin)
            | inr inf ↦
                laws.le_trans x.dist w.infinity (dist s u)
                  (laws.le_of_lt x.dist w.infinity
                    (b.inv.queued x (in_queue laws g mode known source s x rest b.inv pops)).2)
                  inf
          ]

      skip-Outcome :
          Sets.contains x.vertex s.visited ≡ true → Outcome s (again (record s { queue = rest }))
      skip-Outcome seen = (
        record {
          inv = skip-Inv laws g mode known source s x rest b.inv pops seen;
          closed = b.closed;
        },
        omega (arith, pops.shorter),
      )

      expand-Outcome :
          Sets.contains x.vertex s.visited ≡ false
          → Outcome s (
              again (
                relax_all mode x.dist
                  (record s { queue = rest; visited = x.vertex ∷ s.visited })
                  (outgoing x.vertex g)))
      unfolding outgoing
      expand-Outcome unseen =
          let before : Search V W = record s { queue = rest; visited = x.vertex ∷ s.visited } in
          let after = relax_all mode x.dist before (outgoing x.vertex g) in
          let (ex, closed) =
            relax_all-Expands laws g mode known source x.vertex x.dist (outgoing x.vertex g) before
              (visit-Inv laws g mode known source s x rest b.inv pops unseen)
              (visit-Front laws g mode known source s x rest b.inv pops unseen) (sound x.vertex) in
          (
            expand-Between laws g mode known source target sound before after x.vertex x.dist
                s.visited refl b.closed ex
                (λ d m take.
                  subst (λ y. dist after d.target ≼ w.add y d.weight) (sym ex.front.at)
                    (closed d m take)),
            omega (
              arith,
              pops.shorter,
              relax_all-queue mode x.dist before (outgoing x.vertex g),
              edges_left-visit x.vertex s.visited g.adjacency unseen,
              ap (λ l. edges_left l g.adjacency)
                  (relax_all-visited mode x.dist before (outgoing x.vertex g)),
            ),
          )

    round-Outcome : Outcome s (round vertex_lt g mode target s)
    unfolding round
    round-Outcome = elim (pop_cases laws vertex_lt s.queue) [
      | inl (done, none_left) ↦ rw (none_left, round) (empty-Ended done)
      | inr (x, rest, popped, pops) ↦
          rw (popped, round)
            (if_elim (Outcome s) (Sets.contains x.vertex s.visited) (skip-Outcome x rest pops)
              (λ unseen.
                if_elim (Outcome s) (x.vertex == target)
                  (λ hit. target-Ended x rest pops unseen (eq_of x.vertex target hit))
                  (λ _. expand-Outcome x rest pops unseen)))
    ]

  Round-cases :
      (r : Round V W) → ((t : Search V W) × (r ≡ stop t)) ⊎ ((t : Search V W) × (r ≡ again t))
  Round-cases (stop t) = inl (t, refl)
  Round-cases (again t) = inr (t, refl)

  -- With more fuel than work the loop ends.
  pub loop_ends :
      (fuel : ℕ) (s : Search V W)
      → Between laws g mode known source s
      → work s < fuel
      → (t : Search V W) × (loop vertex_lt g mode target fuel s ≡ some t)
        × Ended laws g mode known source target t
  unfolding loop
  loop_ends zero s b h = absurd (omega arith)
  loop_ends (suc fuel) s b h = elim (Round-cases (round vertex_lt g mode target s)) [
    | inl (t, r) ↦ (t, rw (r, loop), rw r at (round-Outcome s b))
    | inr (t, r) ↦
        let (ok, less) = (let o : Outcome s (again t) = rw r at (round-Outcome s b) in o) in
        let (u, ends, ended) = loop_ends fuel t ok (omega arith) in (u, rw (r, loop) ends, ended)
  ]
