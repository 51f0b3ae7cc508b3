-- ===== src/Terminal/Results/Totals.antt =====
-- The results of an execution in src/terminal/terminal.cpp count every record once.
use terminal_sim.Prelude.{
  ◌≡◌, refl, ℕ, ◌+◌, Bool, List, [], ◌∷◌, Text, text_eq, length, length-append, arith,
}
use terminal_sim.Prelude.Maps
use terminal_sim.Real.{Real}
use terminal_sim.Terminal.{Batch, Env, EventType, Terminal}
use terminal_sim.Terminal.Batches.{grouping_key}
use terminal_sim.Terminal.Results.{
  ExecutionResult, count_event, group_records, include_record, insert_result, new_result,
  results_of, select_records, sort_results, terminal_execution_results,
}

abbrev pub total : {A : Type 0} → (A → ℕ) → List A → ℕ
total f [] = 0
total f (x ∷ xs) = f x + total f xs

-- The containers that a record dropped off and picked up.
abbrev pub dropped_by : {T : Type 0} → Batch T → ℕ
dropped_by b = elim b.event_type as (λ _. ℕ) [
  | EventType.arrival_dropoff ↦ b.container_count
  | EventType.pickup_departure ↦ 0
]

abbrev pub picked_by : {T : Type 0} → Batch T → ℕ
picked_by b = elim b.event_type as (λ _. ℕ) [
  | EventType.arrival_dropoff ↦ 0
  | EventType.pickup_departure ↦ b.container_count
]

module _ {C S F T : Type 0} ⦃r : Real T⦄ (env : Env C S F T) (text_lt : Text → Text → Bool) where
  module _ (f : ExecutionResult T → ℕ) (g : Batch T → ℕ)
      (begins : (b : Batch T) → f (new_result b) ≡ 0)
      (counts : (b : Batch T) (x : ExecutionResult T) → f (include_record b x) ≡ f x + g b) where
    -- A key gets a value that counts more than the one it had.
    total-insert :
        (key : Text) (value given : ExecutionResult T) (more : ℕ)
        (grouped : List (Text × ExecutionResult T))
        → f given ≡ 0
        → f value ≡ f (Maps.get_or key grouped given) + more
        → total f (results_of env text_lt (Maps.insert key value grouped))
          ≡ total f (results_of env text_lt grouped) + more
    unfolding results_of Maps.insert Maps.get_or
    total-insert key value given more [] zero_given counted = omega arith
    total-insert key value given more ((j, x) ∷ grouped) zero_given counted =
        ground (arith, total-insert key value given more grouped zero_given)

    total-group :
        (bs : List (Batch T)) (grouped : List (Text × ExecutionResult T))
        → total f (results_of env text_lt (group_records env text_lt bs grouped))
          ≡ total f (results_of env text_lt grouped) + total g bs
    unfolding group_records
    total-group [] grouped = omega arith
    total-group (b ∷ bs) grouped = omega (
      arith,
      total-group bs _,
      total-insert (grouping_key env b.metadata)
          (include_record b (Maps.get_or (grouping_key env b.metadata) grouped (new_result b)))
          (new_result b) (g b) grouped (begins b) (counts b _),
    )

    total-insert_result :
        (x : ExecutionResult T) (xs : List (ExecutionResult T))
        → total f (insert_result env text_lt x xs) ≡ f x + total f xs
    unfolding insert_result
    total-insert_result x [] = refl
    total-insert_result x (y ∷ ys) = ground (arith, total-insert_result x ys)

    total-sort :
        (xs : List (ExecutionResult T)) → total f (sort_results env text_lt xs) ≡ total f xs
    unfolding sort_results
    total-sort [] = refl
    total-sort (x ∷ xs) =
        omega (arith, total-insert_result x (sort_results env text_lt xs), total-sort xs)

    total-results :
        (execution : Text) (keys : List Text) (t : Terminal C S T)
        → total f (terminal_execution_results env text_lt execution keys t)
          ≡ total g (select_records env text_lt execution keys t)
    unfolding terminal_execution_results results_of
    total-results execution keys t = omega (
      arith,
      total-sort (
          results_of env text_lt
            (group_records env text_lt (select_records env text_lt execution keys t) [])),
      total-group (select_records env text_lt execution keys t) [],
    )

  -- The results of an execution together have the containers that the selected records dropped off
  -- and picked up, the containers that customs held, and as many records as were selected.
  pub terminal_execution_results-totals :
      (execution : Text) (keys : List Text) (t : Terminal C S T)
      → (total (λ x. x.dropped) (terminal_execution_results env text_lt execution keys t)
          ≡ total dropped_by (select_records env text_lt execution keys t))
        × (total (λ x. x.picked) (terminal_execution_results env text_lt execution keys t)
            ≡ total picked_by (select_records env text_lt execution keys t))
        × (total
              (λ x. x.customs_applied_count)
              (terminal_execution_results env text_lt execution keys t)
            ≡ total (λ b. b.customs_applied_count) (select_records env text_lt execution keys t))
        × (total
              (λ x. length x.raw_records)
              (terminal_execution_results env text_lt execution keys t)
            ≡ total (λ _. 1) (select_records env text_lt execution keys t))
  unfolding new_result include_record count_event
  terminal_execution_results-totals execution keys t = (
    total-results (λ x. x.dropped) dropped_by (λ b. refl) (λ b x. ground arith) execution keys t,
    total-results (λ x. x.picked) picked_by (λ b. refl) (λ b x. ground arith) execution keys t,
    total-results (λ x. x.customs_applied_count) (λ b. b.customs_applied_count) (λ b. refl)
        (λ b x. ground arith) execution keys t,
    total-results (λ x. length x.raw_records) (λ _. 1) (λ b. refl)
        (λ b x. omega (arith, length-append x.raw_records (b ∷ []))) execution keys t,
  )
