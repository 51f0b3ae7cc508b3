-- ===== src/Server/Broker/Attempts.antt =====
-- The tries of `sendResponse` of src/server/rabbit_mq_handler.cpp.
use native.Mathlib.Decide.{dec_lt}
use terminal_sim.Prelude.{
  ◌≡◌, ◌≢◌, ◌⊎◌, inl, inr, subst, refl, ℕ, zero, suc, ◌+◌, ◌≤◌, ◌<◌, true, false, arith,
}
use terminal_sim.Server.Broker.{
  Publish, Sent, accepted, failed, max_send_retries, publish_loop, refused, send_response,
}

-- No try from one number to before another is accepted.
abbrev pub NoneAccepted : (ℕ → Publish) → ℕ → ℕ → Type 0
NoneAccepted broker from to = (j : ℕ) → from ≤ j → j < to → broker j ≢ accepted

-- From a try on, with so many left: the response is sent by the last try that was made, and by no try
-- before it, or it is not sent and every try was made.
abbrev pub IsSentOnce : ℕ → ℕ → (ℕ → Publish) → Sent → Type 0
IsSentOnce first retries broker sent =
    ((sent.success ≡ true)
      × ((k : ℕ) × (sent.tries ≡ suc k)
          × (first ≤ k)
          × (k < first + retries)
          × (broker k ≡ accepted)
          × NoneAccepted broker first k))
    ⊎ ((sent.success ≡ false)
        × (sent.tries ≡ first + retries)
        × NoneAccepted broker first (first + retries))

-- One more try that was not accepted, before the others.
skipped :
    (i to : ℕ) (broker : ℕ → Publish)
    → broker i ≢ accepted
    → NoneAccepted broker (suc i) to
    → NoneAccepted broker i to
skipped i to broker now later j low high = elim (dec_lt i j) [
  | yes after ↦ later j (omega arith) high
  | no same ↦ let here : i ≡ j = omega arith in subst (λ k. broker k ≢ accepted) (here) now
]

retried :
    (retries i : ℕ) (broker : ℕ → Publish) (sent : Sent)
    → broker i ≢ accepted
    → IsSentOnce (suc i) retries broker sent
    → IsSentOnce i (suc retries) broker sent
retried retries i broker sent now (inl (done, (k, tries, low, high, good, before))) =
    inl (done, (k, tries, omega arith, omega arith, good, skipped i k broker now before))
retried retries i broker sent now (inr (lost, tries, before)) = inr (
  lost,
  omega arith,
  λ j low high. skipped i (suc i + retries) broker now before j low (omega arith),
)

publish_loop-IsSentOnce :
    (retries i : ℕ) (broker : ℕ → Publish)
    → IsSentOnce i retries broker (publish_loop retries i broker)
unfolding publish_loop
publish_loop-IsSentOnce zero i broker = inr (refl, omega arith, λ j low high. absurd (omega arith))
publish_loop-IsSentOnce (suc retries) i broker =
    let rest = publish_loop-IsSentOnce retries (suc i) broker in
    elim (Publish-cases (broker i)) [
      | inl good ↦
          rw (good, publish_loop)
            (inl
              (refl, (i, refl, omega arith, omega arith, good, λ j low high. absurd (omega arith))))
      | inr (inl lost) ↦ rw (lost, publish_loop) (retried retries i broker _ (λ good. cc) rest)
      | inr (inr lost) ↦ rw (lost, publish_loop) (retried retries i broker _ (λ good. cc) rest)
    ]
  where
    Publish-cases : (p : Publish) → (p ≡ accepted) ⊎ ((p ≡ refused) ⊎ (p ≡ failed))
    Publish-cases accepted = inl refl
    Publish-cases refused = inr (inl refl)
    Publish-cases failed = inr (inr refl)

-- With a connection, a response is tried three times at most: the try that the broker accepts is the
-- last one, and the call fails only after three that it does not accept.
pub send_response-IsSentOnce :
    (broker : ℕ → Publish) → IsSentOnce 0 max_send_retries broker (send_response true broker)
unfolding send_response
send_response-IsSentOnce broker = publish_loop-IsSentOnce max_send_retries 0 broker
