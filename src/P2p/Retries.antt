-- ===== src/P2p/Retries.antt =====
-- The delays of a backoff and the end of Retry (internal/network/p2p/backoff.go).
use skall.Base.{
  ◌+◌, ◌≡◌, ◌≢◌, ◌≤◌, ◌<◌, refl, not, Option, none, some, List, [], ◌∷◌, arith, length, if_intro,
}
use skall.Bytes.{Bytes}
use skall.P2p.Backoff.{
  BackoffConfig, Backoff, new_backoff, has_next, next_delay, SleepError, max_retries_reached,
  cancelled, sleep, Attempt, RetryError, last_error, context_cancelled, after_sleep, after_attempt,
  retry_from, retry,
}

-- What follows an attempt ends if the loop from there on ends, or if no attempt is left.
after_attempt_ends :
    (error : Option Bytes) (slept : Option SleepError) (rest : Option (Option RetryError))
    → (slept ≡ none → (r : Option RetryError) × (rest ≡ some r))
    → (r : Option RetryError) × (after_attempt error slept rest ≡ some r)
unfolding after_attempt after_sleep
after_attempt_ends none slept rest h = (none, refl)
after_attempt_ends (some e) none rest h = h refl
after_attempt_ends (some e) (some max_retries_reached) rest h = (some (last_error e), refl)
after_attempt_ends (some e) (some cancelled) rest h = (some context_cancelled, refl)

retry_from_ends :
    (attempts : List Attempt) (b : Backoff)
    → b.cfg.max_retries ≢ 0
    → b.cfg.max_retries < length attempts + b.attempts
    → b.attempts ≤ b.cfg.max_retries
    → (r : Option RetryError) × (retry_from attempts b ≡ some r)
unfolding retry_from sleep next_delay has_next
retry_from_ends [] b limited many within = absurd (omega (arith, many, within))
retry_from_ends (a ∷ attempts) b limited many within =
    if_intro
      (λ (r : Backoff × Option SleepError).
        (x : Option RetryError) × (after_attempt a.error r.1 (retry_from attempts r.0) ≡ some x))
      (not (has_next b)) _ _
      (λ e.
        after_attempt_ends a.error (some max_retries_reached) (retry_from attempts b)
          (λ h. absurd (ground arith)))
      (λ e. after_attempt_ends a.error _ (retry_from attempts (next_delay b).0) (λ h.
        retry_from_ends attempts (next_delay b).0 limited (omega (arith, many))
          (ground (arith, limited, e))))

-- With a limit of n retries that is not 0, Retry returns after at most n + 1 calls of the
-- operation, whatever they return.
pub retry_ends :
    (cfg : BackoffConfig) (attempts : List Attempt)
    → cfg.max_retries ≢ 0
    → cfg.max_retries < length attempts
    → (r : Option RetryError) × (retry cfg attempts ≡ some r)
unfolding retry new_backoff
retry_ends cfg attempts limited many =
    retry_from_ends attempts (new_backoff cfg) limited (omega (arith, many)) (omega arith)
