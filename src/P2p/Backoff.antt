-- ===== src/P2p/Backoff.antt =====
-- Backoff and Retry (internal/network/p2p/backoff.go). A duration is the 64-bit pattern of its nanoseconds;
-- `scale` is the product with the multiplier and `doubled` that with 2.0, each as time.Duration of a float64;
-- `above_one` tells whether the multiplier is above 1.0; `jitter` is the product with the random factor of an
-- attempt.
use skall.Base.{
  ℕ, suc, Bool, true, not, ◌||◌, ◌&&◌, Option, none, some, List, [], ◌∷◌, ltb, nat_eq,
  if◌then◌else◌,
}
use skall.Bytes.{Bytes}
use skall.Dht.State.{is_positive}

-- `max_retries` is 0 for no limit.
pub record BackoffConfig : Type 0 where
  pub initial_interval : ℕ
  pub max_interval : ℕ
  pub scale : ℕ → ℕ
  pub above_one : Bool
  pub doubled : ℕ → ℕ
  pub max_retries : ℕ
  pub jitter : Option (ℕ → ℕ → ℕ)

pub record Backoff : Type 0 where
  pub cfg : BackoffConfig
  pub current_delay : ℕ
  pub attempts : ℕ

-- The intervals of NewBackoff, and the maximum that is no less than the initial one.
abbrev pub initial_of : BackoffConfig → ℕ
initial_of cfg = if is_positive cfg.initial_interval then cfg.initial_interval else 1000000000

abbrev pub max_of : BackoffConfig → ℕ
max_of cfg = if is_positive cfg.max_interval then cfg.max_interval else 60000000000

unfoldable pub new_backoff : BackoffConfig → Backoff
new_backoff cfg = record {
  cfg = record cfg {
    initial_interval = initial_of cfg;
    max_interval = if ltb (max_of cfg) (initial_of cfg) then initial_of cfg else max_of cfg;
    scale = if cfg.above_one then cfg.scale else cfg.doubled;
    above_one = true;
  };
  current_delay = initial_of cfg;
  attempts = 0;
}

unfoldable pub reset : Backoff → Backoff
reset b = record b { current_delay = b.cfg.initial_interval; attempts = 0 }

unfoldable pub has_next : Backoff → Bool
has_next b = nat_eq b.cfg.max_retries 0 || ltb b.attempts b.cfg.max_retries

-- NextDelay. A product that overflows is a negative duration, which is not above the maximum.
unfoldable pub next_delay : Backoff → Backoff × ℕ
next_delay b =
    let next = b.cfg.scale b.current_delay in
    (
      record b {
        attempts = suc b.attempts;
        current_delay =
            if is_positive next && ltb b.cfg.max_interval next then b.cfg.max_interval else next;
      },
      elim b.cfg.jitter [
        | none ↦ b.current_delay
        | some factor ↦ factor b.attempts b.current_delay
      ],
    )

pub data SleepError : Type 0 where
  max_retries_reached cancelled : SleepError

-- Sleep, when the context is cancelled in it or not.
unfoldable pub sleep : Bool → Backoff → Backoff × Option SleepError
sleep cancels b =
    if not (has_next b)
    then (b, some max_retries_reached)
    else ((next_delay b).0, if cancels then some cancelled else none)

-- One turn of Retry: what the operation returns, and whether the context is cancelled in the sleep after it.
pub record Attempt : Type 0 where
  pub error : Option Bytes
  pub cancels : Bool

pub data RetryError : Type 0 where
  last_error : Bytes → RetryError
  context_cancelled : RetryError

-- What follows the sleep: `rest` is the loop from there on.
unfoldable pub after_sleep :
    Bytes → Option SleepError → Option (Option RetryError) → Option (Option RetryError)
after_sleep e none rest = rest
after_sleep e (some max_retries_reached) rest = some (some (last_error e))
after_sleep e (some cancelled) rest = some (some context_cancelled)

unfoldable pub after_attempt :
    Option Bytes → Option SleepError → Option (Option RetryError) → Option (Option RetryError)
after_attempt none slept rest = some none
after_attempt (some e) slept rest = after_sleep e slept rest

-- The loop of Retry; `none` is a loop that still runs.
unfoldable pub retry_from : List Attempt → Backoff → Option (Option RetryError)
retry_from [] b = none
retry_from (a ∷ attempts) b =
    let (b', slept) = sleep a.cancels b in after_attempt a.error slept (retry_from attempts b')

unfoldable pub retry : BackoffConfig → List Attempt → Option (Option RetryError)
retry cfg attempts = retry_from attempts (new_backoff cfg)
