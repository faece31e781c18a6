-- ===== src/ModelRecovery/Policy/Bounds.antt =====
-- The delays and the budget of src/model_response_recovery.rs.
use native.Mathlib.Nat.{pow-suc, one-le-pow}
use fx_rust.Prelude.{
  ℕ, zero, suc, ◌+◌, ◌*◌, ◌^◌, ◌≤◌, min, ◌≡◌, ◌↔◌, refl, true, false, Option, none, some, arith,
  ◌==◌, Bool, ◌<◌, ◌&&◌, ◌||◌, not,
}
use fx_rust.ModelRecovery.Attempts.{goes_on}
use fx_rust.ModelRecovery.Policy.{
  Evidence, RetryPacingState, FailureCause, decide, decide_retry, retry_delay_ns, double_seconds,
  ns_per_s, delay_for, after_failure, Delivery, is_uncertain,
}

double_again : (n : ℕ) → 32 ≤ 2 ^ suc (suc (suc (suc (suc n))))
double_again n = omega (
  arith,
  one-le-pow n 2 (omega arith),
  pow-suc 2 n,
  pow-suc 2 (suc n),
  pow-suc 2 (suc (suc n)),
  pow-suc 2 (suc (suc (suc n))),
  pow-suc 2 (suc (suc (suc (suc n)))),
)

-- From the second failure in a row on, the delay is a power of two in seconds, from 1 on, cut to
-- 30: no product of the code wraps, and its loop is run to its end.
pub retry_delay_closed : (n : ℕ) → retry_delay_ns (n + 2) ≡ min (2 ^ n) 30 * ns_per_s
unfolding retry_delay_ns double_seconds
retry_delay_closed zero = refl
retry_delay_closed (suc zero) = refl
retry_delay_closed (suc (suc zero)) = refl
retry_delay_closed (suc (suc (suc zero))) = refl
retry_delay_closed (suc (suc (suc (suc zero)))) = refl
retry_delay_closed (suc (suc (suc (suc (suc n))))) = ground (arith, double_again n)

pub retry_delay-le : (n : ℕ) → retry_delay_ns n ≤ 30 * ns_per_s
unfolding retry_delay_ns double_seconds
retry_delay-le n = ground arith

delay_for-le :
    (retry_after : Option ℕ) (pacing : RetryPacingState)
    → delay_for retry_after pacing ≤ 30 * ns_per_s
delay_for-le (some seconds) pacing = omega arith
delay_for-le none RetryPacingState.idle = omega arith
delay_for-le none (RetryPacingState.implicit cause attempt) = retry_delay-le attempt

abbrev pub is_terminal : FailureCause → Bool
is_terminal FailureCause.content_filter = true
is_terminal FailureCause.request_limit_reached = true
is_terminal _ = false

-- A decision reserves an attempt exactly when nobody cancelled, the cause is neither the content
-- filter nor a request limit, and the budget has an attempt left.
pub decide_reserves_iff :
    (e : Evidence)
    → ((decide e).reserve_provider_attempt ≡ true) ↔ (
        (e.cancelled ≡ false)
        × (is_terminal e.cause ≡ false)
        × (e.attempts.consumed < e.attempts.limit))
unfolding decide decide_retry
decide_reserves_iff e = (λ h. (ground arith, ground arith, ground arith), λ h. ground (arith, h))

abbrev pub may_have_run : Evidence → Bool
may_have_run e = may_be_sent e.delivery && is_uncertain e.tool
  where
    may_be_sent : Delivery → Bool
    may_be_sent Delivery.possibly_sent = true
    may_be_sent Delivery.definitely_unsent = false

-- A decision waits for at most 30 seconds. A request that may have been sent is never sent again
-- while it is uncertain whether its tool ran. What is sent again was reserved from the budget, and
-- what reserves nothing waits for nothing.
pub decide_sound :
    (e : Evidence)
    → ((decide e).delay_ns ≤ 30 * ns_per_s)
      × ((goes_on (decide e).strategy && may_have_run e) ≡ false)
      × ((not (goes_on (decide e).strategy) || (decide e).reserve_provider_attempt) ≡ true)
      × (((decide e).reserve_provider_attempt || (decide e).delay_ns == 0) ≡ true)
unfolding decide decide_retry
decide_sound e = (
  ground (
    arith,
    delay_for-le e.retry_after_seconds (after_failure e.pacing e.cause e.retry_after_seconds),
  ),
  ground arith,
  ground arith,
  ground arith,
)
