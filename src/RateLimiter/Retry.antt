-- ===== src/RateLimiter/Retry.antt =====
-- custos/rate_limiter.py: `retry_after_seconds` mirrors `check_and_consume`.
use custos_core.Common.{
  ℕ, ◌+◌, ◌*◌, ◌-◌, ◌≤◌, ◌<◌, ◌≡◌, ◌↔◌, refl, ap, none, some, arith, true, false, Bool, String, ◌≢◌,
}
use custos_core.RateLimiter.{
  QuotaConfig, QuotaState, Reason, admitted, judge, check, wait, is_admitted, minute, hour, left,
  seconds, minute_exceeded, hour_exceeded, token_exceeded, unknown_client, RateLimiter,
  retry_after_seconds, check_and_consume,
}

-- No wait is reported exactly when the check would admit.
wait-eq-none_iff :
    (c : QuotaConfig) (tokens now : ℕ) (s : QuotaState)
    → (wait c tokens now s ≡ none) ↔ (is_admitted (check c tokens now s).0 ≡ true)
unfolding wait check judge
wait-eq-none_iff c tokens now s = (λ h. ground arith, λ h. ground arith)

-- A refusal for a quota, not for an unknown client.
abbrev pub is_quota_refusal : Reason → Bool
is_quota_refusal minute_exceeded = true
is_quota_refusal hour_exceeded = true
is_quota_refusal token_exceeded = true
is_quota_refusal _ = false

check-known :
    (c : QuotaConfig) (tokens now : ℕ) (s : QuotaState) → (check c tokens now s).0 ≢ unknown_client
unfolding check judge
check-known c tokens now s h = ground arith

-- `retry_after_seconds` reports no wait exactly when `check_and_consume`, at the same moment, would not
-- refuse the client for a quota.
pub retry_after_seconds-eq-none_iff :
    (client : String) (tokens now : ℕ) (l : RateLimiter)
    → (retry_after_seconds client tokens now l ≡ none)
      ↔ (is_quota_refusal (check_and_consume client tokens now l).0 ≡ false)
unfolding retry_after_seconds check_and_consume
retry_after_seconds-eq-none_iff client tokens now l = (
  λ h. grind (arith, wait-eq-none_iff, check-known),
  λ h. grind (arith, wait-eq-none_iff, check-known),
)

le-seconds : (ms : ℕ) → ms ≤ seconds ms * 1000
le-seconds ms = ground arith

module _ (c : QuotaConfig) (tokens : ℕ) where
  -- Once the minute has elapsed, neither quota of the minute refuses.
  minute_elapsed :
      (later : ℕ) (s : QuotaState)
      → 0 < c.requests_per_minute
      → tokens ≤ c.tokens_per_minute
      → minute ≤ later - s.minute_window_start
      → ((check c tokens later s).0 ≢ minute_exceeded)
        × ((check c tokens later s).0 ≢ token_exceeded)
  unfolding check judge
  minute_elapsed later s pm pt h = (λ e. ground arith, λ e. ground arith)

  hour_elapsed :
      (later : ℕ) (s : QuotaState)
      → 0 < c.requests_per_hour
      → hour ≤ later - s.hour_window_start
      → (check c tokens later s).0 ≢ hour_exceeded
  unfolding check judge
  hour_elapsed later s ph h e = ground arith

  module _ (now : ℕ) (s : QuotaState) where
    -- A refusal leaves the state after the resets, whose windows are open, and is that state's.
    refused :
        is_admitted (check c tokens now s).0 ≡ false
        → let s' = (check c tokens now s).1 in
          ((judge c tokens s').0 ≡ (check c tokens now s).0)
          × (now - s'.minute_window_start < minute)
          × (now - s'.hour_window_start < hour)
    unfolding check judge
    refused h = (ground arith, ground arith, ground arith)

  -- The window whose end the wait reports.
  abbrev Window : Reason → QuotaState → ℕ → ℕ → Type 0
  Window minute_exceeded s now n = n ≡ seconds (left minute now s.minute_window_start)
  Window hour_exceeded s now n = n ≡ seconds (left hour now s.hour_window_start)
  Window token_exceeded s now n = n ≡ seconds (left minute now s.minute_window_start)
  Window _ s now n = Unit

  wait-Window :
      (now n : ℕ) (s : QuotaState)
      → now - s.minute_window_start < minute
      → now - s.hour_window_start < hour
      → wait c tokens now s ≡ some n
      → Window (judge c tokens s).0 s now n
  unfolding wait judge
  wait-Window now n s m h e = ground arith

  covers :
      (window now n later start : ℕ)
      → n ≡ seconds (left window now start)
      → now + n * 1000 ≤ later
      → window ≤ later - start
  covers window now n later start e h =
      omega (arith, le-seconds (left window now start), ap (λ (k : ℕ). k * 1000) e)

  over_again :
      (r : Reason) (now n later : ℕ) (s : QuotaState)
      → 0 < c.requests_per_minute
      → 0 < c.requests_per_hour
      → tokens ≤ c.tokens_per_minute
      → is_admitted r ≡ false
      → r ≢ unknown_client
      → Window r s now n
      → now + n * 1000 ≤ later
      → (check c tokens later s).0 ≢ r
  over_again unknown_client now n later s pm ph pt f k w h = absurd (k refl)
  over_again admitted now n later s pm ph pt f k w h = cc
  over_again minute_exceeded now n later s pm ph pt f k w h =
      (minute_elapsed later s pm pt (covers minute now n later s.minute_window_start w h)).0
  over_again hour_exceeded now n later s pm ph pt f k w h =
      hour_elapsed later s ph (covers hour now n later s.hour_window_start w h)
  over_again token_exceeded now n later s pm ph pt f k w h =
      (minute_elapsed later s pm pt (covers minute now n later s.minute_window_start w h)).1

  -- The wait counts: if a request is refused for a quota, and `n` is the wait that is then reported, a
  -- request of as many tokens `n` seconds later, or any time after, is not refused for that quota.
  -- The quotas admit one request, and one of that size.
  pub wait-ends :
      (now n later : ℕ) (s : QuotaState)
      → 0 < c.requests_per_minute
      → 0 < c.requests_per_hour
      → tokens ≤ c.tokens_per_minute
      → is_admitted (check c tokens now s).0 ≡ false
      → wait c tokens now (check c tokens now s).1 ≡ some n
      → now + n * 1000 ≤ later
      → (check c tokens later (check c tokens now s).1).0 ≢ (check c tokens now s).0
  wait-ends now n later s pm ph pt r w h =
      let (same, m, o) = refused now s r in
      over_again (check c tokens now s).0 now n later (check c tokens now s).1 pm ph pt r
        (check-known c tokens now s) (rw same at (wait-Window now n (check c tokens now s).1 m o w))
        h
