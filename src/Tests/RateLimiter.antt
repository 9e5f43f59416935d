-- ===== src/Tests/RateLimiter.antt =====
-- The rate limiter at concrete inputs.
use custos_core.Common.{◌≡◌, refl, false, ◌↔◌, none, [], ◌∷◌, arith, ◌≤◌, ◌+◌}
use custos_core.RateLimiter.{
  QuotaConfig, QuotaState, empty_limiter, minute_exceeded, judge, check, check_and_consume,
  retry_after_seconds, register,
}
use custos_core.RateLimiter.Quotas.{WithinQuota, run, run-minute}
use custos_core.RateLimiter.Retry.{is_quota_refusal, retry_after_seconds-eq-none_iff}

abbrev pub quota : QuotaConfig
quota = record { requests_per_minute = 2; requests_per_hour = 5; tokens_per_minute = 100 }

-- Two requests and 30 tokens in a minute that began at 1000.
abbrev busy : QuotaState
busy = record {
  minute_count = 2;
  hour_count = 2;
  token_count = 30;
  minute_window_start = 1000;
  hour_window_start = 1000;
}

busy-check : (check quota 10 2000 busy).0 ≡ minute_exceeded
unfolding check judge
busy-check = refl

busy-WithinQuota : WithinQuota quota busy
busy-WithinQuota = record { minutes = omega arith; hours = omega arith; tokens = omega arith }

run-minute_example :
    ((run quota ((10, 2000) ∷ (20, 3000) ∷ []) busy).requests + 2 ≤ 2)
    × ((run quota ((10, 2000) ∷ (20, 3000) ∷ []) busy).tokens + 30 ≤ 100)
run-minute_example =
    run-minute quota ((10, 2000) ∷ (20, 3000) ∷ []) busy busy-WithinQuota
      (omega arith, (omega arith, tt))

retry_after_seconds-eq-none_iff_example :
    (retry_after_seconds "acme" 10 2000 (register "acme" quota 1000 empty_limiter) ≡ none) ↔ (
      is_quota_refusal
        (check_and_consume "acme" 10 2000 (register "acme" quota 1000 empty_limiter)).0
      ≡ false)
retry_after_seconds-eq-none_iff_example =
    retry_after_seconds-eq-none_iff "acme" 10 2000 (register "acme" quota 1000 empty_limiter)
