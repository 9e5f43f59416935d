-- ===== src/RateLimiter/Quotas.antt =====
-- custos/rate_limiter.py: no window admits more than its quota.
use custos_core.Common.{ℕ, ◌+◌, ◌-◌, ◌≤◌, ◌<◌, ◌≡◌, List, [], ◌∷◌, arith, All}
use custos_core.RateLimiter.{QuotaConfig, QuotaState, Reason, admitted, judge, check, minute, hour}

-- The counters are within the quotas.
pub record WithinQuota (c : QuotaConfig) (s : QuotaState) : Type 0 where
  pub minutes : s.minute_count ≤ c.requests_per_minute
  pub hours : s.hour_count ≤ c.requests_per_hour
  pub tokens : s.token_count ≤ c.tokens_per_minute

-- Counters that are within the three quotas are so after every check, whatever the clock says and whether
-- it admits or refuses.
pub check-WithinQuota :
    (c : QuotaConfig) (tokens now : ℕ) (s : QuotaState)
    → WithinQuota c s
    → WithinQuota c (check c tokens now s).1
unfolding check judge
check-WithinQuota c tokens now s h = ground arith

-- A request: its tokens and the time of its check.
abbrev pub Request : Type 0
Request = ℕ × ℕ

-- What a sequence of checks admits: how many requests, and how many tokens.
pub record Tally : Type 0 where
  pub requests : ℕ
  pub tokens : ℕ

abbrev count : Reason → ℕ → Tally → Tally
count admitted tokens t = record { requests = t.requests + 1; tokens = t.tokens + tokens }
count _ tokens t = t

unfoldable pub run : QuotaConfig → List Request → QuotaState → Tally
run c [] s = record { requests = 0; tokens = 0 }
run c ((tokens, now) ∷ rs) s =
    let (reason, s') = check c tokens now s in count reason tokens (run c rs s')

-- One check inside the minute window adds to its counters exactly what it admits.
counts_minute :
    (c : QuotaConfig) (tokens now : ℕ) (s : QuotaState) (t : Tally)
    → now - s.minute_window_start < minute
    → let (reason, s') = check c tokens now s in
      let t' = count reason tokens t in
      (s'.minute_window_start ≡ s.minute_window_start)
      × (t'.requests + s.minute_count ≡ t.requests + s'.minute_count)
      × (t'.tokens + s.token_count ≡ t.tokens + s'.token_count)
unfolding check judge
counts_minute c tokens now s t h = ground arith

counts_hour :
    (c : QuotaConfig) (tokens now : ℕ) (s : QuotaState) (t : Tally)
    → now - s.hour_window_start < hour
    → let (reason, s') = check c tokens now s in
      (s'.hour_window_start ≡ s.hour_window_start)
      × ((count reason tokens t).requests + s.hour_count ≡ t.requests + s'.hour_count)
unfolding check judge
counts_hour c tokens now s t h = ground arith

-- A request that falls into the window that began at `start`.
abbrev pub Inside : ℕ → ℕ → Request → Type 0
Inside window start (tokens, now) = now - start < window

moved :
    (start start' : ℕ) (window : ℕ) (rs : List Request)
    → start' ≡ start
    → All (Inside window start) rs
    → All (Inside window start') rs
moved start start' window rs e h = rw e h

-- However many requests fall into one minute window, and in whatever order, those admitted and their
-- tokens, with what the window had already counted, stay within the quotas of the minute, if the counters
-- were within the quotas before.
pub run-minute :
    (c : QuotaConfig) (rs : List Request) (s : QuotaState)
    → WithinQuota c s
    → All (Inside minute s.minute_window_start) rs
    → ((run c rs s).requests + s.minute_count ≤ c.requests_per_minute)
      × ((run c rs s).tokens + s.token_count ≤ c.tokens_per_minute)
unfolding run
run-minute c [] s w h = (omega arith, omega arith)
run-minute c ((tokens, now) ∷ rs) s w h =
    let (reason, s') = check c tokens now s in
    let (start, requests, spent) = counts_minute c tokens now s (run c rs s') h.0 in
    let (n, t) =
      run-minute c rs s' (check-WithinQuota c tokens now s w)
        (moved s.minute_window_start s'.minute_window_start minute rs start h.1) in
    (omega arith, omega arith)

-- However many requests fall into one hour window, across the minute windows that begin within it, those
-- admitted, with what the window had already counted, stay within the quota of the hour, if the counters
-- were within the quotas before.
pub run-hour :
    (c : QuotaConfig) (rs : List Request) (s : QuotaState)
    → WithinQuota c s
    → All (Inside hour s.hour_window_start) rs
    → (run c rs s).requests + s.hour_count ≤ c.requests_per_hour
unfolding run
run-hour c [] s w h = omega arith
run-hour c ((tokens, now) ∷ rs) s w h =
    let (reason, s') = check c tokens now s in
    let (start, requests) = counts_hour c tokens now s (run c rs s') h.0 in
    let n =
      run-hour c rs s' (check-WithinQuota c tokens now s w)
        (moved s.hour_window_start s'.hour_window_start hour rs start h.1) in
    omega arith
