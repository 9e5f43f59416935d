-- ===== src/RateLimiter.antt =====
-- custos/rate_limiter.py: per-client quotas over a minute and an hour. Times are milliseconds of the
-- clock; a clock that runs backwards gives a difference below zero, which is 0 here and passes the same
-- tests. `tokens` is a natural number, which the validation of requests makes it.
pub mod Quotas
pub mod Retry
pub mod Isolation
use custos_core.Common.{
  ℕ, ◌+◌, ◌-◌, ◌/◌, String, Bool, true, false, Option, none, some, List, [], ◌∷◌, leb, ltb, ◌==◌,
  if◌then◌else◌,
}
use custos_core.Common.Dict.{Dict, lookup, insert, erase, keys}

pub record QuotaConfig : Type 0 where
  pub requests_per_minute : ℕ
  pub requests_per_hour : ℕ
  pub tokens_per_minute : ℕ

pub record QuotaState : Type 0 where
  pub minute_count : ℕ
  pub hour_count : ℕ
  pub token_count : ℕ
  pub minute_window_start : ℕ
  pub hour_window_start : ℕ

pub record RateLimiter : Type 0 where
  pub quotas : Dict QuotaConfig
  pub state : Dict QuotaState

-- The message beside the answer.
pub data Reason : Type 0 where
  unknown_client minute_exceeded hour_exceeded token_exceeded admitted : Reason

abbrev pub minute : ℕ
minute = 60000

abbrev pub hour : ℕ
hour = 3600000

abbrev pub empty_limiter : RateLimiter
empty_limiter = record { quotas = []; state = [] }

abbrev fresh_state : ℕ → QuotaState
fresh_state now = record {
  minute_count = 0;
  hour_count = 0;
  token_count = 0;
  minute_window_start = now;
  hour_window_start = now;
}

unfoldable pub register : String → QuotaConfig → ℕ → RateLimiter → RateLimiter
register client config now l = record {
  quotas = insert client config l.quotas;
  state = insert client (fresh_state now) l.state;
}

-- "Reset minute window", then "Reset hour window".
abbrev pub reset_minute : ℕ → QuotaState → QuotaState
reset_minute now s =
    if leb minute (now - s.minute_window_start)
    then record s { minute_count = 0; token_count = 0; minute_window_start = now }
    else s

abbrev pub reset_hour : ℕ → QuotaState → QuotaState
reset_hour now s =
    if leb hour (now - s.hour_window_start)
    then record s { hour_count = 0; hour_window_start = now }
    else s

abbrev pub consume : ℕ → QuotaState → QuotaState
consume tokens s = record s {
  minute_count = s.minute_count + 1;
  hour_count = s.hour_count + 1;
  token_count = s.token_count + tokens;
}

-- The tests of `check_and_consume` after the resets, and the state that they leave.
unfoldable pub judge : QuotaConfig → ℕ → QuotaState → Reason × QuotaState
judge c tokens s =
    if leb c.requests_per_minute s.minute_count
    then (minute_exceeded, s)
    else if leb c.requests_per_hour s.hour_count
    then (hour_exceeded, s)
    else if ltb c.tokens_per_minute (s.token_count + tokens)
    then (token_exceeded, s)
    else (admitted, consume tokens s)

unfoldable pub check : QuotaConfig → ℕ → ℕ → QuotaState → Reason × QuotaState
check c tokens now s = judge c tokens (reset_hour now (reset_minute now s))

-- `check_and_consume`. The two dictionaries have the same keys; a client with a quota and no state would
-- be a KeyError, which does not arise.
unfoldable pub check_and_consume : String → ℕ → ℕ → RateLimiter → Reason × RateLimiter
check_and_consume client tokens now l = elim (lookup client l.quotas) [
  | none ↦ (unknown_client, l)
  | some c ↦ elim (lookup client l.state) [
    | none ↦ (unknown_client, l)
    | some s ↦
        let (reason, s') = check c tokens now s in
        (reason, record l { state = insert client s' l.state })
  ]
]

abbrev pub is_admitted : Reason → Bool
is_admitted admitted = true
is_admitted _ = false

-- What is left of a window that began at `start`; 0 once it has elapsed.
abbrev pub left : ℕ → ℕ → ℕ → ℕ
left window now start = window + start - now

-- `max(1, math.ceil(…))`, in seconds.
abbrev pub seconds : ℕ → ℕ
seconds ms = let s = (ms + 999) / 1000 in if leb s 1 then 1 else s

abbrev unless_elapsed : ℕ → ℕ → ℕ
unless_elapsed window_left count = if window_left == 0 then 0 else count

-- The tests of `retry_after_seconds`.
unfoldable pub wait : QuotaConfig → ℕ → ℕ → QuotaState → Option ℕ
wait c tokens now s =
    let minute_left = left minute now s.minute_window_start in
    let hour_left = left hour now s.hour_window_start in
    if leb c.requests_per_minute (unless_elapsed minute_left s.minute_count)
    then some (seconds minute_left)
    else if leb c.requests_per_hour (unless_elapsed hour_left s.hour_count)
    then some (seconds hour_left)
    else if ltb c.tokens_per_minute (unless_elapsed minute_left s.token_count + tokens)
    then some (seconds minute_left)
    else none

unfoldable pub retry_after_seconds : String → ℕ → ℕ → RateLimiter → Option ℕ
retry_after_seconds client tokens now l = elim (lookup client l.quotas) [
  | none ↦ none
  | some c ↦ elim (lookup client l.state) [ none ↦ none | some s ↦ wait c tokens now s ]
]

unfoldable pub get_quota : String → RateLimiter → Option QuotaConfig
get_quota client l = lookup client l.quotas

-- An entry of `get_all_quotas`: the key, its quota and its state.
abbrev pub QuotaView : Type 0
QuotaView = String × QuotaConfig × QuotaState

views : List (String × QuotaConfig) → RateLimiter → List QuotaView
views [] l = []
views ((client, config) ∷ quotas) l =
    let rest = views quotas l in
    elim (lookup client l.state) [ none ↦ rest | some s ↦ (client, config, s) ∷ rest ]

pub get_all_quotas : RateLimiter → List QuotaView
unfolding views
get_all_quotas l = views l.quotas l

unfoldable pub unregister : String → RateLimiter → RateLimiter × Bool
unregister client l = elim (lookup client l.quotas) [
  | none ↦ (l, false)
  | some _ ↦ (record { quotas = erase client l.quotas; state = erase client l.state }, true)
]
