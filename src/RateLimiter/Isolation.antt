-- ===== src/RateLimiter/Isolation.antt =====
-- custos/rate_limiter.py: one client's calls are not seen by another, and the two dictionaries keep the
-- same keys.
use custos_core.Common.{ℕ, String, ◌≡◌, ◌≢◌, Option, arith, eq_iff}
use custos_core.Common.Dict.{lookup, has_key, lookup-insert, lookup-erase}
use custos_core.RateLimiter.{
  QuotaConfig, QuotaState, RateLimiter, check_and_consume, register, unregister,
}

-- What a limiter holds of one client.
abbrev pub held : String → RateLimiter → Option QuotaConfig × Option QuotaState
held client l = (lookup client l.quotas, lookup client l.state)

held-check_and_consume :
    (client other : String) (tokens now : ℕ) (l : RateLimiter)
    → client ≢ other
    → held other (check_and_consume client tokens now l).1 ≡ held other l
unfolding check_and_consume
held-check_and_consume client other tokens now l ne = grind (arith, lookup-insert, eq_iff)

held-register :
    (client other : String) (c : QuotaConfig) (now : ℕ) (l : RateLimiter)
    → client ≢ other
    → held other (register client c now l) ≡ held other l
unfolding register
held-register client other c now l ne = grind (arith, lookup-insert, eq_iff)

held-unregister :
    (client other : String) (l : RateLimiter)
    → client ≢ other
    → held other (unregister client l).0 ≡ held other l
unfolding unregister
held-unregister client other l ne = grind (arith, lookup-erase, eq_iff)

-- A check, a registration or a removal of one client leaves the quota and the counters of every other
-- client as they were.
pub held-other :
    (client other : String) (c : QuotaConfig) (tokens now : ℕ) (l : RateLimiter)
    → client ≢ other
    → (held other (check_and_consume client tokens now l).1 ≡ held other l)
      × (held other (register client c now l) ≡ held other l)
      × (held other (unregister client l).0 ≡ held other l)
held-other client other c tokens now l ne = (
  held-check_and_consume client other tokens now l ne,
  held-register client other c now l ne,
  held-unregister client other l ne,
)

-- A client has a quota exactly if it has counters, so that no lookup of its counters can fail.
abbrev pub IsPaired : RateLimiter → Type 0
IsPaired l = (client : String) → has_key client l.quotas ≡ has_key client l.state

check_and_consume-IsPaired :
    (client : String) (tokens now : ℕ) (l : RateLimiter)
    → IsPaired l
    → IsPaired (check_and_consume client tokens now l).1
unfolding check_and_consume
check_and_consume-IsPaired client tokens now l h k =
    grind (arith, h k, h client, lookup-insert, eq_iff client k)

register-IsPaired :
    (client : String) (c : QuotaConfig) (now : ℕ) (l : RateLimiter)
    → IsPaired l
    → IsPaired (register client c now l)
unfolding register
register-IsPaired client c now l h k = grind (arith, h k, lookup-insert, eq_iff client k)

unregister-IsPaired :
    (client : String) (l : RateLimiter) → IsPaired l → IsPaired (unregister client l).0
unfolding unregister
unregister-IsPaired client l h k = grind (arith, h k, lookup-erase, eq_iff client k)

-- The three operations that change the limiter keep the keys of its two dictionaries the same.
pub operations-IsPaired :
    (client : String) (c : QuotaConfig) (tokens now : ℕ) (l : RateLimiter)
    → IsPaired l
    → IsPaired (check_and_consume client tokens now l).1
      × IsPaired (register client c now l)
      × IsPaired (unregister client l).0
operations-IsPaired client c tokens now l h = (
  check_and_consume-IsPaired client tokens now l h,
  register-IsPaired client c now l h,
  unregister-IsPaired client l h,
)
