-- ===== src/Execution/Circuits.antt =====
-- custos/execution.py: when the circuit of a host is open, and what closes it.
use custos_core.Common.{
  ℕ, suc, ◌+◌, ◌-◌, ◌≤◌, String, ◌≡◌, ap, ◌∙◌, false, ◌&&◌, List, [], ◌∷◌, arith, length, eq_iff,
}
use custos_core.Common.Dict.{lookup-insert}
use custos_core.Execution.{
  CircuitState, HttpExecutionAdapter, phase, can_proceed, circuit_of, put_circuit, can_request,
  record_failure,
}

-- Failures of requests to a host, at the given times.
unfoldable pub fail_all : String → List ℕ → HttpExecutionAdapter → HttpExecutionAdapter
fail_all host [] a = a
fail_all host (t ∷ ts) a = fail_all host ts (record_failure host t a)

abbrev pub last_time : ℕ → List ℕ → ℕ
last_time t [] = t
last_time t (u ∷ ts) = last_time u ts

abbrev counted : CircuitState → ℕ → ℕ → CircuitState
counted c n now = record c { failure_count = c.failure_count + n; last_failure_time = now }

circuit_of-record_failure :
    (host : String) (now : ℕ) (a : HttpExecutionAdapter)
    → circuit_of host (record_failure host now a) ≡ counted (circuit_of host a) 1 now
unfolding record_failure circuit_of
circuit_of-record_failure host now a = grind (arith, lookup-insert, eq_iff host host)

counted-counted : (c : CircuitState) (n t u : ℕ) → counted (counted c 1 t) n u ≡ counted c (suc n) u
counted-counted c n t u =
    let sum : c.failure_count + 1 + n ≡ c.failure_count + suc n = omega arith in
    ap (λ (k : ℕ). record c { failure_count = k; last_failure_time = u }) sum

counted_stops :
    (c : CircuitState) (n t now : ℕ)
    → c.failure_threshold ≤ n
    → now - t ≤ c.reset_timeout
    → can_proceed now (counted c n t) ≡ false
unfolding phase
counted_stops c n t now h late = ground arith

circuit_of-fail_all :
    (host : String) (t : ℕ) (ts : List ℕ) (a : HttpExecutionAdapter)
    → circuit_of host (fail_all host (t ∷ ts) a)
      ≡ counted (circuit_of host a) (suc (length ts)) (last_time t ts)
unfolding fail_all
circuit_of-fail_all host t [] a = circuit_of-record_failure host t a
circuit_of-fail_all host t (u ∷ ts) a =
    circuit_of-fail_all host u ts (record_failure host t a)
    ∙ ap (λ c. counted c (suc (length ts)) (last_time u ts)) (circuit_of-record_failure host t a)
    ∙ counted-counted (circuit_of host a) (suc (length ts)) t (last_time u ts)

-- After at least as many failures in a row as the threshold of a host's circuit, no request to the host
-- passes until more than the reset time has gone by since the last of them, whatever the default circuit
-- says.
pub can_request-fail_all :
    (host : String) (t : ℕ) (ts : List ℕ) (now : ℕ) (a : HttpExecutionAdapter)
    → (circuit_of host a).failure_threshold ≤ suc (length ts)
    → now - last_time t ts ≤ (circuit_of host a).reset_timeout
    → (can_request host now (fail_all host (t ∷ ts) a)).0 ≡ false
unfolding can_request
can_request-fail_all host t ts now a h late =
    let stops =
      ap (can_proceed now) (circuit_of-fail_all host t ts a)
      ∙ counted_stops (circuit_of host a) (suc (length ts)) (last_time t ts) now h late in
    let spent = fail_all host (t ∷ ts) a in
    ap
      (λ b.
        b
        && can_proceed now (circuit_of "default" (put_circuit host (circuit_of host spent) spent)))
      stops
