-- ===== src/Service/Isolation.antt =====
-- main.py: /v1/evaluate touches one tenant.
use custos_core.Common.{
  String, ◌≡◌, ◌≢◌, refl, Option, arith, eq_iff, inl, inr, Bool-cases, Option-cases, Result, ok,
  err,
}
use custos_core.Common.Dict.{lookup, lookup-insert}
use custos_core.Audit.Record.{AuditRecord}
use custos_core.Audit.Chain.{Entry}
use custos_core.RateLimiter.{is_admitted, check_and_consume}
use custos_core.Retention.{ContentError}
use custos_core.Validation.{text, integer, validate_request}
use custos_core.Tenant.{Context, get_strict}
use custos_core.Service.{
  Service, Meeting, EvaluateRequest, Reply, record_for, answer, rate_key_of, ensure_quota,
  other_subject,
}
use custos_core.Service.Evaluate.{
  refuse_limited, record_evaluated, decide_and_record, evaluate_known, evaluate_counted, evaluate,
}

-- Another tenant's context, its stored content and its rules, before and after.
abbrev Untouched : String → Service → Service → Type 0
Untouched u s s' =
    (get_strict u s'.manager ≡ get_strict u s.manager)
    × (lookup u s'.stores ≡ lookup u s.stores)
    × (s'.manager.policy_store ≡ s.manager.policy_store)

answer-Untouched :
    (u : String) (s : Service) (reply : AuditRecord → Reply)
    (out : Result ContentError AuditRecord × Service)
    → Untouched u s out.1
    → Untouched u s (answer reply out).1
answer-Untouched u s reply (ok r, s') h = h
answer-Untouched u s reply (err e, s') h = h

record_for-Untouched :
    (m : Meeting) (tenant u : String) (ctx : Context) (e : Entry) (s : Service)
    → tenant ≢ u
    → Untouched u s (record_for m tenant ctx e s).1
unfolding record_for get_strict
record_for-Untouched m tenant u ctx e s other = (
  grind (arith, lookup-insert, eq_iff tenant u),
  grind (arith, lookup-insert, eq_iff tenant u),
  refl,
)

module _ (m : Meeting) (req : EvaluateRequest) (u : String) where
  decided-Untouched :
      (ctx : Context) (s : Service)
      → req.tenant_id ≢ u
      → Untouched u s (decide_and_record m req ctx s).1
  unfolding decide_and_record record_evaluated get_strict
  decided-Untouched ctx s other =
      elim (Bool-cases (m.engine_raises ctx.policy_engine req.content)) [
        | inl fails ↦
            rw (decide_and_record, fails)
              (grind (arith, lookup-insert, eq_iff req.tenant_id u), refl, refl)
        | inr returns ↦
            rw (decide_and_record, returns)
              (answer-Untouched u s _ _ (record_for-Untouched m req.tenant_id u ctx _ _ other))
      ]

  known-Untouched :
      (ctx : Context) (s : Service)
      → req.tenant_id ≢ u
      → Untouched u s (evaluate_known m req ctx s).1
  unfolding evaluate_known refuse_limited get_strict
  known-Untouched ctx s other =
      let out =
        check_and_consume (rate_key_of req) req.token_count m.now
          (ensure_quota req.tenant_id (rate_key_of req) m.now ctx.rate_limiter) in
      let ctx' : Context = record ctx { rate_limiter = out.1 } in
      elim (Bool-cases (is_admitted out.0)) [
        | inl passed ↦ rw (evaluate_known, passed) (decided-Untouched ctx' s other)
        | inr past ↦
            rw (evaluate_known, past)
              (answer-Untouched u s _ _ (record_for-Untouched m req.tenant_id u ctx' _ _ other))
      ]

  -- A call of /v1/evaluate for one tenant leaves the context of every other tenant, its engine, its limiter
  -- and its chain, the content stored for it and the stored rules as they were, whatever it ends in.
  pub evaluate-Untouched :
      (subject : Option String) (s : Service)
      → req.tenant_id ≢ u
      → let s' = (evaluate m subject req s).1 in
        (get_strict u s'.manager ≡ get_strict u s.manager)
        × (lookup u s'.stores ≡ lookup u s.stores)
        × (s'.manager.policy_store ≡ s.manager.policy_store)
  unfolding evaluate evaluate_counted get_strict
  evaluate-Untouched subject s other = elim (Bool-cases (other_subject subject req.client_id)) [
    | inl another ↦ rw (evaluate, another) (refl, refl, refl)
    | inr own ↦
        elim (Bool-cases
          (validate_request m.strip (text req.client_id) (text req.content)
            (integer req.token_count)).valid) [
              | inr bad ↦ rw (evaluate, own, bad) (refl, refl, refl)
              | inl good ↦ elim (Option-cases (get_strict req.tenant_id s.manager)) [
                | inl unknown_one ↦ rw (evaluate, own, good, unknown_one) (refl, refl, refl)
                | inr (ctx, known) ↦ rw (evaluate, own, good, known) (known-Untouched ctx _ other)
              ]
            ]
  ]
