-- ===== src/Service/Accounting.antt =====
-- main.py: the identity of the counters.
use custos_core.Common.{
  suc, ◌+◌, String, ◌≡◌, refl, Bool, true, false, Option, none, arith, inl, inr, Bool-cases,
  Option-cases, Result, ok, err, str_eq,
}
use custos_core.Audit.Record.{AuditRecord}
use custos_core.Audit.Chain.{Entry}
use custos_core.Policy.Rule.{PolicyResult, action_value}
use custos_core.ActionGate.{ActionRequest}
use custos_core.ActionGate.Evaluate.{engine_evaluate}
use custos_core.ActionGate.Evaluate as Gate
use custos_core.RateLimiter.{Reason, is_admitted, check_and_consume}
use custos_core.Retention.{ContentError}
use custos_core.Validation.{text, integer, validate_request}
use custos_core.Tenant.{Context, get_strict}
use custos_core.Service.{
  Metrics, Service, Meeting, EvaluateRequest, Reply, answered, refused, raised, engine_error,
  record_for, count_outcome, answer, rate_key_of, ensure_quota, other_subject,
}
use custos_core.Service.Evaluate.{
  refuse_limited, record_evaluated, decide_and_record, evaluate_known, counted_total,
  evaluate_counted, evaluate, served, is_full,
}
use custos_core.Service.Actions.{world_of, evaluate_action}

-- The total is the sum of the outcomes and of the refusals before a decision.
abbrev pub Accounted : Metrics → Type 0
Accounted c =
    c.requests_total
    ≡ c.requests_allowed + c.requests_audited + c.requests_denied + c.refused_invalid_request
      + c.refused_unknown_tenant + c.refused_rate_limited

-- The same with one request counted that has no outcome yet.
abbrev Pending : Metrics → Type 0
Pending c =
    c.requests_total
    ≡ suc (
        c.requests_allowed + c.requests_audited + c.requests_denied + c.refused_invalid_request
        + c.refused_unknown_tenant + c.refused_rate_limited)

-- The counters after a call: they add up, unless its engine raised, which leaves a request without an outcome.
abbrev pub Counted : Reply × Service → Type 0
Counted (engine_error, s) = Pending s.metrics
Counted (reply, s) = Accounted s.metrics

abbrev is_engine_error : Reply → Bool
is_engine_error engine_error = true
is_engine_error _ = false

returned-Counted :
    (reply : Reply) (s : Service)
    → is_engine_error reply ≡ false
    → Accounted s.metrics
    → Counted (reply, s)
returned-Counted (answered x) s e h = h
returned-Counted (refused n w) s e h = h
returned-Counted (raised x) s e h = h
returned-Counted engine_error s e h = cc

answer-Counted :
    (reply : AuditRecord → Reply) (out : Result ContentError AuditRecord × Service)
    → ((r : AuditRecord) → is_engine_error (reply r) ≡ false)
    → Accounted out.1.metrics
    → Counted (answer reply out)
answer-Counted reply (ok r, s) e h = returned-Counted (reply r) s (e r) h
answer-Counted reply (err x, s) e h = h

-- Recording moves no counter.
recorded-Counted :
    (m : Meeting) (tenant : String) (ctx : Context) (e : Entry) (reply : AuditRecord → Reply)
    (s : Service)
    → ((r : AuditRecord) → is_engine_error (reply r) ≡ false)
    → Accounted s.metrics
    → Counted (answer reply (record_for m tenant ctx e s))
unfolding record_for
recorded-Counted m tenant ctx e reply s fine h =
    answer-Counted reply (record_for m tenant ctx e s) fine h

count_outcome-Accounted :
    (d : PolicyResult) (c : Metrics) → Pending c → Accounted (count_outcome d c)
count_outcome-Accounted d c h = elim (Bool-cases d.allowed) [
  | inr denied ↦ rw denied (omega (arith, h))
  | inl granted ↦ elim (Bool-cases (str_eq (action_value d.action) "audit")) [
    | inl audited ↦ rw (granted, audited) (omega (arith, h))
    | inr plain ↦ rw (granted, plain) (omega (arith, h))
  ]
]

module _ (m : Meeting) (req : EvaluateRequest) where
  decide-Counted :
      (ctx : Context) (s : Service) → Pending s.metrics → Counted (decide_and_record m req ctx s)
  unfolding decide_and_record record_evaluated
  decide-Counted ctx s h =
      let d = engine_evaluate m.env ctx.policy_engine req.content in
      elim (Bool-cases (m.engine_raises ctx.policy_engine req.content)) [
        | inl fails ↦ rw (decide_and_record, fails) h
        | inr returns ↦
            rw (decide_and_record, returns)
              (recorded-Counted m req.tenant_id ctx _ _
                (record s { metrics = count_outcome d s.metrics }) (λ r. refl)
                (count_outcome-Accounted d s.metrics h))
      ]

  limited-Counted :
      (reason : Reason) (ctx : Context) (s : Service)
      → Pending s.metrics
      → Counted (refuse_limited m req reason ctx s)
  unfolding refuse_limited
  limited-Counted reason ctx s h =
      recorded-Counted m req.tenant_id ctx _ _ _ (λ r. refl) (omega (arith, h))

  known-Counted :
      (ctx : Context) (s : Service) → Pending s.metrics → Counted (evaluate_known m req ctx s)
  unfolding evaluate_known
  known-Counted ctx s h =
      let (reason, limiter) =
        check_and_consume (rate_key_of req) req.token_count m.now
          (ensure_quota req.tenant_id (rate_key_of req) m.now ctx.rate_limiter) in
      let ctx' : Context = record ctx { rate_limiter = limiter } in
      elim (Bool-cases (is_admitted reason)) [
        | inl passed ↦ rw (evaluate_known, passed) (decide-Counted ctx' s h)
        | inr past ↦ rw (evaluate_known, past) (limited-Counted reason ctx' s h)
      ]

  past_total-Counted : (s : Service) → Pending s.metrics → Counted (evaluate_counted m req s)
  unfolding evaluate_counted
  past_total-Counted s h =
      elim (Bool-cases
        (validate_request m.strip (text req.client_id) (text req.content)
          (integer req.token_count)).valid) [
            | inr bad ↦ rw bad (omega (arith, h))
            | inl good ↦ elim (Option-cases (get_strict req.tenant_id s.manager)) [
              | inl unknown_one ↦ rw (good, unknown_one) (omega (arith, h))
              | inr (ctx, known) ↦ rw (good, known) (known-Counted ctx s h)
            ]
          ]

served-Counted : (out : Reply × Service) → Counted out → Counted (served out)
unfolding served
served-Counted (answered r, s) h = h
served-Counted (refused n w, s) h = h
served-Counted (engine_error, s) h = h
served-Counted (raised e, s) h = elim (Bool-cases (is_full e)) [
  | inl full ↦ rw full h
  | inr other ↦ rw other h
]

-- If the counters add up, they do after every call of /v1/evaluate that ends in an answer, a refusal or an
-- exception of the record that it writes: the total is the sum of the allowed, audited and denied decisions and
-- of the three kinds of refusal. If it ends in an exception of the engine, one request is counted in the total
-- and in no outcome.
pub evaluate-Accounted :
    (m : Meeting) (subject : Option String) (req : EvaluateRequest) (s : Service)
    → Accounted s.metrics
    → Counted (served (evaluate m subject req s))
unfolding evaluate
evaluate-Accounted m subject req s h = elim (Bool-cases (other_subject subject req.client_id)) [
  | inl other ↦ served-Counted _ (rw other h)
  | inr own ↦
      served-Counted (evaluate m subject req s)
        (rw (evaluate, own) (past_total-Counted m req (counted_total s) (omega (arith, h))))
]

-- If the counters add up, they do not after a call of /v1/evaluate_action for the client of the token: a
-- decision is counted and the total is not.
pub evaluate_action-unaccounted :
    (m : Meeting) (subject : Option String) (client tenant : String) (action : ActionRequest)
    (s : Service)
    → other_subject subject client ≡ false
    → Accounted s.metrics
    → ¬ Accounted (evaluate_action m subject client tenant action s).1.metrics
unfolding evaluate_action
evaluate_action-unaccounted m subject client tenant action s own h after =
    let out = Gate.evaluate_action m.env tenant action client none (world_of s) in
    elim (Bool-cases out.0.decision.allowed) [
      | inl granted ↦ (let counted = rw (own, granted) at after in omega (arith, h, counted))
      | inr denied ↦ (let counted = rw (own, denied) at after in omega (arith, h, counted))
    ]
