-- ===== src/Service/Evaluate.antt =====
-- main.py: the handler of /v1/evaluate, and that of a full audit store.
use custos_core.Common.{◌+◌, String, Bool, true, false, not, Option, none, some, if◌then◌else◌}
use custos_core.Audit.Record.{audit_store_full}
use custos_core.Policy.Rule.{action_value}
use custos_core.RateLimiter.{Reason, check_and_consume, is_admitted, retry_after_seconds}
use custos_core.ActionGate.Evaluate.{engine_evaluate}
use custos_core.Validation.{text, integer, validate_request}
use custos_core.Retention.{ContentError, chain_error}
use custos_core.Tenant.{Context, get_strict}
use custos_core.Service.{
  Service, Meeting, EvaluateRequest, Reply, rate_key_of, ensure_quota, decision_entry, record_for,
  count_outcome, response_of, answer, other_subject, answered, refused, raised, engine_error,
  put_context,
}

-- The refusal of a request past its quota, recorded.
unfoldable pub refuse_limited :
    Meeting → EvaluateRequest → Reason → Context → Service → Reply × Service
refuse_limited m req reason ctx s =
    let c = s.metrics in
    let counted = record s {
      metrics = record c {
        rate_limit_hits = c.rate_limit_hits + 1;
        refused_rate_limited = c.refused_rate_limited + 1;
      };
    } in
    let wait = retry_after_seconds (rate_key_of req) req.token_count m.now ctx.rate_limiter in
    answer (λ r. refused 429 wait)
      (record_for m req.tenant_id ctx
        (decision_entry m req ctx.policy_engine "rate_limited" (m.reason_text reason) none) counted)

-- What follows the decision of an admitted request, which is counted and recorded.
unfoldable pub record_evaluated : Meeting → EvaluateRequest → Context → Service → Reply × Service
record_evaluated m req ctx s =
    let d = engine_evaluate m.env ctx.policy_engine req.content in
    answer (λ r. answered (response_of m req d r))
      (record_for m req.tenant_id ctx
        (decision_entry m req ctx.policy_engine (action_value d.action) d.reason d.triggered_rule)
        (record s { metrics = count_outcome d s.metrics }))

-- The decision of an admitted request. An engine that raises (`re.error` on the pattern of a rule, a body of the
-- OPA server that is no object) ends the handler: the total and the limiter have moved, nothing else has.
unfoldable pub decide_and_record : Meeting → EvaluateRequest → Context → Service → Reply × Service
decide_and_record m req ctx s =
    if m.engine_raises ctx.policy_engine req.content
    then (engine_error, record s { manager = put_context req.tenant_id ctx s.manager })
    else record_evaluated m req ctx s

-- From the limiter on, for a tenant that is known.
unfoldable pub evaluate_known : Meeting → EvaluateRequest → Context → Service → Reply × Service
evaluate_known m req ctx s =
    let (reason, limiter) =
      check_and_consume (rate_key_of req) req.token_count m.now
        (ensure_quota req.tenant_id (rate_key_of req) m.now ctx.rate_limiter) in
    let ctx' = record ctx { rate_limiter = limiter } in
    if not (is_admitted reason)
    then refuse_limited m req reason ctx' s
    else decide_and_record m req ctx' s

abbrev pub counted_total : Service → Service
counted_total s = record s {
  metrics = record s.metrics { requests_total = s.metrics.requests_total + 1 };
}

-- After the total is counted.
unfoldable pub evaluate_counted : Meeting → EvaluateRequest → Service → Reply × Service
evaluate_counted m req s =
    let v =
      validate_request m.strip (text req.client_id) (text req.content) (integer req.token_count) in
    if not v.valid
    then (
      refused 422 none,
      record s {
        metrics = record s.metrics {
          refused_invalid_request = s.metrics.refused_invalid_request + 1;
        };
      },
    )
    else elim (get_strict req.tenant_id s.manager) [
      | none ↦ (
        refused 403 none,
        record s {
          metrics = record s.metrics {
            refused_unknown_tenant = s.metrics.refused_unknown_tenant + 1;
          };
        },
      )
      | some ctx ↦ evaluate_known m req ctx s
    ]

-- POST /v1/evaluate
unfoldable pub evaluate : Meeting → Option String → EvaluateRequest → Service → Reply × Service
evaluate m subject req s =
    if other_subject subject req.client_id
    then (refused 403 none, s)
    else evaluate_counted m req (counted_total s)

abbrev pub is_full : ContentError → Bool
is_full (chain_error audit_store_full) = true
is_full _ = false

-- The exception handler of a full audit store, with AUDIT_STORE_FULL_RETRY_AFTER.
unfoldable pub served : Reply × Service → Reply × Service
served (raised e, s) =
    if is_full e
    then (
      refused 503 (some 30),
      record s {
        metrics = record s.metrics { decisions_unrecorded = s.metrics.decisions_unrecorded + 1 };
      },
    )
    else (raised e, s)
served out = out
