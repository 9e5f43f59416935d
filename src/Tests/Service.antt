-- ===== src/Tests/Service.antt =====
-- The handlers at concrete inputs.
use custos_core.Common.{String, ◌≡◌, refl, false, arith, eq_iff, none, some, [], or_else, ok, true}
use custos_core.Common.Dict.{lookup, insert}
use custos_core.Audit.Record.{compute_record_hash, preimage_fields}
use custos_core.Audit.Store.{save}
use custos_core.Audit.Chain.{
  Chain, record_entry, new_record, resolve_tenant, bound_evidence_required, latest_hash,
}
use custos_core.Policy.Engine.{evaluate as engine_run, scan}
use custos_core.ActionGate.Evaluate.{Env, engine_evaluate}
use custos_core.RateLimiter.{register, get_quota, check_and_consume, check, judge}
use custos_core.Validation.{
  len, byte_size, validate_content, validate_client_id, validate_token_count, validate_request,
}
use custos_core.Retention.Decision.{off, record_in, record_decision}
use custos_core.Tenant.{get_strict}
use custos_core.Service.{
  Metrics, Service, Meeting, EvaluateRequest, EvaluateResponse, Reply, answered, engine_error,
  ensure_quota, record_for,
}
use custos_core.Service.Evaluate.{
  record_evaluated, decide_and_record, evaluate_known, evaluate_counted, evaluate, served,
}
use custos_core.Service.Actions as Actions
use custos_core.Service.{content_engine_digest}
use custos_core.Policy.Citation.{
  engine_policy_digest, engine_citation_bytes, canonical_policy_bytes,
}
use custos_core.Service.Accounting.{Counted, evaluate-Accounted}
use custos_core.Service.Answered.{chain_at, Behind, evaluate-Behind}
use custos_core.Service.Production.{evaluate_action-unrecorded}
use custos_core.Service.Isolation.{evaluate-Untouched}
use custos_core.Replay.{ReplayResult, find_record, replay_by_hash}
use custos_core.Replay.Reproduced.{evaluate-replay}
use custos_core.ActionGate.{regex}
use custos_core.Tests.Toy.{toy, noon}
use custos_core.Tests.ActionGate.{env, engine, gate, read_notes}
use custos_core.Tests.Tenant.{manager}
use custos_core.Tests.Firewall.{same}

abbrev started : Metrics
started = record {
  requests_total = 0;
  requests_allowed = 0;
  requests_denied = 0;
  requests_audited = 0;
  rate_limit_hits = 0;
  refused_invalid_request = 0;
  refused_unknown_tenant = 0;
  refused_rate_limited = 0;
  decisions_unrecorded = 0;
}

abbrev service : Service
service = record { manager = manager; gate = gate; rows = []; stores = []; metrics = started }

abbrev meeting : Meeting
meeting = record {
  env = env;
  strip = same;
  reason_text = λ r. "limited";
  now = 2000;
  trace_id = "t1";
  salt = "s";
  retention = off;
  engine_raises = λ e content. false;
}

abbrev bound_meeting : Meeting
bound_meeting = record meeting {
  env = record env { moment = record noon { require_bound = some "on" } };
}

abbrev hello : EvaluateRequest
hello = record { client_id = "agent"; tenant_id = "default"; content = "hello"; token_count = 3 }

abbrev response_or : Reply → EvaluateResponse → EvaluateResponse
response_or (answered r) d = r
response_or reply d = d

abbrev nothing : EvaluateResponse
nothing = record {
  allowed = false;
  action = "";
  triggered_rule = none;
  reason = "";
  client_id = "";
  tenant_id = "";
  audit_record_hash = none;
  trace_id = "";
}

evaluate-Accounted_example : Counted (served (evaluate meeting none hello service))
evaluate-Accounted_example = evaluate-Accounted meeting none hello service refl

-- The engine raises: the request is in the total, and nowhere else.
abbrev failing : Meeting
failing = record meeting { engine_raises = λ e content. true }

failing-evaluate :
    let (reply, s') = evaluate failing none hello service in
    (reply ≡ engine_error)
    × (s'.metrics.requests_total ≡ 1)
    × (s'.metrics.requests_denied ≡ 0)
    × (s'.rows ≡ [])
unfolding evaluate evaluate_counted evaluate_known decide_and_record ensure_quota get_strict
    validate_request validate_content validate_client_id validate_token_count len byte_size register
    get_quota check_and_consume check judge lookup insert
failing-evaluate = (refl, refl, refl, refl)

evaluate_action-unrecorded_example :
    let (reply, s') =
      Actions.evaluate_action bound_meeting none "agent" "default" read_notes service in
    (x : EvaluateResponse) × (reply ≡ answered x)
    × (x.allowed ≡ false)
    × (x.audit_record_hash ≡ none)
    × (s'.rows ≡ service.rows)
    × (chain_at "default" s' ≡ chain_at "default" service)
unfolding bound_evidence_required
evaluate_action-unrecorded_example =
    evaluate_action-unrecorded bound_meeting none "agent" "default" read_notes service "default"
      refl refl

abbrev reply : EvaluateResponse
reply = response_or (evaluate meeting none hello service).0 nothing

evaluate-Behind_example : Behind meeting hello service (evaluate meeting none hello service).1 reply
unfolding evaluate evaluate_counted evaluate_known decide_and_record record_evaluated record_for
    ensure_quota record_decision record_in get_strict validate_request validate_content
    validate_client_id validate_token_count len byte_size register get_quota check_and_consume check
    judge engine_evaluate engine_run scan record_entry new_record resolve_tenant
    bound_evidence_required compute_record_hash preimage_fields save latest_hash lookup insert
evaluate-Behind_example = evaluate-Behind meeting hello none service reply refl

evaluate-Untouched_example :
    let s' = (evaluate meeting none hello service).1 in
    (get_strict "globex" s'.manager ≡ get_strict "globex" service.manager)
    × (lookup "globex" s'.stores ≡ lookup "globex" service.stores)
    × (s'.manager.policy_store ≡ service.manager.policy_store)
evaluate-Untouched_example =
    evaluate-Untouched meeting hello "globex" none service
      (λ e. ground (arith, eq_iff "default" "globex"))

abbrev after_hash : String
after_hash = or_else reply.audit_record_hash ""

-- The environment of a later moment.
abbrev env_later : Env
env_later = record env { utc = "2026-02-01T00:00:00Z"; moment = record noon { now = 9 } }

evaluate-replay_example :
    (c : Chain) × (chain_at "default" (evaluate meeting none hello service).1 ≡ some c)
    × (y : ReplayResult) × (replay_by_hash toy 9
          (engine_evaluate env_later (regex engine))
          after_hash
          "hello"
          c
        ≡ ok y)
    × (y.decision_matches ≡ true)
unfolding evaluate evaluate_counted evaluate_known decide_and_record record_evaluated record_for
    ensure_quota record_decision record_in get_strict validate_request validate_content
    validate_client_id validate_token_count len byte_size register get_quota check_and_consume check
    judge engine_evaluate engine_run scan record_entry new_record resolve_tenant
    bound_evidence_required compute_record_hash preimage_fields save latest_hash lookup insert
    find_record content_engine_digest engine_policy_digest engine_citation_bytes
    canonical_policy_bytes
evaluate-replay_example =
    evaluate-replay meeting hello none service reply after_hash 9 _ env_later refl refl refl refl
      refl
