-- ===== src/Service.antt =====
-- main.py: what the handlers of /v1/evaluate and /v1/evaluate_action share: requests, replies, the counters of
-- /metrics, and the state over the tenants, the validator, the limiters, the engines, the action gate and the
-- recording of decisions. The subject of the token, the trace id of the span and the salt are arguments.
pub mod Evaluate
pub mod Actions
pub mod Accounting
pub mod Recording
pub mod Answered
pub mod Production
pub mod Isolation
use Prim.Native.String
use custos_core.Common.{
  ℕ, ◌+◌, String, Bool, false, not, Option, none, some, List, [], ◌∷◌, str_eq, Result, ok, err,
  if◌then◌else◌,
}
use custos_core.Common.Dict.{Dict, lookup, insert}
use custos_core.Audit.Record.{AuditRecord, Library, commitment_none}
use custos_core.Audit.Chain.{Entry}
use custos_core.Policy.Rule.{audit, action_value, PolicyResult}
use custos_core.Policy.Citation.{engine_policy_digest}
use custos_core.RateLimiter.{QuotaConfig, RateLimiter, Reason, get_quota}
use custos_core.RateLimiter as RateLimiter
use custos_core.ActionGate.{AnyEngine, engine_kind, inner, pin_of, ActionGate}
use custos_core.ActionGate.Evaluate.{Env}
use custos_core.Retention.{ContentStore, ContentError}
use custos_core.Retention.Decision.{Retention, record_decision}
use custos_core.Tenant.{Context, TenantManager}

-- The counters of `_metrics` that the two handlers move.
pub record Metrics : Type 0 where
  pub requests_total : ℕ
  pub requests_allowed : ℕ
  pub requests_denied : ℕ
  pub requests_audited : ℕ
  pub rate_limit_hits : ℕ
  pub refused_invalid_request : ℕ
  pub refused_unknown_tenant : ℕ
  pub refused_rate_limited : ℕ
  pub decisions_unrecorded : ℕ

-- The globals of the process, the audit table, and the content store of each tenant.
pub record Service : Type 0 where
  pub manager : TenantManager
  pub gate : ActionGate
  pub rows : List AuditRecord
  pub stores : Dict ContentStore
  pub metrics : Metrics

-- What a request meets. `engine_raises` says whether an engine ends in an exception on a content instead of a
-- result; the handler of /v1/evaluate does not catch it.
pub record Meeting : Type 0 where
  pub env : Env
  pub strip : String → String
  pub reason_text : Reason → String
  pub now : ℕ
  pub trace_id : String
  pub salt : String
  pub retention : Retention
  pub engine_raises : AnyEngine → String → Bool

pub record EvaluateRequest : Type 0 where
  pub client_id : String
  pub tenant_id : String
  pub content : String
  pub token_count : ℕ

pub record EvaluateResponse : Type 0 where
  pub allowed : Bool
  pub action : String
  pub triggered_rule : Option String
  pub reason : String
  pub client_id : String
  pub tenant_id : String
  pub audit_record_hash : Option String
  pub trace_id : String

-- A response, a refusal with its status and its Retry-After, or an exception.
pub data Reply : Type 0 where
  answered : EvaluateResponse → Reply
  refused : (status : ℕ) → (retry_after : Option ℕ) → Reply
  raised : ContentError → Reply
  engine_error : Reply

-- `content_engine_digest`
unfoldable pub content_engine_digest : Library → Option String → AnyEngine → Option String
content_engine_digest lib pin engine =
    engine_policy_digest lib [] (inner engine).rules (engine_kind engine) (pin_of engine pin)

abbrev pub rate_key_of : EvaluateRequest → String
rate_key_of req =
    if not (str_eq req.tenant_id "default")
    then String.◌++◌ req.tenant_id (String.◌++◌ ":" req.client_id)
    else req.client_id

abbrev pub fallback_quota : QuotaConfig
fallback_quota = record {
  requests_per_minute = 60;
  requests_per_hour = 1000;
  tokens_per_minute = 100000;
}

-- A key that has no quota inherits that of its tenant.
unfoldable pub ensure_quota : String → String → ℕ → RateLimiter → RateLimiter
ensure_quota tenant key now l = elim (get_quota key l) [
  | some quota ↦ l
  | none ↦
      RateLimiter.register key
        (elim (get_quota tenant l) [ none ↦ fallback_quota | some quota ↦ quota ]) now l
]

-- The arguments of `_record_decision`.
abbrev pub decision_entry :
    Meeting
    → EvaluateRequest
    → AnyEngine
    → (action reason : String) → (rule : Option String) → Entry
decision_entry m req engine action reason rule = record {
  client_id = req.client_id;
  action = action;
  reason = reason;
  content = req.content;
  triggered_rule = rule;
  trace_id = some m.trace_id;
  policy_digest = content_engine_digest m.env.lib m.env.env_pin engine;
  tenant_id = none;
  commitment = commitment_none;
}

abbrev pub store_of : String → Service → ContentStore
store_of tenant s = elim (lookup tenant s.stores) [
  | none ↦ record { bodies = []; purges = [] }
  | some store ↦ store
]

abbrev pub put_context : String → Context → TenantManager → TenantManager
put_context tenant ctx m = record m { tenants = insert tenant ctx m.tenants }

-- `_record_decision` for a tenant, whose context is written back.
unfoldable pub record_for :
    Meeting → String → Context → Entry → Service → Result ContentError AuditRecord × Service
record_for m tenant ctx e s =
    let (r, l) =
      record_decision m.env.lib m.env.moment m.salt m.retention e
        (record { chain = ctx.audit_chain; rows = s.rows; store = store_of tenant s }) in
    (
      r,
      record s {
        manager = put_context tenant (record ctx { audit_chain = l.chain }) s.manager;
        rows = l.rows;
        stores = insert tenant l.store s.stores;
      },
    )

abbrev pub count_outcome : PolicyResult → Metrics → Metrics
count_outcome d c =
    if d.allowed
    then if str_eq (action_value d.action) "audit"
      then record c { requests_audited = c.requests_audited + 1 }
      else record c { requests_allowed = c.requests_allowed + 1 }
    else record c { requests_denied = c.requests_denied + 1 }

abbrev pub response_of : Meeting → EvaluateRequest → PolicyResult → AuditRecord → EvaluateResponse
response_of m req d r = record {
  allowed = d.allowed;
  action = action_value d.action;
  triggered_rule = d.triggered_rule;
  reason = d.reason;
  client_id = req.client_id;
  tenant_id = req.tenant_id;
  audit_record_hash = some r.record_hash;
  trace_id = m.trace_id;
}

abbrev pub answer :
    (AuditRecord → Reply) → Result ContentError AuditRecord × Service → Reply × Service
answer reply (ok r, s) = (reply r, s)
answer reply (err e, s) = (raised e, s)

abbrev pub other_subject : Option String → String → Bool
other_subject none client = false
other_subject (some subject) client = not (str_eq subject client)
