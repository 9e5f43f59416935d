-- ===== src/Firewall.antt =====
-- custos/firewall.py: ExecutionFirewall.enforce, which validates, limits, decides, forwards and records. The
-- texts of reasons are functions of what they report; the tracer gives a trace id or none.
pub mod Enforced
pub mod Unbound
use custos_core.Common.{
  ℕ, String, Bool, true, false, not, Option, none, some, List, [], is_truthy, or_else, Result, ok,
  err, if◌then◌else◌,
}
use custos_core.Audit.Record.{AuditRecord, AuditError, Library, commitment_none}
use custos_core.Audit.Chain.{Chain, Entry, Moment, record_entry}
use custos_core.Policy.Rule.{PolicyResult, action_value}
use custos_core.ActionGate.{AnyEngine}
use custos_core.ActionGate.Evaluate.{Env, engine_evaluate}
use custos_core.RateLimiter.{RateLimiter, Reason, is_admitted, check_and_consume}
use custos_core.Execution.Target.{Net}
use custos_core.Execution.{
  HttpExecutionAdapter, ExecutionResult, ForwardError, Forwarded, Request, forward,
}
use custos_core.Validation.{text, integer, ValidationError, ValidationResult, validate_request}

-- The objects that the firewall is built on; the tables of the chain are one table of rows.
pub record ExecutionFirewall : Type 0 where
  pub engine : AnyEngine
  pub limiter : RateLimiter
  pub chain : Chain
  pub rows : List AuditRecord
  pub adapter : HttpExecutionAdapter

-- The texts that the reasons are made of.
pub record Messages : Type 0 where
  pub invalid : Option ValidationError → String
  pub limited : Reason → String
  pub sent_to : String → Option ℕ → String
  pub failed_with : Option ForwardError → String

-- What a call meets: the functions of the language, the engine's surroundings, the network, and the clock.
pub record Surroundings : Type 0 where
  pub env : Env
  pub net : Net
  pub strip : String → String
  pub messages : Messages
  pub now : ℕ

-- The arguments of `enforce`, and the trace id of its span. The target is that of `request`.
pub record Call : Type 0 where
  pub client_id : String
  pub content : String
  pub token_count : ℕ
  pub request : Request
  pub rate_key : Option String
  pub trace_id : Option String

pub record FirewallResult : Type 0 where
  pub allowed : Bool
  pub action : String
  pub triggered_rule : Option String
  pub reason : String
  pub forwarded : Bool
  pub status_code : Option ℕ
  pub response_preview : Option String
  pub circuit_open : Bool
  pub audit_record_hash : Option String
  pub trace_id : Option String

-- The result or the exception, the address that was connected to, and the firewall after.
pub record Outcome : Type 0 where
  pub result : Result AuditError FirewallResult
  pub connected : Option String
  pub firewall : ExecutionFirewall

-- The arguments of every `self._audit.record(…)`.
abbrev pub entry_of : Call → (action reason : String) → (rule : Option String) → Entry
entry_of c action reason rule = record {
  client_id = c.client_id;
  action = action;
  reason = reason;
  content = c.content;
  triggered_rule = rule;
  trace_id = c.trace_id;
  policy_digest = none;
  tenant_id = none;
  commitment = commitment_none;
}

-- A result that was not forwarded.
abbrev pub blocked : Call → (action reason : String) → (rule hash : Option String) → FirewallResult
blocked c action reason rule hash = record {
  allowed = false;
  action = action;
  triggered_rule = rule;
  reason = reason;
  forwarded = false;
  status_code = none;
  response_preview = none;
  circuit_open = false;
  audit_record_hash = hash;
  trace_id = c.trace_id;
}

abbrev pub with_hash :
    (String → FirewallResult) → Result AuditError AuditRecord → Result AuditError FirewallResult
with_hash make (ok r) = ok (make r.record_hash)
with_hash make (err e) = err e

-- `audit_entry = self._audit.record(…)`, and the return that reads its hash.
unfoldable pub record_then :
    Library
    → Moment
    → Entry
    → (String → FirewallResult)
    → (connected : Option String) → ExecutionFirewall
    → Outcome
record_then lib m e make connected f =
    let (r, c, rows) = record_entry lib m e f.chain f.rows in
    record {
      result = with_hash make r;
      connected = connected;
      firewall = record f { chain = c; rows = rows };
    }

-- The action and the reason of the record of a forward.
abbrev pub audit_action : ExecutionResult → String
audit_action x =
    if x.forwarded then "forwarded" else if x.circuit_open then "circuit_open" else "forward_failed"

abbrev pub audit_reason : Messages → Request → ExecutionResult → String
audit_reason texts r x =
    if x.forwarded
    then texts.sent_to r.url_text x.status_code
    else if x.circuit_open
    then "Circuit breaker open, request not forwarded"
    else texts.failed_with x.error

abbrev pub forwarded_result :
    Call → PolicyResult → Messages → ExecutionResult → String → FirewallResult
forwarded_result c decision texts x hash = record {
  allowed = true;
  action = if not x.forwarded then audit_action x else action_value decision.action;
  triggered_rule = decision.triggered_rule;
  reason = if not x.forwarded then audit_reason texts c.request x else decision.reason;
  forwarded = x.forwarded;
  status_code = x.status_code;
  response_preview = x.response_body;
  circuit_open = x.circuit_open;
  audit_record_hash = some hash;
  trace_id = c.trace_id;
}

-- Steps 5 and 6: the forward and its record.
unfoldable pub forward_and_record : Surroundings → Call → PolicyResult → ExecutionFirewall → Outcome
forward_and_record s c decision f =
    let sent = forward s.net c.request f.adapter in
    record_then s.env.lib s.env.moment
      (entry_of c (audit_action sent.result) (audit_reason s.messages c.request sent.result)
        decision.triggered_rule)
      (forwarded_result c decision s.messages sent.result) sent.connected
      (record f { adapter = sent.adapter })

-- Step 4: a decision that does not allow is recorded and returned.
unfoldable pub enforce_decision : Surroundings → Call → PolicyResult → ExecutionFirewall → Outcome
enforce_decision s c decision f =
    if not decision.allowed
    then record_then s.env.lib s.env.moment
        (entry_of c (action_value decision.action) decision.reason decision.triggered_rule)
        (λ hash.
          blocked c (action_value decision.action) decision.reason decision.triggered_rule
            (some hash))
        none f
    else forward_and_record s c decision f

-- Steps 2 and 3, for the limiter's answer and the limiter after it.
unfoldable pub enforce_limited :
    Surroundings → Call → Reason × RateLimiter → ExecutionFirewall → Outcome
enforce_limited s c (reason, limiter) f =
    if not (is_admitted reason)
    then record_then s.env.lib s.env.moment
        (entry_of c "rate_limited" (s.messages.limited reason) none)
        (λ hash. blocked c "rate_limited" (s.messages.limited reason) none (some hash)) none
        (record f { limiter = limiter })
    else enforce_decision s c (engine_evaluate s.env f.engine c.content)
        (record f { limiter = limiter })

-- `rate_key or client_id`
abbrev pub key_of : Call → String
key_of c = or_else c.rate_key c.client_id

unfoldable pub enforce : Surroundings → Call → ExecutionFirewall → Outcome
enforce s c f =
    let v = validate_request s.strip (text c.client_id) (text c.content) (integer c.token_count) in
    if not v.valid
    then record {
      result = ok (blocked c "blocked" (s.messages.invalid v.error) none none);
      connected = none;
      firewall = f;
    }
    else enforce_limited s c (check_and_consume (key_of c) c.token_count s.now f.limiter) f
