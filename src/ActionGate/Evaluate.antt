-- ===== src/ActionGate/Evaluate.antt =====
-- custos/action_gate.py: `evaluate_action`, `record_reconciliation`, and the adapter for the proxy.
use custos_core.Common.{
  String, Bool, true, false, not, Option, none, some, List, [], ◌∷◌, contains, ok, err, Result,
  if◌then◌else◌,
}
use custos_core.Common.Dict.{Dict, lookup, insert}
use custos_core.Audit.Record.{AuditRecord, AuditError, Library, commitment_none}
use custos_core.Audit.Chain.{Entry, Moment, record_entry, append_reconciliation}
use custos_core.Policy.Rule.{PolicyAction, allow, deny, action_value, PolicyResult, Search}
use custos_core.Policy.Engine.{evaluate}
use custos_core.Policy.Opa.{Reply, opa_evaluate, hybrid_evaluate}
use custos_core.ActionGate.{
  ActionRequest, serialize, AnyEngine, regex, opa, hybrid, TenantContext, ActionGate, list_tools,
  cited_policy_digest, maybe_anchor_policy_commit,
}

-- A row of _DANGEROUS_COMMAND_RULES.
pub record Danger : Type 0 where
  pub rule_name : String
  pub pattern : String
  pub reason : String

-- What an evaluation meets: the functions of the language, the table of dangerous commands, the reply of
-- the OPA server, the operator's pin, the time of an anchor, and what the chain meets.
pub record Env : Type 0 where
  pub lib : Library
  pub search : Search
  pub dangers : List Danger
  pub reply : Reply
  pub env_pin : Option String
  pub utc : String
  pub moment : Moment

-- The gate, the tenants of its manager, and the table of all chains.
pub record World : Type 0 where
  pub gate : ActionGate
  pub tenants : Dict TenantContext
  pub rows : List AuditRecord

pub record ActionGateResult : Type 0 where
  pub decision : PolicyResult
  pub audit_record_hash : Option String

-- `_deny`
abbrev pub deny_by : String → String → PolicyResult
deny_by rule reason = record {
  allowed = false;
  action = deny;
  triggered_rule = some rule;
  reason = reason;
}

-- `evaluate` of the three engines.
unfoldable pub engine_evaluate : Env → AnyEngine → String → PolicyResult
engine_evaluate env (regex e) content = evaluate env.search e.rules content
engine_evaluate env (opa e) content = opa_evaluate env.search e.rules env.reply content
engine_evaluate env (hybrid e) content = hybrid_evaluate env.search e.rules env.reply content

-- The first dangerous class that the action matches.
unfoldable pub danger_of : Search → List Danger → String → Option Danger
danger_of search [] blob = none
danger_of search (d ∷ ds) blob =
    let rest = danger_of search ds blob in
    elim (search d.pattern blob) [ none ↦ rest | some _ ↦ some d ]

-- The decision, before it is recorded.
unfoldable pub decide : Env → ActionRequest → List String → AnyEngine → PolicyResult
unfolding danger_of
decide env action tools engine =
    if not (contains tools action.tool)
    then deny_by "action_gate_tool_not_allowlisted" "Tool is not in the tenant's allowlist."
    else elim (danger_of env.search env.dangers (serialize action)) [
      | some d ↦ deny_by d.rule_name d.reason
      | none ↦ engine_evaluate env engine (serialize action)
    ]

-- The arguments of `_record`.
abbrev pub entry_of :
    (tenant client : String)
    → Option String
    → PolicyResult
    → (blob : String) → Option String
    → Entry
entry_of tenant client trace decision blob digest = record {
  client_id = client;
  action = action_value decision.action;
  reason = decision.reason;
  content = blob;
  triggered_rule = decision.triggered_rule;
  trace_id = trace;
  policy_digest = digest;
  tenant_id = some tenant;
  commitment = commitment_none;
}

-- `_unrecordable`
abbrev pub unrecordable : PolicyResult
unrecordable =
    deny_by "action_gate_record_unwritable"
      "The decision could not be recorded, so the allow does not stand."

-- What is returned once the record is written or refused.
unfoldable pub close_decision : PolicyResult → Result AuditError AuditRecord → ActionGateResult
close_decision decision (ok r) = record {
  decision = decision;
  audit_record_hash = some r.record_hash;
}
close_decision decision (err e) = record {
  decision = if decision.allowed then unrecordable else decision;
  audit_record_hash = none;
}

abbrev pub unknown_tenant : ActionGateResult
unknown_tenant = record {
  decision = deny_by "action_gate_unknown_tenant" "Unknown tenant, fail-closed.";
  audit_record_hash = none;
}

-- The evaluation for a tenant that the manager knows.
unfoldable pub evaluate_known :
    Env
    → String
    → ActionRequest
    → String
    → Option String
    → TenantContext
    → World
    → ActionGateResult × World
evaluate_known env tenant action client trace ctx w =
    let (digest, ctx', g) = cited_policy_digest env.lib env.env_pin tenant ctx w.gate in
    let g' = maybe_anchor_policy_commit env.lib env.env_pin env.utc tenant ctx' digest g in
    let decision = decide env action (list_tools tenant g') ctx'.policy_engine in
    let (written, chain, rows) =
      record_entry env.lib env.moment
        (entry_of tenant client trace decision (serialize action) digest) ctx'.audit_chain w.rows in
    (
      close_decision decision written,
      record {
        gate = g';
        tenants = insert tenant (record ctx' { audit_chain = chain }) w.tenants;
        rows = rows;
      },
    )

-- `evaluate_action`
unfoldable pub evaluate_action :
    Env → String → ActionRequest → String → Option String → World → ActionGateResult × World
evaluate_action env tenant action client trace w = elim (lookup tenant w.tenants) [
  | none ↦ (unknown_tenant, w)
  | some ctx ↦ evaluate_known env tenant action client trace ctx w
]

abbrev is_allow : PolicyAction → Bool
is_allow allow = true
is_allow _ = false

-- `CustosGateAdapter.evaluate`: what `allowed` of its verdict is.
unfoldable pub adapter_allows : ActionGateResult → Bool
adapter_allows r = is_allow r.decision.action

abbrev was_written : Result AuditError AuditRecord → Bool
was_written (ok r) = true
was_written (err e) = false

-- `record_reconciliation`: a denial made outside the gate, recorded with the policy in force.
unfoldable pub record_reconciliation :
    Env → (tenant client trace rule reason content : String) → World → Bool × World
record_reconciliation env tenant client trace rule reason content w =
    elim (lookup tenant w.tenants) [
      | none ↦ (false, w)
      | some ctx ↦
          let (digest, ctx', g) = cited_policy_digest env.lib env.env_pin tenant ctx w.gate in
          let (written, chain, rows) =
            append_reconciliation env.lib env.moment client trace rule content reason digest
              (some tenant) ctx'.audit_chain w.rows in
          (
            was_written written,
            record {
              gate = g;
              tenants = insert tenant (record ctx' { audit_chain = chain }) w.tenants;
              rows = rows;
            },
          )
    ]
