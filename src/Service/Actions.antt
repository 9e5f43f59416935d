-- ===== src/Service/Actions.antt =====
-- main.py: the handler of /v1/evaluate_action.
use custos_core.Common.{◌+◌, String, Bool, Option, none, some, [], ◌∷◌, if◌then◌else◌}
use custos_core.Common.Dict.{Dict, lookup}
use custos_core.Policy.Rule.{action_value}
use custos_core.ActionGate.{ActionRequest, TenantContext}
use custos_core.ActionGate.Evaluate.{World}
use custos_core.ActionGate.Evaluate as Gate
use custos_core.Tenant.{Context}
use custos_core.Service.{Metrics, Service, Meeting, Reply, other_subject, answered, refused}

-- What the action gate reads of the tenants, and what it leaves in them.
abbrev pub gate_view : Dict Context → Dict TenantContext
gate_view [] = []
gate_view ((k, ctx) ∷ d) =
    (k, record { policy_engine = ctx.policy_engine; audit_chain = ctx.audit_chain }) ∷ gate_view d

abbrev pub gate_back : Dict TenantContext → Dict Context → Dict Context
gate_back seen [] = []
gate_back seen ((k, ctx) ∷ d) =
    (
      k,
      elim (lookup k seen) [
        | none ↦ ctx
        | some t ↦ record ctx { policy_engine = t.policy_engine; audit_chain = t.audit_chain }
      ],
    )
    ∷ gate_back seen d

abbrev pub count_gate : Bool → Metrics → Metrics
count_gate allowed c =
    if allowed
    then record c { requests_allowed = c.requests_allowed + 1 }
    else record c { requests_denied = c.requests_denied + 1 }

abbrev pub world_of : Service → World
world_of s = record { gate = s.gate; tenants = gate_view s.manager.tenants; rows = s.rows }

-- POST /v1/evaluate_action; the gate is called without the trace id of the span.
unfoldable pub evaluate_action :
    Meeting → Option String → (client tenant : String) → ActionRequest → Service → Reply × Service
evaluate_action m subject client tenant action s =
    if other_subject subject client
    then (refused 403 none, s)
    else let (out, w) = Gate.evaluate_action m.env tenant action client none (world_of s) in
      (
        answered (record {
          allowed = out.decision.allowed;
          action = action_value out.decision.action;
          triggered_rule = out.decision.triggered_rule;
          reason = out.decision.reason;
          client_id = client;
          tenant_id = tenant;
          audit_record_hash = out.audit_record_hash;
          trace_id = m.trace_id;
        }),
        record s {
          manager = record s.manager { tenants = gate_back w.tenants s.manager.tenants };
          gate = w.gate;
          rows = w.rows;
          metrics = count_gate out.decision.allowed s.metrics;
        },
      )
