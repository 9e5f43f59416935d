-- ===== src/Service/Production.antt =====
-- main.py and custos/action_gate.py: /v1/evaluate_action where records have to be bound.
use custos_core.Common.{
  String, ◌≡◌, refl, ap, Bool, true, false, ◌&&◌, Option, none, some, List, [], ◌∷◌, arith, eq_iff,
  str_eq, inl, inr, Bool-cases, Option-cases, Result, ok, err,
}
use custos_core.Common.Dict.{Dict, lookup, lookup-insert}
use custos_core.Audit.Record.{AuditRecord, AuditError}
use custos_core.Audit.Chain.{Chain, Entry, bound_evidence_required}
use custos_core.Audit.Chain.Bound.{record_entry-unbound}
use custos_core.Policy.Rule.{PolicyResult}
use custos_core.ActionGate.{
  ActionRequest, TenantContext, cited_policy_digest, maybe_anchor_policy_commit, list_tools,
  serialize,
}
use custos_core.ActionGate.Evaluate.{
  Env, World, ActionGateResult, close_decision, evaluate_known, evaluate_action, entry_of, decide,
}
use custos_core.Tenant.{Context}
use custos_core.Service.{Service, Meeting, EvaluateResponse, answered, other_subject}
use custos_core.Service.Actions.{world_of, gate_view, gate_back}
use custos_core.Service.Answered.{chain_at}
use custos_core.Service.Actions as Actions

-- A denial without a record.
abbrev Unrecorded : ActionGateResult → Type 0
Unrecorded out = (out.decision.allowed ≡ false) × (out.audit_record_hash ≡ none)

close_decision-Unrecorded :
    (d : PolicyResult) (x : AuditError) (r : Result AuditError AuditRecord)
    → r ≡ err x
    → Unrecorded (close_decision d r)
unfolding close_decision
close_decision-Unrecorded d x (ok r) h = cc
close_decision-Unrecorded d x (err y) h = elim (Bool-cases d.allowed) [
  | inl granted ↦ (rw granted refl, refl)
  | inr denied ↦ (rw denied refl, refl)
]

and_false : (b : Bool) → (b && false) ≡ false
and_false true = refl
and_false false = refl

-- The chain of a tenant, as the gate sees it.
abbrev chain_of : String → Dict TenantContext → Option Chain
chain_of u d = elim (lookup u d) [ none ↦ none | some ctx ↦ some ctx.audit_chain ]

-- What the gate leaves of the chain of a tenant is what the tenant then has.
chain_back :
    (u : String) (seen : Dict TenantContext) (d : Dict Context)
    → chain_of u seen ≡ chain_of u (gate_view d)
    → (elim (lookup u (gate_back seen d)) [ none ↦ none | some ctx ↦ some ctx.audit_chain ])
      ≡ (elim (lookup u d) [ none ↦ none | some ctx ↦ some ctx.audit_chain ])
unfolding lookup
chain_back u seen [] h = refl
chain_back u seen ((k, ctx) ∷ d) h = elim (Bool-cases (str_eq k u)) [
  | inl same ↦
      let key : k ≡ u = (eq_iff k u).0 same in
      elim (Option-cases (lookup u seen)) [
        | inl none_there ↦ ground (arith, same, key, h, none_there)
        | inr (t, there) ↦ ground (arith, same, key, h, there)
      ]
  | inr other ↦ ground (arith, other, h, chain_back u seen d)
]

module _ (env : Env) (tenant : String) (action : ActionRequest) (client : String) where
  -- The entry of a call of the gate that is given no trace.
  abbrev untraced : TenantContext → World → Entry
  untraced ctx w =
      let (digest, ctx', g) = cited_policy_digest env.lib env.env_pin tenant ctx w.gate in
      let g' = maybe_anchor_policy_commit env.lib env.env_pin env.utc tenant ctx' digest g in
      entry_of tenant client none (decide env action (list_tools tenant g') ctx'.policy_engine)
        (serialize action) digest

  known_kept :
      (ctx : TenantContext) (w : World) (u : String)
      → lookup tenant w.tenants ≡ some ctx
      → bound_evidence_required env.lib env.moment ≡ true
      → let w' = (evaluate_known env tenant action client none ctx w).1 in
        (w'.rows ≡ w.rows) × (chain_of u w'.tenants ≡ chain_of u w.tenants)
  unfolding evaluate_known cited_policy_digest
  known_kept ctx w u known bound =
      let (x, raised) =
        record_entry-unbound env.lib env.moment (untraced ctx w) ctx.audit_chain w.rows bound
          (and_false _) in
      rw (evaluate_known, raised) (refl, grind (arith, lookup-insert, eq_iff tenant u))

  gate_kept :
      (w : World) (u : String)
      → bound_evidence_required env.lib env.moment ≡ true
      → let w' = (evaluate_action env tenant action client none w).1 in
        (w'.rows ≡ w.rows) × (chain_of u w'.tenants ≡ chain_of u w.tenants)
  unfolding evaluate_action
  gate_kept w u bound = elim (Option-cases (lookup tenant w.tenants)) [
    | inl unknown_one ↦ rw (evaluate_action, unknown_one) (refl, refl)
    | inr (ctx, known) ↦ rw (evaluate_action, known) (known_kept ctx w u known bound)
  ]

  known-Unrecorded :
      (ctx : TenantContext) (w : World)
      → bound_evidence_required env.lib env.moment ≡ true
      → Unrecorded (evaluate_known env tenant action client none ctx w).0
  unfolding evaluate_known
  known-Unrecorded ctx w bound =
      let (x, raised) = record_entry-unbound env.lib env.moment _ _ w.rows bound (and_false _) in
      close_decision-Unrecorded _ x _
        (ap (λ (o : Result AuditError AuditRecord × Chain × List AuditRecord). o.0) raised)

  gate-Unrecorded :
      (w : World)
      → bound_evidence_required env.lib env.moment ≡ true
      → Unrecorded (evaluate_action env tenant action client none w).0
  unfolding evaluate_action
  gate-Unrecorded w bound = elim (Option-cases (lookup tenant w.tenants)) [
    | inl unknown_one ↦ rw (evaluate_action, unknown_one) (refl, refl)
    | inr (ctx, known) ↦ rw (evaluate_action, known) (known-Unrecorded ctx w bound)
  ]

-- If records have to be bound, as they do in production, /v1/evaluate_action denies every action of the
-- token's client, whatever the allowlist and the decision that the engine returns, and leaves no record of the
-- denial: the answer names none, and the rows of the store and the chain of every tenant are as they were.
pub evaluate_action-unrecorded :
    (m : Meeting) (subject : Option String) (client tenant : String) (action : ActionRequest)
    (s : Service) (u : String)
    → bound_evidence_required m.env.lib m.env.moment ≡ true
    → other_subject subject client ≡ false
    → let (reply, s') = Actions.evaluate_action m subject client tenant action s in
      (x : EvaluateResponse) × (reply ≡ answered x)
      × (x.allowed ≡ false)
      × (x.audit_record_hash ≡ none)
      × (s'.rows ≡ s.rows)
      × (chain_at u s' ≡ chain_at u s)
unfolding Actions.evaluate_action
evaluate_action-unrecorded m subject client tenant action s u bound own =
    let (denied, unrecorded) = gate-Unrecorded m.env tenant action client (world_of s) bound in
    let (rows, chains) = gate_kept m.env tenant action client (world_of s) u bound in
    rw own (_, refl, denied, unrecorded, rows, chain_back u _ s.manager.tenants chains)
