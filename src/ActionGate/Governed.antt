-- ===== src/ActionGate/Governed.antt =====
-- custos/action_gate.py: what an allowed action rests on.
use custos_core.Common.{
  String, ◌++◌, ◌≡◌, refl, sym, ap, subst, ◌∙◌, true, Option, none, some, List, [], ◌∷◌, arith,
  contains, ok, err, Result, Option-cases, inl, inr, eq_iff,
}
use custos_core.Common.Dict.{lookup, insert, lookup-insert}
use custos_core.Audit.Record.{AuditRecord, AuditError, Library}
use custos_core.Audit.Chain.{Chain, Entry, record_entry}
use custos_core.Audit.Chain.Appends.{IsNext}
use custos_core.Audit.Chain.Integrity.{Appends, record_entry-Appends}
use custos_core.Policy.Rule.{PolicyResult}
use custos_core.Policy.Engine.{rules_digest}
use custos_core.ActionGate.{
  ActionRequest, serialize, AnyEngine, regex, opa, hybrid, TenantContext, ActionGate, list_tools,
  fingerprint, cite, cited_policy_digest, maybe_anchor_policy_commit,
}
use custos_core.ActionGate.Evaluate.{
  Env, World, ActionGateResult, engine_evaluate, danger_of, decide, entry_of, close_decision,
  evaluate_known, evaluate_action, unknown_tenant,
}

-- The chain of a tenant.
abbrev pub chain_of : String → World → Option Chain
chain_of tenant w = elim (lookup tenant w.tenants) [ none ↦ none | some ctx ↦ some ctx.audit_chain ]

-- What stands behind an evaluation that allows.
pub record Governed (env : Env) (tenant : String) (action : ActionRequest) (client : String)
    (trace : Option String) (w : World) (out : ActionGateResult × World) : Type 0 where
  pub ctx : TenantContext
  pub r : AuditRecord
  pub known : lookup tenant w.tenants ≡ some ctx
  pub listed : contains (list_tools tenant w.gate) action.tool ≡ true
  pub harmless : danger_of env.search env.dangers (serialize action) ≡ none
  pub decision : out.0.decision ≡ engine_evaluate env ctx.policy_engine (serialize action)
  pub reported : out.0.audit_record_hash ≡ some r.record_hash
  pub recorded :
      IsNext env.lib
        (entry_of tenant client trace out.0.decision
          (serialize action)
          (cited_policy_digest env.lib env.env_pin tenant ctx w.gate).0)
        ctx.audit_chain
        r
  pub grown :
      chain_of tenant out.1
      ≡ some (record ctx.audit_chain { records = ctx.audit_chain.records ++ r ∷ [] })

-- Reading the digest of the rules changes no decision.
engine_evaluate-fingerprint :
    (env : Env) (engine : AnyEngine) (content : String)
    → engine_evaluate env (fingerprint env.lib engine).1 content
      ≡ engine_evaluate env engine content
unfolding engine_evaluate fingerprint
engine_evaluate-fingerprint env (regex e) content = unfold rules_digest in ground arith
engine_evaluate-fingerprint env (opa e) content = refl
engine_evaluate-fingerprint env (hybrid e) content = refl

module _ (lib : Library) (env_pin : Option String) (tenant : String) (ctx : TenantContext) where
  cited-context :
      (g : ActionGate)
      → (cited_policy_digest lib env_pin tenant ctx g).1
        ≡ record ctx { policy_engine = (fingerprint lib ctx.policy_engine).1 }
  unfolding cited_policy_digest
  cited-context g = refl

  cited-list_tools :
      (g : ActionGate)
      → list_tools tenant (cited_policy_digest lib env_pin tenant ctx g).2 ≡ list_tools tenant g
  unfolding cited_policy_digest cite
  cited-list_tools g = ground arith

  anchored-list_tools :
      (utc : String) (digest : Option String) (g : ActionGate)
      → list_tools tenant (maybe_anchor_policy_commit lib env_pin utc tenant ctx digest g)
        ≡ list_tools tenant g
  unfolding maybe_anchor_policy_commit
  anchored-list_tools utc none g = refl
  anchored-list_tools utc (some d) g = ground arith

-- An allowed decision was made by the engine, after the allowlist and the dangerous classes.
decide-allowed :
    (env : Env) (action : ActionRequest) (tools : List String) (engine : AnyEngine)
    → (decide env action tools engine).allowed ≡ true
    → (contains tools action.tool ≡ true)
      × (danger_of env.search env.dangers (serialize action) ≡ none)
      × (decide env action tools engine ≡ engine_evaluate env engine (serialize action))
unfolding decide
decide-allowed env action tools engine h = (ground arith, ground arith, ground arith)

-- A result that allows is the decision that was made, and its record was written.
close_decision-allowed :
    (d : PolicyResult) (written : Result AuditError AuditRecord)
    → (close_decision d written).decision.allowed ≡ true
    → (r : AuditRecord) × (written ≡ ok r)
      × (close_decision d written ≡ record { decision = d; audit_record_hash = some r.record_hash })
unfolding close_decision
close_decision-allowed d (ok r) h = (r, refl, refl)
close_decision-allowed d (err e) h = ground arith

chain_of-insert :
    (tenant : String) (ctx : TenantContext) (w : World) (g : ActionGate) (rows : List AuditRecord)
    → chain_of tenant (record { gate = g; tenants = insert tenant ctx w.tenants; rows = rows })
      ≡ some ctx.audit_chain
chain_of-insert tenant ctx w g rows = grind (arith, lookup-insert, eq_iff tenant tenant)

-- What `record` has done, once it is known that it returned.
Appends-ok :
    (lib : Library) (e : Entry) (c : Chain) (rows : List AuditRecord)
    (out : Result AuditError AuditRecord × Chain × List AuditRecord) (r : AuditRecord)
    → Appends lib e c rows out
    → out.0 ≡ ok r
    → IsNext lib e c r × (out.1 ≡ record c { records = c.records ++ r ∷ [] })
Appends-ok lib e c rows (ok s, c', rows') r (next, grown, after, fresh) h =
    let same : s ≡ r = grind arith in
    (
      subst (IsNext lib e c) same next,
      subst (λ x. c' ≡ record c { records = c.records ++ x ∷ [] }) same grown,
    )
Appends-ok lib e c rows (err x, c', rows') r a h = cc

module _ (env : Env) (tenant : String) (action : ActionRequest) (client : String)
    (trace : Option String) where
  evaluate_known-Governed :
      (ctx : TenantContext) (w : World)
      → lookup tenant w.tenants ≡ some ctx
      → (evaluate_known env tenant action client trace ctx w).0.decision.allowed ≡ true
      → Governed env tenant action client trace w
          (evaluate_known env tenant action client trace ctx w)
  unfolding evaluate_known
  evaluate_known-Governed ctx w known h =
      let blob = serialize action in
      let cited = cited_policy_digest env.lib env.env_pin tenant ctx w.gate in
      let ctx' = cited.1 in
      let gate =
        maybe_anchor_policy_commit env.lib env.env_pin env.utc tenant ctx' cited.0 cited.2 in
      let d = decide env action (list_tools tenant gate) ctx'.policy_engine in
      let entry = entry_of tenant client trace d blob cited.0 in
      let out = record_entry env.lib env.moment entry ctx'.audit_chain w.rows in
      let (r, wrote, closed) = close_decision-allowed d out.0 h in
      let same =
        ap (λ (x : TenantContext). x.audit_chain)
          (cited-context env.lib env.env_pin tenant ctx w.gate) in
      let tools =
        anchored-list_tools env.lib env.env_pin tenant ctx' env.utc cited.0 cited.2
        ∙ cited-list_tools env.lib env.env_pin tenant ctx w.gate in
      let made = ap (λ (x : ActionGateResult). x.decision) closed in
      let (listed, harmless, engine) =
        decide-allowed env action (list_tools tenant gate) ctx'.policy_engine
          (sym (ap (λ (x : PolicyResult). x.allowed) made) ∙ h) in
      let (next, grown) =
        Appends-ok env.lib entry ctx'.audit_chain w.rows out r
          (record_entry-Appends env.lib env.moment entry ctx'.audit_chain w.rows) wrote in
      record {
        ctx = ctx;
        r = r;
        known = known;
        listed = subst (λ ts. contains ts action.tool ≡ true) tools listed;
        harmless = harmless;
        decision =
            made
            ∙ engine
            ∙ ap (λ (x : TenantContext). engine_evaluate env x.policy_engine blob)
                (cited-context env.lib env.env_pin tenant ctx w.gate)
            ∙ engine_evaluate-fingerprint env ctx.policy_engine blob;
        reported = ap (λ (x : ActionGateResult). x.audit_record_hash) closed;
        recorded =
            subst
              (λ x. IsNext env.lib (entry_of tenant client trace x blob cited.0) ctx.audit_chain r)
              (sym made) (subst (λ c. IsNext env.lib entry c r) same next);
        grown =
            chain_of-insert tenant (record ctx' { audit_chain = out.1 }) w gate out.2
            ∙ ap some (grown ∙ ap (λ (c : Chain). record c { records = c.records ++ r ∷ [] }) same);
      }

  known_action :
      (ctx : TenantContext) (w : World)
      → lookup tenant w.tenants ≡ some ctx
      → evaluate_action env tenant action client trace w
        ≡ evaluate_known env tenant action client trace ctx w
  unfolding evaluate_action
  known_action ctx w known =
      ap
        (λ (o : Option TenantContext). elim o as (λ x. ActionGateResult × World) [
          | none ↦ (unknown_tenant, w)
          | some c ↦ evaluate_known env tenant action client trace c w
        ])
        known

  -- An action is allowed only if all of the following hold: the tenant is registered; the tool is on the
  -- tenant's allowlist; no dangerous class matches the serialized action; the tenant's engine allows it,
  -- and the decision is the engine's; and a record of that decision, with the caller, the trace and the
  -- digest of the policy cited, was appended to the tenant's own chain, linked and hashed, and its hash
  -- is what the caller gets.
  pub evaluate_action-Governed :
      (w : World)
      → (evaluate_action env tenant action client trace w).0.decision.allowed ≡ true
      → Governed env tenant action client trace w (evaluate_action env tenant action client trace w)
  evaluate_action-Governed w h = elim (Option-cases (lookup tenant w.tenants)) [
    | inl unknown ↦ unfold evaluate_action in cc
    | inr (ctx, known) ↦
        let same : evaluate_action env tenant action client trace w
            ≡ evaluate_known env tenant action client trace ctx w =
          known_action ctx w known in
        subst (Governed env tenant action client trace w) (sym same) (
          evaluate_known-Governed ctx w known
            (subst (λ (x : ActionGateResult × World). x.0.decision.allowed ≡ true) same h))
  ]
