-- ===== src/Service/Answered.antt =====
-- main.py: what stands behind an answer of /v1/evaluate.
use custos_core.Common.{
  ℕ, ◌++◌, String, ◌≡◌, ◌≢◌, refl, sym, ap, subst, ◌∙◌, true, Option, none, some, [], ◌∷◌, arith,
  eq_iff, inl, inr, Bool-cases, Option-cases, Result, ok, err,
}
use custos_core.Common.Dict.{lookup, lookup-insert}
use custos_core.Audit.Record.{AuditRecord, Library}
use custos_core.Audit.Chain.{Chain, Entry}
use custos_core.Policy.Rule.{action_value}
use custos_core.RateLimiter.{RateLimiter, is_admitted, check_and_consume}
use custos_core.ActionGate.Evaluate.{engine_evaluate}
use custos_core.Validation.{text, integer, validate_request}
use custos_core.Retention.{ContentError}
use custos_core.Retention.Decision.{Ledger, record_decision}
use custos_core.Tenant.{Context, get_strict}
use custos_core.Service.{
  Service, Meeting, EvaluateRequest, EvaluateResponse, Reply, answered, refused, store_of,
  decision_entry, record_for, answer, count_outcome, response_of, content_engine_digest,
  rate_key_of, ensure_quota, other_subject,
}
use custos_core.Service.Evaluate.{
  refuse_limited, record_evaluated, decide_and_record, evaluate_known, counted_total,
  evaluate_counted, evaluate,
}
use custos_core.Service.Recording.{Noted, Notes, record_decision-Noted}

-- The chain of a tenant.
abbrev pub chain_at : String → Service → Option Chain
chain_at tenant s = elim (lookup tenant s.manager.tenants) [
  | none ↦ none
  | some ctx ↦ some ctx.audit_chain
]

-- What stands behind a response: the tenant was known and the limiter admitted the request, the response has
-- the decision of the tenant's engine, and the chain of the tenant has one record more, which the response
-- names, of the content, the client, the decision, the trace of the response and the digest of the engine.
pub record Behind (m : Meeting) (req : EvaluateRequest) (s s' : Service) (r : EvaluateResponse)
    : Type 0 where
  pub context : Context
  pub known : get_strict req.tenant_id s.manager ≡ some context
  pub admitted :
      is_admitted
        (check_and_consume
          (rate_key_of req)
          req.token_count
          m.now
          (ensure_quota req.tenant_id (rate_key_of req) m.now context.rate_limiter)).0
      ≡ true
  pub decided : r.allowed ≡ (engine_evaluate m.env context.policy_engine req.content).allowed
  pub decided_action :
      r.action ≡ action_value (engine_evaluate m.env context.policy_engine req.content).action
  pub decided_rule :
      r.triggered_rule ≡ (engine_evaluate m.env context.policy_engine req.content).triggered_rule
  pub rec : AuditRecord
  pub appended :
      chain_at req.tenant_id s'
      ≡ some (record context.audit_chain { records = context.audit_chain.records ++ rec ∷ [] })
  pub named : r.audit_record_hash ≡ some rec.record_hash
  pub content : rec.content_hash ≡ m.env.lib.sha256 req.content
  pub client : rec.client_id ≡ req.client_id
  pub action : rec.action ≡ r.action
  pub rule : rec.triggered_rule ≡ r.triggered_rule
  pub trace : rec.trace_id ≡ some r.trace_id
  pub citation :
      rec.policy_digest ≡ content_engine_digest m.env.lib m.env.env_pin context.policy_engine

record_for-chain :
    (m : Meeting) (tenant : String) (ctx : Context) (e : Entry) (s : Service)
    → let l =
        record_decision m.env.lib m.env.moment m.salt m.retention e
          (record { chain = ctx.audit_chain; rows = s.rows; store = store_of tenant s }) in
      ((record_for m tenant ctx e s).0 ≡ l.0)
      × (chain_at tenant (record_for m tenant ctx e s).1 ≡ some l.1.chain)
unfolding record_for
record_for-chain m tenant ctx e s = (refl, grind (arith, lookup-insert, eq_iff tenant tenant))

Noted-ok :
    (lib : Library) (e : Entry) (l : Ledger) (out : Result ContentError AuditRecord × Ledger)
    (r : AuditRecord)
    → Noted lib e l out
    → out.0 ≡ ok r
    → (out.1.chain ≡ record l.chain { records = l.chain.records ++ r ∷ [] }) × Notes lib e r
Noted-ok lib e l (ok r', l') r h same =
    let eq : r' ≡ r = ground arith in
    subst (λ x. (l'.chain ≡ record l.chain { records = l.chain.records ++ x ∷ [] }) × Notes lib e x)
      eq h
Noted-ok lib e l (err x, l') r h same = cc

-- A record that is returned has been appended to the chain of the context.
recorded :
    (m : Meeting) (tenant : String) (ctx : Context) (e : Entry) (s : Service) (r : AuditRecord)
    → (record_for m tenant ctx e s).0 ≡ ok r
    → (chain_at tenant (record_for m tenant ctx e s).1
        ≡ some (record ctx.audit_chain { records = ctx.audit_chain.records ++ r ∷ [] }))
      × Notes m.env.lib e r
recorded m tenant ctx e s r h =
    let l : Ledger = record { chain = ctx.audit_chain; rows = s.rows; store = store_of tenant s } in
    let (same, at) = record_for-chain m tenant ctx e s in
    let (grown, notes) =
      Noted-ok m.env.lib e l (record_decision m.env.lib m.env.moment m.salt m.retention e l) r
        (record_decision-Noted m.env.lib m.env.moment e l m.salt m.retention) (sym same ∙ h) in
    (at ∙ ap some grown, notes)

answer-answered :
    (reply : AuditRecord → Reply) (out : Result ContentError AuditRecord × Service)
    (x : EvaluateResponse)
    → (answer reply out).0 ≡ answered x
    → (r : AuditRecord) × (out.0 ≡ ok r) × (reply r ≡ answered x) × ((answer reply out).1 ≡ out.1)
answer-answered reply (ok r, s) x h = (r, refl, h, refl)
answer-answered reply (err e, s) x h = cc

-- A refusal past the quota is no answer.
limited_no_answer :
    (wait : Option ℕ) (out : Result ContentError AuditRecord × Service) (x : EvaluateResponse)
    → (answer (λ r. refused 429 wait) out).0 ≢ answered x
limited_no_answer wait (ok r, s) x h = cc
limited_no_answer wait (err e, s) x h = cc

module _ (m : Meeting) (req : EvaluateRequest) where
  known-Behind :
      (ctx : Context) (limiter : RateLimiter) (s s₀ : Service) (x : EvaluateResponse)
      → get_strict req.tenant_id s₀.manager ≡ some ctx
      → is_admitted
          (check_and_consume
            (rate_key_of req)
            req.token_count
            m.now
            (ensure_quota req.tenant_id (rate_key_of req) m.now ctx.rate_limiter)).0
        ≡ true
      → (record_evaluated m req (record ctx { rate_limiter = limiter }) s).0 ≡ answered x
      → Behind m req s₀ (record_evaluated m req (record ctx { rate_limiter = limiter }) s).1 x
  unfolding record_evaluated
  known-Behind ctx limiter s s₀ x known admitted h =
      let d = engine_evaluate m.env ctx.policy_engine req.content in
      let ctx' : Context = record ctx { rate_limiter = limiter } in
      let e =
        decision_entry m req ctx.policy_engine (action_value d.action) d.reason d.triggered_rule in
      let s' : Service = record s { metrics = count_outcome d s.metrics } in
      let (r, written, replied, left) =
        answer-answered (λ y. answered (response_of m req d y))
          (record_for m req.tenant_id ctx' e s') x h in
      let (grown, notes) = recorded m req.tenant_id ctx' e s' r written in
      let same : response_of m req d r ≡ x = ground arith in
      subst (λ y. Behind m req s₀ (record_evaluated m req ctx' s).1 y) same
        (record {
          context = ctx;
          known = known;
          admitted = admitted;
          decided = refl;
          decided_action = refl;
          decided_rule = refl;
          rec = r;
          appended = ap (chain_at req.tenant_id) left ∙ grown;
          named = refl;
          content = notes.content;
          client = notes.client;
          action = notes.action;
          rule = notes.rule;
          trace = notes.trace;
          citation = notes.citation;
        })

  decided-Behind :
      (ctx : Context) (limiter : RateLimiter) (s s₀ : Service) (x : EvaluateResponse)
      → get_strict req.tenant_id s₀.manager ≡ some ctx
      → is_admitted
          (check_and_consume
            (rate_key_of req)
            req.token_count
            m.now
            (ensure_quota req.tenant_id (rate_key_of req) m.now ctx.rate_limiter)).0
        ≡ true
      → (decide_and_record m req (record ctx { rate_limiter = limiter }) s).0 ≡ answered x
      → Behind m req s₀ (decide_and_record m req (record ctx { rate_limiter = limiter }) s).1 x
  unfolding decide_and_record
  decided-Behind ctx limiter s s₀ x known admitted h =
      elim (Bool-cases (m.engine_raises ctx.policy_engine req.content)) [
        | inl fails ↦ absurd (let no_answer = rw (decide_and_record, fails) at h in (cc))
        | inr returns ↦
            rw (decide_and_record, returns)
              (known-Behind ctx limiter s s₀ x known admitted
                (rw (decide_and_record, returns) at h))
      ]

  limiter_step :
      (ctx : Context) (s s₀ : Service) (x : EvaluateResponse)
      → get_strict req.tenant_id s₀.manager ≡ some ctx
      → (evaluate_known m req ctx s).0 ≡ answered x
      → Behind m req s₀ (evaluate_known m req ctx s).1 x
  unfolding evaluate_known refuse_limited
  limiter_step ctx s s₀ x known h =
      let out =
        check_and_consume (rate_key_of req) req.token_count m.now
          (ensure_quota req.tenant_id (rate_key_of req) m.now ctx.rate_limiter) in
      elim (Bool-cases (is_admitted out.0)) [
        | inl passed ↦
            let run : evaluate_known m req ctx s
                ≡ decide_and_record m req (record ctx { rate_limiter = out.1 }) s =
              rw (evaluate_known, passed) refl in
            subst (λ (o : Reply × Service). Behind m req s₀ o.1 x) (sym run)
              (decided-Behind ctx out.1 s s₀ x known passed
                (ap (λ (o : Reply × Service). o.0) (sym run) ∙ h))
        | inr past ↦
            let run : evaluate_known m req ctx s
                ≡ refuse_limited m req out.0 (record ctx { rate_limiter = out.1 }) s =
              rw (evaluate_known, past) refl in
            absurd (limited_no_answer _ _ x (ap (λ (o : Reply × Service). o.0) (sym run) ∙ h))
      ]

  counted_step :
      (s s₀ : Service) (x : EvaluateResponse)
      → get_strict req.tenant_id s₀.manager ≡ get_strict req.tenant_id s.manager
      → (evaluate_counted m req s).0 ≡ answered x
      → Behind m req s₀ (evaluate_counted m req s).1 x
  unfolding evaluate_counted
  counted_step s s₀ x same h =
      elim (Bool-cases
        (validate_request m.strip (text req.client_id) (text req.content)
          (integer req.token_count)).valid) [
            | inr bad ↦ absurd (let no_answer = rw bad at h in (cc))
            | inl good ↦ elim (Option-cases (get_strict req.tenant_id s.manager)) [
              | inl unknown_one ↦ absurd (let no_answer = rw (good, unknown_one) at h in (cc))
              | inr (ctx, known) ↦
                  let run : evaluate_counted m req s ≡ evaluate_known m req ctx s =
                    rw (evaluate_counted, good, known) refl in
                  subst (λ (o : Reply × Service). Behind m req s₀ o.1 x) (sym run)
                    (limiter_step ctx s s₀ x (same ∙ known)
                      (ap (λ (o : Reply × Service). o.0) (sym run) ∙ h))
            ]
          ]

  -- If /v1/evaluate answers, whatever retention is in force, the tenant was known, the limiter admitted the
  -- request, and the answer has the decision of the tenant's engine; the chain of the tenant has one record
  -- more, which the answer names, of the content, the client, the decision, the trace of the answer and the
  -- policy digest of the engine.
  pub evaluate-Behind :
      (subject : Option String) (s : Service) (x : EvaluateResponse)
      → (evaluate m subject req s).0 ≡ answered x
      → Behind m req s (evaluate m subject req s).1 x
  unfolding evaluate get_strict
  evaluate-Behind subject s x h = elim (Bool-cases (other_subject subject req.client_id)) [
    | inl other ↦ absurd (let no_answer = rw other at h in (cc))
    | inr own ↦
        let run : evaluate m subject req s ≡ evaluate_counted m req (counted_total s) =
          rw (evaluate, own) refl in
        subst (λ (o : Reply × Service). Behind m req s o.1 x) (sym run)
          (counted_step (counted_total s) s x refl
            (ap (λ (o : Reply × Service). o.0) (sym run) ∙ h))
  ]
