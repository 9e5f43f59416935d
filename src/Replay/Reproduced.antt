-- ===== src/Replay/Reproduced.antt =====
-- custos/replay.py: a decision that /v1/evaluate has recorded is reproduced.
use custos_core.Common.{
  ℕ, ◌++◌, String, ◌≡◌, refl, sym, ap, ◌∙◌, true, ◌&&◌, Option, none, some, List, [], ◌∷◌, arith,
  eq_iff, ok, str_eq, str_eq_refl,
}
use custos_core.Audit.Record.{AuditRecord, AuditError, Library}
use custos_core.Audit.Chain.{Chain, Moment, bound_evidence_required}
use custos_core.Audit.Chain.Bound.{record_entry-unbound}
use custos_core.Policy.Rule.{PolicyResult, action_value}
use custos_core.ActionGate.Evaluate.{Env, engine_evaluate}
use custos_core.Tenant.{Context, get_strict}
use custos_core.Service.{Service, Meeting, EvaluateRequest, EvaluateResponse, answered}
use custos_core.Service.Evaluate.{evaluate}
use custos_core.Service.Answered.{chain_at, evaluate-Behind}
use custos_core.Replay.{
  ReplayResult, find_record, same_rule, replayed, replay_by_hash, replay_entry, replay_raised,
  replay,
}

find_record-append :
    (hash : String) (rs : List AuditRecord) (r : AuditRecord)
    → find_record hash rs ≡ none
    → r.record_hash ≡ hash
    → find_record hash (rs ++ r ∷ []) ≡ some r
unfolding find_record
find_record-append hash [] r absent same = ground (arith, eq_iff r.record_hash hash)
find_record-append hash (s ∷ rs) r absent same = ground (arith, find_record-append hash rs r)

same_rule_refl : (a : Option String) → same_rule a a ≡ true
same_rule_refl none = refl
same_rule_refl (some a) = str_eq_refl a

module _ (lib : Library) (now : ℕ) (decide : String → PolicyResult) where
  -- A record of the content and of the decision on it.
  replay_matches :
      (hash content : String) (c : Chain) (r : AuditRecord)
      → find_record hash c.records ≡ some r
      → r.content_hash ≡ lib.sha256 content
      → r.action ≡ action_value (decide content).action
      → r.triggered_rule ≡ (decide content).triggered_rule
      → (y : ReplayResult) × (replay_by_hash lib now decide hash content c ≡ ok y)
        × (y.decision_matches ≡ true)
  unfolding replay_by_hash
  replay_matches hash content c r found digest act rule =
      let own : str_eq (lib.sha256 content) r.content_hash ≡ true =
        rw digest (str_eq_refl (lib.sha256 content)) in
      let matches : (str_eq (action_value (decide content).action) r.action
            && same_rule (decide content).triggered_rule r.triggered_rule)
          ≡ true =
        rw
          (
            act,
            rule,
            str_eq_refl (action_value (decide content).action),
            same_rule_refl (decide content).triggered_rule,
          )
          refl in
      (replayed now r (decide content), rw (replay_by_hash, found, own) refl, matches)

-- If /v1/evaluate has answered and no earlier record of the tenant's chain has the hash that the answer names,
-- then replaying that hash with the same content, at any time and against the chain as it is afterwards, finds
-- the record and reproduces the decision, if the engine of the tenant decides on the content as it did, in
-- whatever environment it is asked again (for an engine that asks an OPA server, this needs the reply of that
-- time to lead to the same result).
pub evaluate-replay :
    (m : Meeting) (req : EvaluateRequest) (subject : Option String) (s : Service)
    (x : EvaluateResponse) (hash : String) (now : ℕ) (ctx : Context) (again : Env)
    → (evaluate m subject req s).0 ≡ answered x
    → get_strict req.tenant_id s.manager ≡ some ctx
    → x.audit_record_hash ≡ some hash
    → find_record hash ctx.audit_chain.records ≡ none
    → engine_evaluate again ctx.policy_engine req.content
      ≡ engine_evaluate m.env ctx.policy_engine req.content
    → (c : Chain) × (chain_at req.tenant_id (evaluate m subject req s).1 ≡ some c)
      × (y : ReplayResult) × (replay_by_hash m.env.lib now
            (engine_evaluate again ctx.policy_engine)
            hash
            req.content
            c
          ≡ ok y)
      × (y.decision_matches ≡ true)
evaluate-replay m req subject s x hash now ctx again h known named absent stable =
    let b = evaluate-Behind m req subject s x h in
    let same : b.context ≡ ctx = ground (arith, known, b.known) in
    let at : b.rec.record_hash ≡ hash = ground (arith, named, b.named) in
    let old : find_record hash b.context.audit_chain.records ≡ none =
      ap (λ (k : Context). find_record hash k.audit_chain.records) same ∙ absent in
    let decided : engine_evaluate m.env b.context.policy_engine req.content
        ≡ engine_evaluate again ctx.policy_engine req.content =
      ap (λ (k : Context). engine_evaluate m.env k.policy_engine req.content) same ∙ sym stable in
    let c : Chain = record b.context.audit_chain {
      records = b.context.audit_chain.records ++ b.rec ∷ [];
    } in
    let (y, run, matches) =
      replay_matches m.env.lib now (engine_evaluate again ctx.policy_engine) hash req.content c
        b.rec (find_record-append hash b.context.audit_chain.records b.rec old at) b.content
        (b.action ∙ b.decided_action ∙ ap (λ (d : PolicyResult). action_value d.action) decided)
        (b.rule ∙ b.decided_rule ∙ ap (λ (d : PolicyResult). d.triggered_rule) decided) in
    (c, b.appended, y, run, matches)

-- Where records have to be bound, /v1/replay raises whenever it finds the record and the content matches,
-- and writes nothing.
pub replay-unbound :
    (lib : Library) (m : Moment) (decide : String → PolicyResult) (reason hash content : String)
    (c : Chain) (rows : List AuditRecord) (y : ReplayResult)
    → bound_evidence_required lib m ≡ true
    → replay_by_hash lib m.now decide hash content c ≡ ok y
    → (x : AuditError) × (replay lib m decide reason hash content c rows
        ≡ (replay_raised x, c, rows))
unfolding replay
replay-unbound lib m decide reason hash content c rows y bound run =
    let (x, raised) = record_entry-unbound lib m (replay_entry reason content) c rows bound refl in
    (x, rw (replay, run, raised) refl)
