-- ===== src/Firewall/Enforced.antt =====
-- custos/firewall.py: what stands behind a forward, and the record of every result.
use custos_core.Common.{
  String, ◌++◌, ◌≡◌, refl, sym, ap, subst, ◌∙◌, true, Option, none, some, List, [], ◌∷◌, arith, inl,
  inr, Bool-cases, Result, ok, err, if◌then◌else◌,
}
use custos_core.Audit.Record.{AuditRecord, AuditError, Library}
use custos_core.Audit.Chain.{Chain, Entry, Moment, record_entry}
use custos_core.Audit.Chain.Integrity.{Appends, record_entry-Appends}
use custos_core.Policy.Rule.{PolicyResult, action_value}
use custos_core.ActionGate.Evaluate.{engine_evaluate}
use custos_core.RateLimiter.{RateLimiter, Reason, is_admitted, check_and_consume}
use custos_core.Execution.{forward}
use custos_core.Execution.Contacts.{Contacted, forward-Contacted}
use custos_core.Validation.{text, integer, validate_request}
use custos_core.Validation.Accepts.{GoodClient, GoodContent, GoodTokens, validate_request-valid_iff}
use custos_core.Firewall.{
  ExecutionFirewall, Surroundings, Call, FirewallResult, Outcome, entry_of, with_hash, record_then,
  forward_and_record, enforce_decision, enforce_limited, enforce, key_of, blocked, audit_action,
  audit_reason, forwarded_result,
}

record_then-connected :
    (lib : Library) (m : Moment) (e : Entry) (make : String → FirewallResult) (ip : Option String)
    (f : ExecutionFirewall)
    → (record_then lib m e make ip f).connected ≡ ip
unfolding record_then
record_then-connected lib m e make ip f = refl

-- What stands behind a connection that the firewall makes.
pub record Enforced (s : Surroundings) (c : Call) (f : ExecutionFirewall) (ip : String)
    : Type 0 where
  pub client : GoodClient s.strip (text c.client_id)
  pub content : GoodContent s.strip (text c.content)
  pub tokens : GoodTokens (integer c.token_count)
  pub admitted : is_admitted (check_and_consume (key_of c) c.token_count s.now f.limiter).0 ≡ true
  pub allowed : (engine_evaluate s.env f.engine c.content).allowed ≡ true
  pub contacted : Contacted s.net c.request f.adapter ip

module _ (s : Surroundings) (c : Call) where
  decision_connected :
      (d : PolicyResult) (f : ExecutionFirewall) (ip : String)
      → (enforce_decision s c d f).connected ≡ some ip
      → (d.allowed ≡ true) × ((forward s.net c.request f.adapter).connected ≡ some ip)
  unfolding enforce_decision forward_and_record record_then
  decision_connected d f ip h = elim (Bool-cases d.allowed) [
    | inl granted ↦ (granted, (rw granted at h))
    | inr refused ↦ (let none_sent : none ≡ some ip = rw refused at h in cc)
  ]

  limited_connected :
      (out : Reason × RateLimiter) (f : ExecutionFirewall) (ip : String)
      → (enforce_limited s c out f).connected ≡ some ip
      → (is_admitted out.0 ≡ true)
        × ((engine_evaluate s.env f.engine c.content).allowed ≡ true)
        × ((forward s.net c.request f.adapter).connected ≡ some ip)
  unfolding enforce_limited record_then
  limited_connected (reason, limiter) f ip h = elim (Bool-cases (is_admitted reason)) [
    | inl passed ↦
        (let (allowed, sent) =
            decision_connected _ (record f { limiter = limiter }) ip (rw passed at h) in
          (passed, allowed, sent))
    | inr limited ↦ (let none_sent : none ≡ some ip = rw limited at h in cc)
  ]

  -- A connection is made only for a well-formed request that the rate limiter admitted and the policy
  -- engine allowed, and only to an address that this call resolved and validated, with the breaker of the
  -- host not open.
  pub enforce-Enforced :
      (f : ExecutionFirewall) (ip : String)
      → (enforce s c f).connected ≡ some ip
      → Enforced s c f ip
  unfolding enforce
  enforce-Enforced f ip h =
      elim (Bool-cases
        (validate_request s.strip (text c.client_id) (text c.content)
          (integer c.token_count)).valid) [
            | inl good ↦
                let (client, content, tokens) =
                  (validate_request-valid_iff s.strip (text c.client_id) (text c.content)
                      (integer c.token_count)).0
                    good in
                let (admitted, allowed, sent) =
                  limited_connected (check_and_consume (key_of c) c.token_count s.now f.limiter) f
                    ip (rw good at h) in
                record {
                  client = client;
                  content = content;
                  tokens = tokens;
                  admitted = admitted;
                  allowed = allowed;
                  contacted = forward-Contacted s.net c.request f.adapter ip sent;
                }
            | inr bad ↦ (let none_sent : none ≡ some ip = rw bad at h in cc)
          ]

-- What a call has added to the chain by the time that it returns, or raises.
abbrev pub Recorded : Library → Call → Chain → Result AuditError FirewallResult → Chain → Type 0
Recorded lib c before (err x) after = after ≡ before
Recorded lib c before (ok r) after =
    (rec : AuditRecord) × (after.records ≡ before.records ++ rec ∷ [])
    × (r.audit_record_hash ≡ some rec.record_hash)
    × (rec.content_hash ≡ lib.sha256 c.content)
    × (rec.client_id ≡ c.client_id)
    × (rec.trace_id ≡ c.trace_id)
    × (rec.triggered_rule ≡ r.triggered_rule)
    × (rec.action ≡ (if r.forwarded then "forwarded" else r.action))

module _ (lib : Library) (m : Moment) (c : Call) (action reason : String)
    (rule : Option String) where
  written-Recorded :
      (f : ExecutionFirewall) (make : String → FirewallResult)
      (out : Result AuditError AuditRecord × Chain × List AuditRecord)
      → ((h : String)
          → ((make h).audit_record_hash ≡ some h)
            × (rule ≡ (make h).triggered_rule)
            × (action ≡ (if (make h).forwarded then "forwarded" else (make h).action)))
      → Appends lib (entry_of c action reason rule) f.chain f.rows out
      → Recorded lib c f.chain (with_hash make out.0) out.1
  written-Recorded f make (ok r, c', rows') fits (next, grown, after, fresh) =
      let (hash, same_rule, same_action) = fits r.record_hash in
      (
        r,
        ap (λ (x : Chain). x.records) grown,
        hash,
        next.content,
        next.client,
        next.trace,
        next.rule ∙ same_rule,
        next.action ∙ same_action,
      )
  written-Recorded f make (err x, c', rows') fits (same, after) = same

  record_then-Recorded :
      (f : ExecutionFirewall) (make : String → FirewallResult) (ip : Option String)
      → ((h : String)
          → ((make h).audit_record_hash ≡ some h)
            × (rule ≡ (make h).triggered_rule)
            × (action ≡ (if (make h).forwarded then "forwarded" else (make h).action)))
      → let out = record_then lib m (entry_of c action reason rule) make ip f in
        Recorded lib c f.chain out.result out.firewall.chain
  unfolding record_then
  record_then-Recorded f make ip fits =
      written-Recorded f make (record_entry lib m (entry_of c action reason rule) f.chain f.rows)
        fits (record_entry-Appends lib m (entry_of c action reason rule) f.chain f.rows)

abbrev OutcomeRecorded : Library → Call → Chain → Outcome → Type 0
OutcomeRecorded lib c before out = Recorded lib c before out.result out.firewall.chain

module _ (s : Surroundings) (c : Call) where
  decision-Recorded :
      (d : PolicyResult) (f : ExecutionFirewall)
      → OutcomeRecorded s.env.lib c f.chain (enforce_decision s c d f)
  unfolding enforce_decision forward_and_record
  decision-Recorded d f = elim (Bool-cases d.allowed) [
    | inl granted ↦
        let sent = forward s.net c.request f.adapter in
        let here : enforce_decision s c d f ≡ forward_and_record s c d f =
          rw (enforce_decision, granted) refl in
        subst (OutcomeRecorded s.env.lib c f.chain) (sym here) (
          record_then-Recorded s.env.lib s.env.moment c (audit_action sent.result)
            (audit_reason s.messages c.request sent.result) d.triggered_rule
            (record f { adapter = sent.adapter }) (forwarded_result c d s.messages sent.result)
            sent.connected (λ h. (refl, refl, ground arith)))
    | inr refused ↦
        let make = λ (hash : String).
          blocked c (action_value d.action) d.reason d.triggered_rule (some hash) in
        let here : enforce_decision s c d f
            ≡ record_then s.env.lib s.env.moment
                (entry_of c (action_value d.action) d.reason d.triggered_rule) make none f =
          rw (enforce_decision, refused) refl in
        subst (OutcomeRecorded s.env.lib c f.chain) (sym here) (
          record_then-Recorded s.env.lib s.env.moment c (action_value d.action) d.reason
            d.triggered_rule f make none (λ h. (refl, refl, refl)))
  ]

  limited-Recorded :
      (out : Reason × RateLimiter) (f : ExecutionFirewall)
      → OutcomeRecorded s.env.lib c f.chain (enforce_limited s c out f)
  unfolding enforce_limited
  limited-Recorded (reason, limiter) f = elim (Bool-cases (is_admitted reason)) [
    | inl passed ↦
        let d = engine_evaluate s.env f.engine c.content in
        let here : enforce_limited s c (reason, limiter) f
            ≡ enforce_decision s c d (record f { limiter = limiter }) =
          rw (enforce_limited, passed) refl in
        subst (OutcomeRecorded s.env.lib c f.chain) (sym here)
          (decision-Recorded d (record f { limiter = limiter }))
    | inr limited ↦
        let why = s.messages.limited reason in
        let make = λ (hash : String). blocked c "rate_limited" why none (some hash) in
        let here : enforce_limited s c (reason, limiter) f
            ≡ record_then s.env.lib s.env.moment (entry_of c "rate_limited" why none) make none
                (record f { limiter = limiter }) =
          rw (enforce_limited, limited) refl in
        subst (OutcomeRecorded s.env.lib c f.chain) (sym here) (
          record_then-Recorded s.env.lib s.env.moment c "rate_limited" why none
            (record f { limiter = limiter }) make none (λ h. (refl, refl, refl)))
  ]

  -- If the request is valid, a call that returns has appended one record to the chain, whose hash the result
  -- carries and which has the content, the client, the trace and the rule of the result, and its action or
  -- "forwarded"; a call that raises has appended nothing.
  pub enforce-Recorded :
      (f : ExecutionFirewall)
      → (validate_request s.strip (text c.client_id) (text c.content) (integer c.token_count)).valid
        ≡ true
      → Recorded s.env.lib c f.chain (enforce s c f).result (enforce s c f).firewall.chain
  unfolding enforce
  enforce-Recorded f good =
      let limits = check_and_consume (key_of c) c.token_count s.now f.limiter in
      let here : enforce s c f ≡ enforce_limited s c limits f = rw (enforce, good) refl in
      subst (OutcomeRecorded s.env.lib c f.chain) (sym here) (limited-Recorded limits f)
