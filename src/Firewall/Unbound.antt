-- ===== src/Firewall/Unbound.antt =====
-- custos/firewall.py: a deployment that wants every record bound refuses each record of the firewall.
use custos_core.Common.{String, ◌≡◌, refl, ap, ◌∙◌, true, Option, some, err}
use custos_core.Audit.Record.{AuditError, Library}
use custos_core.Audit.Chain.{Entry, Moment, record_entry, bound_evidence_required}
use custos_core.Audit.Chain.Bound.{record_entry-unbound}
use custos_core.ActionGate.Evaluate.{engine_evaluate}
use custos_core.RateLimiter.{check_and_consume}
use custos_core.Validation.{text, integer, validate_request}
use custos_core.Firewall.{
  ExecutionFirewall, Surroundings, Call, FirewallResult, Outcome, record_then, forward_and_record,
  enforce_decision, enforce_limited, enforce, key_of,
}
use custos_core.Validation.Accepts.{validate_request-valid_iff}
use custos_core.Firewall.Enforced.{Enforced, enforce-Enforced}

record_then-raises :
    (lib : Library) (m : Moment) (e : Entry) (make : String → FirewallResult) (ip : Option String)
    (f : ExecutionFirewall)
    → ((x : AuditError) × (record_entry lib m e f.chain f.rows ≡ (err x, f.chain, f.rows)))
    → (x : AuditError) × (record_then lib m e make ip f
        ≡ record { result = err x; connected = ip; firewall = f })
unfolding record_then
record_then-raises lib m e make ip f (x, run) = (x, rw (record_then, run) refl)

-- A call that connects has gone through all the steps.
enforce-run :
    (s : Surroundings) (c : Call) (f : ExecutionFirewall) (ip : String)
    → Enforced s c f ip
    → enforce s c f
      ≡ forward_and_record s c
          (engine_evaluate s.env f.engine c.content)
          (record f { limiter = (check_and_consume (key_of c) c.token_count s.now f.limiter).1 })
unfolding enforce enforce_limited enforce_decision
enforce-run s c f ip h =
    let good : (validate_request s.strip (text c.client_id) (text c.content)
          (integer c.token_count)).valid
        ≡ true =
      (validate_request-valid_iff s.strip (text c.client_id) (text c.content)
          (integer c.token_count)).1
        (h.client, h.content, h.tokens) in
    rw (enforce, good, enforce_limited, h.admitted, enforce_decision, h.allowed) refl

-- If records have to be bound and the call connects to its target, the call then raises: the request has
-- reached the target, and neither the chain nor the table has a record of it.
pub enforce-unbound :
    (s : Surroundings) (c : Call) (f : ExecutionFirewall) (ip : String)
    → bound_evidence_required s.env.lib s.env.moment ≡ true
    → (enforce s c f).connected ≡ some ip
    → (x : AuditError) × ((enforce s c f).result ≡ err x)
      × ((enforce s c f).firewall.chain ≡ f.chain)
      × ((enforce s c f).firewall.rows ≡ f.rows)
unfolding forward_and_record
enforce-unbound s c f ip bound h =
    let run = enforce-run s c f ip (enforce-Enforced s c f ip h) in
    let (x, raised) =
      record_then-raises s.env.lib s.env.moment _ _ _ _
        (record_entry-unbound s.env.lib s.env.moment _ f.chain f.rows bound refl) in
    let all = run ∙ raised in
    (
      x,
      ap (λ (o : Outcome). o.result) all,
      ap (λ (o : Outcome). o.firewall.chain) all,
      ap (λ (o : Outcome). o.firewall.rows) all,
    )
