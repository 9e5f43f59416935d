-- ===== src/Audit/Chain/Appends.antt =====
-- custos/audit.py: what one call of `AuditChain.record` does, as the other proofs use it.
use custos_core.Common.{
  ℕ, ◌+◌, ◌++◌, String, ◌≡◌, refl, ◌∙◌, subst, true, ◌&&◌, not, Option, List, [], ◌∷◌, arith, ok,
  raise_if, >>=-eq-ok, eq_iff, contains, is_truthy,
}
use custos_core.Audit.Record.{
  AuditRecord, unknown_commitment, unbound_record, commitment_forms, record_binding_current,
  Library, preimage_fields, compute_record_hash,
}
use custos_core.Audit.Chain.{
  Chain, Entry, Moment, latest_from, latest_hash, resolve_tenant, new_record, draft,
  bound_evidence_required, verified, verify_from,
}

-- What a record that `record` is about to save is like.
pub record IsNext (lib : Library) (e : Entry) (c : Chain) (r : AuditRecord) : Type 0 where
  pub link : r.previous_hash ≡ latest_hash c
  pub version : r.binding_version ≡ record_binding_current
  pub hashed : compute_record_hash lib r (latest_hash c) ≡ ok r.record_hash
  pub tenant : resolve_tenant c.tenant_id e.tenant_id ≡ ok r.tenant_id
  pub form : contains commitment_forms r.commitment ≡ true
  pub content : r.content_hash ≡ lib.sha256 e.content
  pub client : r.client_id ≡ e.client_id
  pub action : r.action ≡ e.action
  pub rule : r.triggered_rule ≡ e.triggered_rule
  pub trace : r.trace_id ≡ e.trace_id
  pub citation : r.policy_digest ≡ e.policy_digest
  pub marked : r.commitment ≡ e.commitment

-- The hash does not cover the hash field itself.
compute_record_hash-set_hash :
    (lib : Library) (r : AuditRecord) (h p : String)
    → compute_record_hash lib (record r { record_hash = h }) p ≡ compute_record_hash lib r p
unfolding compute_record_hash preimage_fields
compute_record_hash-set_hash lib r h p = refl

module _ (lib : Library) (m : Moment) (e : Entry) (c : Chain) where
  draft-IsNext :
      (t : Option String) (h : String) (r : AuditRecord)
      → contains commitment_forms e.commitment ≡ true
      → resolve_tenant c.tenant_id e.tenant_id ≡ ok t
      → compute_record_hash lib (draft lib m e t (latest_hash c)) (latest_hash c) ≡ ok h
      → record (draft lib m e t (latest_hash c)) { record_hash = h } ≡ r
      → IsNext lib e c r
  draft-IsNext t h r form tenant hashed eq = subst (IsNext lib e c) eq (record {
    link = refl;
    version = refl;
    hashed = compute_record_hash-set_hash lib _ h _ ∙ hashed;
    tenant = tenant;
    form = form;
    content = refl;
    client = refl;
    action = refl;
    rule = refl;
    trace = refl;
    citation = refl;
    marked = refl;
  })

  pub new_record-IsNext : (r : AuditRecord) → new_record lib m e c ≡ ok r → IsNext lib e c r
  unfolding new_record
  new_record-IsNext r h =
      let (_, form, h₁) =
        >>=-eq-ok (raise_if (not (contains commitment_forms e.commitment)) unknown_commitment) _
          h in
      let (t, tenant, h₂) = >>=-eq-ok (resolve_tenant c.tenant_id e.tenant_id) _ h₁ in
      let (_, _, h₃) =
        >>=-eq-ok
          (raise_if
            (bound_evidence_required lib m
              && not (is_truthy e.policy_digest && is_truthy e.trace_id))
            unbound_record)
          _ h₂ in
      let (hash, hashed, h₄) =
        >>=-eq-ok (compute_record_hash lib (draft lib m e t (latest_hash c)) (latest_hash c)) _
          h₃ in
      draft-IsNext t hash r (ground arith) tenant hashed (ground arith)

-- One more record that links and hashes extends a verified list.
pub verify_from-append :
    (lib : Library) (i : ℕ) (p : String) (rs : List AuditRecord) (r : AuditRecord)
    → verify_from lib i p rs ≡ verified
    → r.previous_hash ≡ latest_from p rs
    → r.binding_version ≡ record_binding_current
    → compute_record_hash lib r (latest_from p rs) ≡ ok r.record_hash
    → verify_from lib i p (rs ++ r ∷ []) ≡ verified
unfolding verify_from
verify_from-append lib i p [] r h link version hashed =
    ground (arith, eq_iff r.previous_hash p, eq_iff r.record_hash r.record_hash)
verify_from-append lib i p (s ∷ rs) r h link version hashed =
    ground (arith, verify_from-append lib (i + 1) s.record_hash rs r)
