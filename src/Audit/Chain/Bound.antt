-- ===== src/Audit/Chain/Bound.antt =====
-- custos/audit.py: where records have to be bound, a record without a citation or a trace is refused.
use custos_core.Common.{
  ◌≡◌, refl, sym, ◌∙◌, true, false, not, ◌&&◌, List, arith, Result, ok, err, raise_if, >>=-eq-ok,
  is_truthy, contains,
}
use custos_core.Audit.Record.{
  AuditRecord, AuditError, Library, unknown_commitment, unbound_record, commitment_forms,
}
use custos_core.Audit.Chain.{
  Chain, Entry, Moment, record_entry, new_record, persist, resolve_tenant, bound_evidence_required,
}

module _ (lib : Library) (m : Moment) (e : Entry) (c : Chain) where
  new_record-cites :
      (r : AuditRecord)
      → new_record lib m e c ≡ ok r
      → bound_evidence_required lib m ≡ true
      → (is_truthy e.policy_digest && is_truthy e.trace_id) ≡ true
  unfolding new_record
  new_record-cites r h bound =
      let (_, form, h₁) =
        >>=-eq-ok (raise_if (not (contains commitment_forms e.commitment)) unknown_commitment) _
          h in
      let (t, tenant, h₂) = >>=-eq-ok (resolve_tenant c.tenant_id e.tenant_id) _ h₁ in
      let (_, cited, h₃) =
        >>=-eq-ok
          (raise_if
            (bound_evidence_required lib m
              && not (is_truthy e.policy_digest && is_truthy e.trace_id))
            unbound_record)
          _ h₂ in
      ground arith

  persist-unbound :
      (rows : List AuditRecord) (p : Result AuditError AuditRecord)
      → new_record lib m e c ≡ p
      → bound_evidence_required lib m ≡ true
      → (is_truthy e.policy_digest && is_truthy e.trace_id) ≡ false
      → (x : AuditError) × (persist lib m c rows p ≡ (err x, c, rows))
  persist-unbound rows (ok r) h bound lacks = absurd (
      let cited = new_record-cites r h bound in
      (let no_way : true ≡ false = sym cited ∙ lacks in cc))
  persist-unbound rows (err x) h bound lacks = (x, refl)

  pub record_entry-unbound :
      (rows : List AuditRecord)
      → bound_evidence_required lib m ≡ true
      → (is_truthy e.policy_digest && is_truthy e.trace_id) ≡ false
      → (x : AuditError) × (record_entry lib m e c rows ≡ (err x, c, rows))
  unfolding record_entry
  record_entry-unbound rows bound lacks =
      persist-unbound rows (new_record lib m e c) refl bound lacks
