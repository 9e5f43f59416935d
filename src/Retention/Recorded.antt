-- ===== src/Retention/Recorded.antt =====
-- custos/retention.py: a recorded decision leaves the records and the store in agreement.
use custos_core.Common.{String, ◌≡◌, refl, sym, ap, subst, ◌∙◌, Result, ok, err}
use custos_core.Audit.Record.{AuditRecord, AuditError, Library}
use custos_core.Audit.Chain.{Entry, Moment, record_entry}
use custos_core.Retention.{
  ContentStore, ContentError, content_purged, purge_refused, integrity_error, not_attributable,
  config_refused, chain_error, present, status, put, commitment_form,
}
use custos_core.Retention.Decision.{
  Ledger, Retention, off, store_mode, refused_mode, chain_result, record_in, record_stored,
  put_and_record, unretained, or_unretained, record_decision,
}
use custos_core.Retention.Keeps.{
  Sound, Written-Sound, record_in-Written, unretained-Sound, put-Sound, stored-Sound,
  commitment_form-present,
}

module _ (lib : Library) (m : Moment) (e : Entry) where
  unretained_in :
      (l : Ledger)
      → Sound lib l.chain.records l.store
      → let out = record_in lib m (unretained e) l in Sound lib out.1.chain.records out.1.store
  unretained_in l h =
      Written-Sound lib (unretained e) l (record_in lib m (unretained e) l)
        (record_in-Written lib m (unretained e) l) h
        (λ r next. unretained-Sound lib l.chain.records l.store r h next.marked)

  stored_in :
      (l : Ledger) (s : ContentStore)
      → Sound lib l.chain.records s
      → status (lib.sha256 e.content) s ≡ present
      → let out = record_stored lib m e (ok s) l in Sound lib out.1.chain.records out.1.store
  unfolding record_stored
  stored_in l s h here =
      let e' = record e { commitment = commitment_form (lib.sha256 e.content) s } in
      let l' = record l { store = s } in
      Written-Sound lib e' l' (record_in lib m e' l') (record_in-Written lib m e' l') h (λ r next.
        let at : status r.content_hash s ≡ present = ap (λ k. status k s) next.content ∙ here in
        let form = commitment_form-present lib (lib.sha256 e.content) s h.kept here in
        stored-Sound lib l.chain.records s r h at (rw next.marked form))

  kept_result :
      (l l' : Ledger) (r : Result AuditError AuditRecord)
      → or_unretained lib m e l (chain_result r, l') ≡ (chain_result r, l')
  kept_result l l' (ok r) = refl
  kept_result l l' (err x) = refl

  kept_write :
      (l l' : Ledger) (e' : Entry)
      → or_unretained lib m e l (record_in lib m e' l') ≡ record_in lib m e' l'
  unfolding record_in
  kept_write l l' e' =
      let (r, c, rows) = record_entry lib m e' l'.chain l'.rows in
      kept_result l (record l' { chain = c; rows = rows }) r

  stored_or_not :
      (salt : String) (l : Ledger) (p : Result ContentError ContentStore)
      → put lib salt m.now e.content l.store ≡ p
      → Sound lib l.chain.records l.store
      → let out = or_unretained lib m e l (record_stored lib m e p l) in
        Sound lib out.1.chain.records out.1.store
  unfolding record_stored
  stored_or_not salt l (ok s) eq h =
      let (after, here) = put-Sound lib l.chain.records salt m.now e.content l.store s eq h in
      let e' = record e { commitment = commitment_form (lib.sha256 e.content) s } in
      subst
        (λ (x : Result ContentError AuditRecord × Ledger). Sound lib x.1.chain.records x.1.store)
        (sym (kept_write l (record l { store = s }) e')) (stored_in l s after here)
  stored_or_not salt l (err content_purged) eq h = unretained_in l h
  stored_or_not salt l (err purge_refused) eq h = h
  stored_or_not salt l (err integrity_error) eq h = h
  stored_or_not salt l (err not_attributable) eq h = h
  stored_or_not salt l (err config_refused) eq h = h
  stored_or_not salt l (err (chain_error x)) eq h = h

  -- Whatever the configuration, the content and the faults of the audit store, and whether it returns or
  -- raises, recording a decision leaves the records and the content store in agreement: a digest that a
  -- record claims to be stored has its body, or was purged with an attestation, and a digest whose purge
  -- is attested is purged.
  pub record_decision-Sound :
      (salt : String) (mode : Retention) (l : Ledger)
      → Sound lib l.chain.records l.store
      → let out = record_decision lib m salt mode e l in Sound lib out.1.chain.records out.1.store
  unfolding record_decision put_and_record
  record_decision-Sound salt off l h = unretained_in l h
  record_decision-Sound salt refused_mode l h = h
  record_decision-Sound salt store_mode l h =
      stored_or_not salt l (put lib salt m.now e.content l.store) refl h
