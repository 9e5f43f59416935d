-- ===== src/Admin/Unattested.antt =====
-- main.py: an erasure where records have to be bound.
use custos_core.Common.{
  String, ◌≡◌, ◌≢◌, refl, sym, ap, subst, ◌∙◌, Bool, true, false, ◌&&◌, Option, none, [], arith,
  inl, inr, Option-cases, Result, ok, err, is_truthy,
}
use custos_core.Common.Dict.{lookup, has_key}
use custos_core.Audit.Record.{AuditRecord, AuditError, Library}
use custos_core.Audit.Chain.{Entry, Moment, bound_evidence_required}
use custos_core.Audit.Chain.Bound.{record_entry-unbound}
use custos_core.Retention.{
  ContentStore, ContentError, content_purged, chain_error, present, purged, status, open_body,
}
use custos_core.Retention.Decision.{Ledger, record_in, purge_entry, deleted, attested_result, purge}
use custos_core.Retention.Reconcile.{reconcile}
use custos_core.Retention.Keeps.{Sound, claimed}
use custos_core.Retention.Erasure.{purge-attested, purge-unattested}
use custos_core.Admin.{Handled, status_code, content_raised, purge_reply, purge_content}

and_false : (b : Bool) → (b && false) ≡ false
and_false true = refl
and_false false = refl

record_in-unbound :
    (lib : Library) (m : Moment) (e : Entry) (l : Ledger)
    → bound_evidence_required lib m ≡ true
    → (is_truthy e.policy_digest && is_truthy e.trace_id) ≡ false
    → (x : AuditError) × ((record_in lib m e l).0 ≡ err (chain_error x))
unfolding record_in
record_in-unbound lib m e l bound lacks =
    let (x, raised) = record_entry-unbound lib m e l.chain l.rows bound lacks in
    (x, rw (record_in, raised) refl)

attested_result-chain_error :
    (h : String) (out : Result ContentError AuditRecord × Ledger) (x : AuditError)
    → out.0 ≡ err (chain_error x)
    → (attested_result h out).0 ≡ err (chain_error x)
unfolding attested_result
attested_result-chain_error h (ok r, l) x e = cc
attested_result-chain_error h (err y, l) x e = ap (λ t. err t) (ground arith)

open_body-status :
    (h : String) (s : ContentStore) → open_body h s ≡ err content_purged → status h s ≡ purged
unfolding open_body status
open_body-status h s gone = ground arith

module _ (lib : Library) (m : Moment) (h reason : String) (digest : Option String) where
  purge_traceless :
      (l : Ledger)
      → bound_evidence_required lib m ≡ true
      → status h l.store ≡ present
      → has_key h l.store.purges ≡ false
      → (x : AuditError) × ((purge lib m h "retention-admin" reason none digest l).0
          ≡ err (chain_error x))
  unfolding status
  purge_traceless l bound here fresh = elim (Option-cases (lookup h l.store.bodies)) [
    | inl gone ↦ absurd (ground arith)
    | inr (b, found) ↦
        let e = purge_entry "retention-admin" reason none digest b.body in
        let l₀ : Ledger = record l { store = deleted h m.now reason l.store } in
        let (x, raised) = record_in-unbound lib m e l₀ bound (and_false (is_truthy digest)) in
        (
          x,
          ap (λ o. o.0)
                (purge-attested lib m h "retention-admin" reason none digest b l found fresh)
              ∙ attested_result-chain_error h (record_in lib m e l₀) x raised,
        )
  ]

  -- Where records have to be bound, if the records and the store agree, some record claims the content and it
  -- was not purged before, /v1/retention/purge deletes the content for good and raises: no attestation is
  -- written, `reconcile` reports the purge, and purging again, at any moment and for any reason, is refused
  -- with 409 and changes nothing.
  pub purge_content-unattested :
      (again : Moment) (reason' : String) (l : Ledger)
      → bound_evidence_required lib m ≡ true
      → Sound lib l.chain.records l.store
      → claimed l.chain.records h ≡ true
      → status h l.store ≡ present
      → has_key h l.store.purges ≡ false
      → let (reply, l') = purge_content lib m digest h reason l in
        ((x : AuditError) × (reply ≡ content_raised (chain_error x)))
        × (open_body h l'.store ≡ err content_purged)
        × ((reconcile l'.chain.records l'.store).findings ≢ [])
        × (purge_content lib again digest h reason' l' ≡ (status_code 409, l'))
  unfolding purge_content
  purge_content-unattested again reason' l bound sound c here fresh =
      let (x, raised) = purge_traceless l bound here fresh in
      let out = purge lib m h "retention-admin" reason none digest l in
      let run : purge_content lib m digest h reason l ≡ (purge_reply out.0, out.1) =
        rw (purge_content, here) refl in
      let (gone, report, later) =
        purge-unattested lib m again h "retention-admin" reason "retention-admin" reason' none
          digest x l sound c raised in
      let left : status h out.1.store ≡ purged = open_body-status h out.1.store gone in
      subst
        (λ (o : Handled String × Ledger).
          ((y : AuditError) × (o.0 ≡ content_raised (chain_error y)))
          × (open_body h o.1.store ≡ err content_purged)
          × ((reconcile o.1.chain.records o.1.store).findings ≢ [])
          × (purge_content lib again digest h reason' o.1 ≡ (status_code 409, o.1)))
        (sym run) ((x, ap purge_reply raised), gone, report, rw (purge_content, left) refl)
