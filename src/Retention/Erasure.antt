-- ===== src/Retention/Erasure.antt =====
-- custos/retention.py: what a purge does to the records and the store, and what it leaves when it fails.
use custos_core.Common.{
  ℕ, String, ◌++◌, ◌≡◌, ◌≢◌, refl, sym, ap, subst, ◌∙◌, true, false, Option, some, List, [], ◌∷◌,
  arith, eq_iff, str_eq, str_eq_refl, inl, inr, Option-cases, Result, ok, err, if◌then◌else◌,
}
use custos_core.Common.Dict.{lookup, has_key, lookup-insert, lookup-erase, All-erase, All-lookup}
use custos_core.Audit.Record.{AuditRecord, AuditError, Library, commitment_purged_v1}
use custos_core.Audit.Chain.{Chain, Moment}
use custos_core.Retention.{
  Body, ContentStore, ContentError, content_purged, chain_error, present, purged, status, open_body,
}
use custos_core.Retention.Reconcile.{is_purge, reconcile}
use custos_core.Retention.Decision.{
  Ledger, record_in, purge_entry, deleted, attest, attested_result, purge,
}
use custos_core.Retention.Keeps.{
  Sound, IsKept, attests, attested, claimed, attested-append, claimed-append, Written,
  record_in-Written,
}
use custos_core.Retention.Agreement.{unattested-reconcile}

pub status-deleted :
    (h : String) (now : ℕ) (reason : String) (s : ContentStore) (k : String)
    → status k (deleted h now reason s) ≡ (if str_eq h k then purged else status k s)
unfolding status
status-deleted h now reason s k = grind (arith, lookup-insert, lookup-erase, eq_iff h k)

-- The attestation is written beside the purge, and changes no status.
pub status-attest :
    (h hash : String) (s : ContentStore) (k : String) → status k (attest h hash s) ≡ status k s
unfolding status attest
status-attest h hash s k = grind (arith, lookup-insert, eq_iff h k)

attest-bodies : (h hash : String) (s : ContentStore) → (attest h hash s).bodies ≡ s.bodies
unfolding attest
attest-bodies h hash s = ground arith

-- The record of a purge, beside the store that it was purged from.
purged-Sound :
    (lib : Library) (records : List AuditRecord) (s : ContentStore) (r : AuditRecord)
    (h hash : String) (now : ℕ) (reason : String)
    → Sound lib records s
    → r.commitment ≡ commitment_purged_v1
    → r.content_hash ≡ h
    → Sound lib (records ++ r ∷ []) (attest h hash (deleted h now reason s))
purged-Sound lib records s r h hash now reason sound form at = record {
  agrees = λ k.
      let yes_purge : is_purge r ≡ true = ap (λ c. str_eq c commitment_purged_v1) form in
      let here : str_eq r.content_hash k ≡ str_eq h k = ap (λ c. str_eq c k) at in
      ground (
        arith,
        claimed-append records r k,
        attested-append records r k,
        status-attest h hash (deleted h now reason s) k,
        status-deleted h now reason s k,
        sound.agrees k,
      );
  kept =
      rw (attest-bodies h hash (deleted h now reason s))
        (All-erase (IsKept lib) h s.bodies sound.kept);
}

pub open_body-purged :
    (h : String) (s : ContentStore) → status h s ≡ purged → open_body h s ≡ err content_purged
unfolding open_body status
open_body-purged h s gone = ground arith

module _ (lib : Library) (m : Moment) (h client reason : String)
    (trace digest : Option String) where
  -- The ledger once the body is deleted and before the purge is recorded.
  abbrev emptied : Ledger → Ledger
  emptied l = record l { store = deleted h m.now reason l.store }

  -- The attestation of the purge: one record more, of the form of a purge and of the digest, whose hash is the
  -- one that is returned and the one that stands in the row of the purge.
  pub record Attests (l l' : Ledger) (hash : String) : Type 0 where
    pub rec : AuditRecord
    pub appended : l'.chain ≡ record l.chain { records = l.chain.records ++ rec ∷ [] }
    pub of_digest : attests rec h ≡ true
    pub named : rec.record_hash ≡ hash
    pub row :
        lookup h l'.store.purges
        ≡ some (record { purged_at = m.now; reason = reason; attestation_hash = some hash })

  attest-row :
      (s s' : ContentStore) (hash : String)
      → s' ≡ deleted h m.now reason s
      → lookup h (attest h hash s').purges
        ≡ some (record { purged_at = m.now; reason = reason; attestation_hash = some hash })
  unfolding attest
  attest-row s s' hash same = rw same (grind (arith, lookup-insert, eq_iff h h))

  attested_result-Sound :
      (l : Ledger) (b : Body) (out : Result ContentError AuditRecord × Ledger) (hash : String)
      → lib.sha256 b.body ≡ h
      → Written lib (purge_entry client reason trace digest b.body) (emptied l) out
      → Sound lib l.chain.records l.store
      → (attested_result h out).0 ≡ ok hash
      → let l' = (attested_result h out).1 in
        Sound lib l'.chain.records l'.store × (status h l'.store ≡ purged) × Attests l l' hash
  unfolding attested_result
  attested_result-Sound l b (err x, l') hash key w sound e = cc
  attested_result-Sound l b (ok r, l') hash key (next, grown, same) sound e =
      let at : r.content_hash ≡ h = next.content ∙ key in
      let own : str_eq r.content_hash h ≡ true = rw at (str_eq_refl h) in
      let after : Sound lib l'.chain.records (attest h r.record_hash l'.store) =
        subst (λ (c : Chain). Sound lib c.records (attest h r.record_hash l'.store)) (sym grown)
          (subst
            (λ (s : ContentStore). Sound lib (l.chain.records ++ r ∷ []) (attest h r.record_hash s))
            (sym same)
            (purged-Sound lib l.chain.records l.store r h r.record_hash m.now reason sound
              next.marked at)) in
      let gone : status h (attest h r.record_hash l'.store) ≡ purged = grind (
        arith,
        same,
        status-attest h r.record_hash l'.store h,
        status-deleted h m.now reason l.store h,
        str_eq_refl h,
      ) in
      let e' : r.record_hash ≡ hash = (let k = rw own at e in ground arith) in
      rw own (
        after,
        gone,
        record {
          rec = r;
          appended = grown;
          of_digest = rw (ap (λ c. str_eq c commitment_purged_v1) next.marked, own) refl;
          named = e';
          row =
              ap (λ k. lookup h (attest h k l'.store).purges) e'
              ∙ attest-row l.store l'.store hash same;
        },
      )

  pub purge-attested :
      (b : Body) (l : Ledger)
      → lookup h l.store.bodies ≡ some b
      → has_key h l.store.purges ≡ false
      → purge lib m h client reason trace digest l
        ≡ attested_result h
            (record_in lib m (purge_entry client reason trace digest b.body) (emptied l))
  unfolding purge
  purge-attested b l found fresh = rw (purge, found, fresh) refl

  -- A purge that neither raises at once nor hits a violated key is the run above.
  pub purge-ok-run :
      (hash : String) (l : Ledger)
      → (purge lib m h client reason trace digest l).0 ≡ ok hash
      → (b : Body) × (lookup h l.store.bodies ≡ some b) × (has_key h l.store.purges ≡ false)
  unfolding purge
  purge-ok-run hash l e = elim (Option-cases (lookup h l.store.bodies)) [
    | inl gone ↦ ground arith
    | inr (b, found) ↦ (b, found, ground arith)
  ]

  -- If the records and the store agree, a purge that succeeds leaves them in agreement; the content cannot be
  -- read again; and the purge is attested: the chain has one record more, of the form of a purge and of the
  -- digest, whose hash the call returns and the row of the purge holds.
  pub purge-Sound :
      (l : Ledger) (hash : String)
      → Sound lib l.chain.records l.store
      → (purge lib m h client reason trace digest l).0 ≡ ok hash
      → let l' = (purge lib m h client reason trace digest l).1 in
        Sound lib l'.chain.records l'.store
        × (open_body h l'.store ≡ err content_purged)
        × Attests l l' hash
  purge-Sound l hash sound e =
      let (b, found, fresh) = purge-ok-run hash l e in
      let (key, _) = All-lookup (IsKept lib) h b l.store.bodies found sound.kept in
      let entry = purge_entry client reason trace digest b.body in
      let out = record_in lib m entry (emptied l) in
      let run = purge-attested b l found fresh in
      let (after, gone, proof) =
        attested_result-Sound l b out hash key (record_in-Written lib m entry (emptied l)) sound
          (ap (λ x. x.0) (sym run) ∙ e) in
      subst
        (λ (x : Result ContentError String × Ledger).
          Sound lib x.1.chain.records x.1.store
          × (open_body h x.1.store ≡ err content_purged)
          × Attests l x.1 hash)
        (sym run) (after, open_body-purged h (attested_result h out).1.store gone, proof)

  abbrev pub Unattested : Ledger → Ledger → Type 0
  Unattested l l' = (l'.chain ≡ l.chain) × (l'.store ≡ deleted h m.now reason l.store)

  attested_result-err :
      (l : Ledger) (b : Body) (out : Result ContentError AuditRecord × Ledger) (x : AuditError)
      → Written lib (purge_entry client reason trace digest b.body) (emptied l) out
      → (attested_result h out).0 ≡ err (chain_error x)
      → Unattested l (attested_result h out).1
  unfolding attested_result
  attested_result-err l b (err y, l') x w e = w
  attested_result-err l b (ok r, l') x w e = ground arith

  purge-err-run :
      (x : AuditError) (l : Ledger)
      → (purge lib m h client reason trace digest l).0 ≡ err (chain_error x)
      → (b : Body) × (lookup h l.store.bodies ≡ some b) × (has_key h l.store.purges ≡ false)
  unfolding purge
  purge-err-run x l e = elim (Option-cases (lookup h l.store.bodies)) [
    | inl gone ↦ ground arith
    | inr (b, found) ↦ (b, found, ground arith)
  ]

  purge-Unattested :
      (x : AuditError) (l : Ledger)
      → (purge lib m h client reason trace digest l).0 ≡ err (chain_error x)
      → (status h l.store ≡ present) × Unattested l (purge lib m h client reason trace digest l).1
  purge-Unattested x l e =
      let (b, found, fresh) = purge-err-run x l e in
      let entry = purge_entry client reason trace digest b.body in
      let run = purge-attested b l found fresh in
      let left =
        attested_result-err l b (record_in lib m entry (emptied l)) x
          (record_in-Written lib m entry (emptied l)) (ap (λ y. y.0) (sym run) ∙ e) in
      let here : status h l.store ≡ present = unfold status in ground arith in
      (here, subst (λ (y : Result ContentError String × Ledger). Unattested l y.1) (sym run) left)

-- Content that was purged cannot be purged again.
pub purge-purged :
    (lib : Library) (m : Moment) (h client reason : String) (trace digest : Option String)
    (l : Ledger)
    → status h l.store ≡ purged
    → purge lib m h client reason trace digest l ≡ (err content_purged, l)
unfolding purge status
purge-purged lib m h client reason trace digest l gone = ground arith

-- If the records and the store agree and some record claims the content, a purge whose record the chain
-- refuses has deleted the content for good, without an attestation: `reconcile` reports it, and a second
-- purge, at any moment and for any reason, raises and changes nothing.
pub purge-unattested :
    (lib : Library) (m again : Moment) (h client reason client' reason' : String)
    (trace digest : Option String) (x : AuditError) (l : Ledger)
    → Sound lib l.chain.records l.store
    → claimed l.chain.records h ≡ true
    → (purge lib m h client reason trace digest l).0 ≡ err (chain_error x)
    → let l' = (purge lib m h client reason trace digest l).1 in
      (open_body h l'.store ≡ err content_purged)
      × ((reconcile l'.chain.records l'.store).findings ≢ [])
      × (purge lib again h client' reason' trace digest l' ≡ (err content_purged, l'))
purge-unattested lib m again h client reason client' reason' trace digest x l sound c e =
    let l' = (purge lib m h client reason trace digest l).1 in
    let (here, (still, now_)) = purge-Unattested lib m h client reason trace digest x l e in
    let none_attested : attested l.chain.records h ≡ false = ground (arith, sound.agrees h) in
    let gone : status h l'.store ≡ purged =
      ap (status h) now_
      ∙ (status-deleted h m.now reason l.store h
          ∙ ap (λ b. if b then purged else status h l.store) (str_eq_refl h)) in
    (
      open_body-purged h l'.store gone,
      unattested-reconcile l'.chain.records l'.store h
          (ap (λ (c : Chain). claimed c.records h) still ∙ c)
          (ap (λ (c : Chain). attested c.records h) still ∙ none_attested) gone,
      purge-purged lib again h client' reason' trace digest l' gone,
    )
