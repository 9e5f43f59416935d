-- ===== src/Retention/Forgotten.antt =====
-- custos/retention.py: no operation but `put_legacy` stores purged content again.
use custos_core.Common.{
  ℕ, String, ◌≡◌, refl, ◌∙◌, Option, List, [], ◌∷◌, arith, eq_iff, str_eq_refl, inl, inr,
  Bool-cases, Option-cases, Result, ok, err,
}
use custos_core.Common.Dict.{lookup, has_key, lookup-insert}
use custos_core.Audit.Record.{AuditRecord, Library}
use custos_core.Audit.Chain.{Entry, Moment}
use custos_core.Retention.{
  ContentStore, ContentError, content_purged, purge_refused, integrity_error, not_attributable,
  config_refused, chain_error, purged, status, open_body, put, put_legacy, unsalted_body,
}
use custos_core.Retention.Decision.{
  Ledger, Retention, off, store_mode, refused_mode, record_in, record_stored, put_and_record,
  or_unretained, record_decision, purge_entry, deleted, attested_result, purge,
}
use custos_core.Retention.Erasure.{
  purge-attested, purge-purged, status-deleted, status-attest, open_body-purged,
}

record_in-store :
    (lib : Library) (m : Moment) (e : Entry) (l : Ledger) → (record_in lib m e l).1.store ≡ l.store
unfolding record_in
record_in-store lib m e l = refl

attested_result-status :
    (h k : String) (out : Result ContentError AuditRecord × Ledger)
    → status k (attested_result h out).1.store ≡ status k out.1.store
unfolding attested_result
attested_result-status h k (err x, l) = refl
attested_result-status h k (ok r, l) = grind (arith, status-attest h r.record_hash l.store k)

-- The operations of the store, but `put_legacy`.
pub data Call : Type 0 where
  put_call : (salt : String) → (now : ℕ) → (body : String) → Call
  decide_call : Moment → (salt : String) → Retention → Entry → Call
  purge_call : Moment → (h client reason : String) → (trace digest : Option String) → Call

abbrev stored_or : Ledger → Result ContentError ContentStore → Ledger
stored_or l (ok s) = record l { store = s }
stored_or l (err x) = l

abbrev pub call : Library → Call → Ledger → Ledger
call lib (put_call salt now body) l = stored_or l (put lib salt now body l.store)
call lib (decide_call m salt mode e) l = (record_decision lib m salt mode e l).1
call lib (purge_call m h client reason trace digest) l =
    (purge lib m h client reason trace digest l).1

abbrev pub calls : Library → List Call → Ledger → Ledger
calls lib [] l = l
calls lib (c ∷ cs) l = calls lib cs (call lib c l)

put-purged :
    (lib : Library) (salt : String) (now : ℕ) (body k : String) (l : Ledger)
    → status k l.store ≡ purged
    → status k (stored_or l (put lib salt now body l.store)).store ≡ purged
unfolding put status
put-purged lib salt now body k l gone = grind (arith, lookup-insert, eq_iff (lib.sha256 body) k)

or_unretained-purged :
    (lib : Library) (m : Moment) (e : Entry) (l : Ledger) (k : String)
    (out : Result ContentError AuditRecord × Ledger)
    → status k l.store ≡ purged
    → status k out.1.store ≡ purged
    → status k (or_unretained lib m e l out).1.store ≡ purged
unfolding record_in
or_unretained-purged lib m e l k (err content_purged, l') gone after = gone
or_unretained-purged lib m e l k (err purge_refused, l') gone after = after
or_unretained-purged lib m e l k (err integrity_error, l') gone after = after
or_unretained-purged lib m e l k (err not_attributable, l') gone after = after
or_unretained-purged lib m e l k (err config_refused, l') gone after = after
or_unretained-purged lib m e l k (err (chain_error x), l') gone after = after
or_unretained-purged lib m e l k (ok r, l') gone after = after

record_stored-purged :
    (lib : Library) (m : Moment) (e : Entry) (l : Ledger) (k : String)
    (s : Result ContentError ContentStore)
    → status k (stored_or l s).store ≡ purged
    → status k (record_stored lib m e s l).1.store ≡ purged
unfolding record_stored record_in
record_stored-purged lib m e l k (ok s) after = after
record_stored-purged lib m e l k (err x) after = after

record_decision-purged :
    (lib : Library) (m : Moment) (salt : String) (mode : Retention) (e : Entry) (l : Ledger)
    (k : String)
    → status k l.store ≡ purged
    → status k (record_decision lib m salt mode e l).1.store ≡ purged
unfolding record_decision put_and_record record_in
record_decision-purged lib m salt off e l k gone = gone
record_decision-purged lib m salt refused_mode e l k gone = gone
record_decision-purged lib m salt store_mode e l k gone =
    or_unretained-purged lib m e l k _ gone
      (record_stored-purged lib m e l k _ (put-purged lib salt m.now e.content k l gone))

purge-keeps_purged :
    (lib : Library) (m : Moment) (h client reason : String) (trace digest : Option String)
    (k : String) (l : Ledger)
    → status k l.store ≡ purged
    → status k (purge lib m h client reason trace digest l).1.store ≡ purged
unfolding purge record_in
purge-keeps_purged lib m h client reason trace digest k l gone =
    elim (Option-cases (lookup h l.store.bodies)) [
      | inl none_here ↦ rw (purge, none_here) gone
      | inr (b, found) ↦ elim (Bool-cases (has_key h l.store.purges)) [
        | inl again ↦ rw (purge, found, again) gone
        | inr fresh ↦
            let out =
              record_in lib m (purge_entry client reason trace digest b.body)
                (record l { store = deleted h m.now reason l.store }) in
            let gone' : status k (deleted h m.now reason l.store) ≡ purged =
              ground (arith, status-deleted h m.now reason l.store k) in
            rw (purge-attested lib m h client reason trace digest b l found fresh)
              (attested_result-status h k out ∙ gone')
      ]
    ]

call-purged :
    (lib : Library) (c : Call) (k : String) (l : Ledger)
    → status k l.store ≡ purged
    → status k (call lib c l).store ≡ purged
call-purged lib (put_call salt now body) k l gone = put-purged lib salt now body k l gone
call-purged lib (decide_call m salt mode e) k l gone =
    record_decision-purged lib m salt mode e l k gone
call-purged lib (purge_call m h client reason trace digest) k l gone =
    purge-keeps_purged lib m h client reason trace digest k l gone

calls-purged :
    (lib : Library) (cs : List Call) (k : String) (l : Ledger)
    → status k l.store ≡ purged
    → status k (calls lib cs l).store ≡ purged
calls-purged lib [] k l gone = gone
calls-purged lib (c ∷ cs) k l gone =
    calls-purged lib cs k (call lib c l) (call-purged lib c k l gone)

-- Once content has been purged, no sequence of `put`, `record_decision` and `purge` calls, of any content,
-- makes it readable: opening it raises `ContentPurged`, and so does another purge, which changes nothing.
pub calls-forgotten :
    (lib : Library) (cs : List Call) (m : Moment) (h client reason : String)
    (trace digest : Option String) (l : Ledger)
    → status h l.store ≡ purged
    → let l' = calls lib cs l in
      (open_body h l'.store ≡ err content_purged)
      × (purge lib m h client reason trace digest l' ≡ (err content_purged, l'))
calls-forgotten lib cs m h client reason trace digest l gone =
    let after = calls-purged lib cs h l gone in
    (
      open_body-purged h (calls lib cs l).store after,
      purge-purged lib m h client reason trace digest (calls lib cs l) after,
    )

-- If content has been purged, `put_legacy` of the same bytes stores them again: they are readable, and a
-- further purge, at any moment, violates the key of the purges and leaves them readable.
pub put_legacy-undoes_purge :
    (lib : Library) (now : ℕ) (body : String) (m : Moment) (client reason : String)
    (trace digest : Option String) (l : Ledger)
    → status (lib.sha256 body) l.store ≡ purged
    → let l' : Ledger = record l { store = put_legacy lib now body l.store } in
      (open_body (lib.sha256 body) l'.store ≡ ok body)
      × (purge lib m (lib.sha256 body) client reason trace digest l' ≡ (err integrity_error, l'))
unfolding put_legacy status open_body purge unsalted_body
put_legacy-undoes_purge lib now body m client reason trace digest l gone =
    grind (arith, lookup-insert, str_eq_refl (lib.sha256 body))
