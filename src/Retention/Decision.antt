-- ===== src/Retention/Decision.antt =====
-- custos/retention.py: recording a decision with or without its content, and purging content.
use custos_core.Common.{
  ℕ, String, Bool, false, Option, none, some, List, str_eq, Result, ok, err, if◌then◌else◌,
}
use custos_core.Common.Dict.{lookup, insert, erase, has_key}
use custos_core.Audit.Record.{
  Library, AuditRecord, AuditError, commitment_none, commitment_purged_v1,
}
use custos_core.Audit.Chain.{Chain, Entry, Moment, record_entry}
use custos_core.Retention.{
  ContentStore, ContentError, content_purged, integrity_error, not_attributable, config_refused,
  chain_error, put, put_legacy, commitment_form, absent,
}

-- A chain, the table that it is kept in, and the content store beside it.
pub record Ledger : Type 0 where
  pub chain : Chain
  pub rows : List AuditRecord
  pub store : ContentStore

abbrev pub chain_result : Result AuditError AuditRecord → Result ContentError AuditRecord
chain_result (ok r) = ok r
chain_result (err e) = err (chain_error e)

-- `chain.record`, in a ledger.
unfoldable pub record_in :
    Library → Moment → Entry → Ledger → Result ContentError AuditRecord × Ledger
record_in lib m e l =
    let (r, c, rows) = record_entry lib m e l.chain l.rows in
    (chain_result r, record l { chain = c; rows = rows })

-- The end of `put_and_record`, after the body is stored.
unfoldable pub record_stored :
    Library
    → Moment
    → Entry
    → Result ContentError ContentStore
    → Ledger
    → Result ContentError AuditRecord × Ledger
record_stored lib m e (err x) l = (err x, l)
record_stored lib m e (ok s) l =
    let form = commitment_form (lib.sha256 e.content) s in
    record_in lib m (record e { commitment = form }) (record l { store = s })

-- `put_and_record`; the entry's commitment is not used.
unfoldable pub put_and_record :
    Library
    → Moment
    → (salt : String) → (legacy : Bool) → Entry
    → Ledger
    → Result ContentError AuditRecord × Ledger
put_and_record lib m salt legacy e l =
    record_stored lib m e
      (if legacy
        then ok (put_legacy lib m.now e.content l.store)
        else put lib salt m.now e.content l.store)
      l

-- What the configuration selects for the tenant: no store, a store, or a refusal to resolve one.
pub data Retention : Type 0 where
  off store_mode refused_mode : Retention

abbrev pub unretained : Entry → Entry
unretained e = record e { commitment = commitment_none }

abbrev pub or_unretained :
    Library
    → Moment
    → Entry
    → Ledger
    → Result ContentError AuditRecord × Ledger
    → Result ContentError AuditRecord × Ledger
or_unretained lib m e l (err content_purged, _) = record_in lib m (unretained e) l
or_unretained lib m e l out = out

-- `record_decision`, for a tenant that is resolved.
unfoldable pub record_decision :
    Library
    → Moment
    → (salt : String) → Retention
    → Entry
    → Ledger
    → Result ContentError AuditRecord × Ledger
record_decision lib m salt off e l = record_in lib m (unretained e) l
record_decision lib m salt refused_mode e l = (err config_refused, l)
record_decision lib m salt store_mode e l =
    or_unretained lib m e l (put_and_record lib m salt false e l)

abbrev pub purge_entry :
    (client reason : String) → (trace digest : Option String) → (body : String) → Entry
purge_entry client reason trace digest body = record {
  client_id = client;
  action = "PURGE";
  reason = reason;
  content = body;
  triggered_rule = some "retention.purge";
  trace_id = trace;
  policy_digest = digest;
  tenant_id = none;
  commitment = commitment_purged_v1;
}

abbrev pub deleted : String → ℕ → String → ContentStore → ContentStore
deleted h now reason s = record {
  bodies = erase h s.bodies;
  purges = insert h (record { purged_at = now; reason = reason; attestation_hash = none }) s.purges;
}

-- `UPDATE purges SET attestation_hash = …`
unfoldable pub attest : String → String → ContentStore → ContentStore
attest h hash s = elim (lookup h s.purges) [
  | none ↦ s
  | some p ↦ record s { purges = insert h (record p { attestation_hash = some hash }) s.purges }
]

unfoldable pub attested_result :
    String → Result ContentError AuditRecord × Ledger → Result ContentError String × Ledger
unfolding attest
attested_result h (err x, l) = (err x, l)
attested_result h (ok r, l) =
    if str_eq r.content_hash h
    then (ok r.record_hash, record l { store = attest h r.record_hash l.store })
    else (err not_attributable, l)

-- `ContentStore.purge`: deletes, then attests. The purge row is inserted in the transaction of the
-- deletion, which a violated key rolls back.
unfoldable pub purge :
    Library
    → Moment
    → (h client reason : String) → (trace digest : Option String) → Ledger
    → Result ContentError String × Ledger
purge lib m h client reason trace digest l = elim (lookup h l.store.bodies) [
  | none ↦ (err (absent h l.store), l)
  | some b ↦
      if has_key h l.store.purges
      then (err integrity_error, l)
      else attested_result h (
          record_in lib m (purge_entry client reason trace digest b.body)
            (record l { store = deleted h m.now reason l.store }))
]
