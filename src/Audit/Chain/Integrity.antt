-- ===== src/Audit/Chain/Integrity.antt =====
-- custos/audit.py: what an append does to the chain and to the table, and that the chain verifies.
use custos_core.Common.{
  ◌++◌, ◌+◌, ℕ, String, ◌≡◌, refl, true, false, List, [], ◌∷◌, arith, Result, ok, err,
}
use custos_core.Audit.Record.{AuditRecord, AuditError, Library}
use custos_core.Audit.Store.{
  BackendKind, in_memory, sqlite, postgresql, save, insert_row, key_taken,
}
use custos_core.Audit.Chain.{
  Chain, Entry, Moment, genesis_hash, latest_hash, new_record, record_entry, appended, persist,
  verified, verify_from, verify_records, verify, is_ok,
}
use custos_core.Audit.Chain.Appends.{IsNext, new_record-IsNext, verify_from-append}

-- The table after a successful save: a durable backend holds one row more.
abbrev pub rows_after : BackendKind → List AuditRecord → AuditRecord → List AuditRecord
rows_after in_memory rows r = rows
rows_after _ rows r = rows ++ r ∷ []

-- A durable backend accepts a row only under a key that no row holds.
abbrev pub Fresh : BackendKind → List AuditRecord → AuditRecord → Type 0
Fresh in_memory rows r = Unit
Fresh _ rows r = key_taken r rows ≡ false

-- A call appends its record to the chain and to the table, or raises and changes neither.
abbrev pub Appends :
    Library
    → Entry
    → Chain
    → List AuditRecord
    → Result AuditError AuditRecord × Chain × List AuditRecord
    → Type 0
Appends lib e c rows (ok r, c', rows') =
    IsNext lib e c r
    × (c' ≡ record c { records = c.records ++ r ∷ [] })
    × (rows' ≡ rows_after c.backend rows r)
    × Fresh c.backend rows r
Appends lib e c rows (err _, c', rows') = (c' ≡ c) × (rows' ≡ rows)

module _ (lib : Library) (m : Moment) where
  pub save-rows_after :
      (kind : BackendKind) (r : AuditRecord) (rows rows' : List AuditRecord)
      → save kind lib m.fault r rows ≡ ok rows'
      → (rows' ≡ rows_after kind rows r) × Fresh kind rows r
  unfolding save insert_row
  save-rows_after in_memory r rows rows' h = ground arith
  save-rows_after sqlite r rows rows' h = ground arith
  save-rows_after postgresql r rows rows' h = ground arith

  module _ (e : Entry) (c : Chain) (rows : List AuditRecord) where
    appended-Appends :
        (r : AuditRecord) (s : Result AuditError (List AuditRecord))
        → IsNext lib e c r
        → save c.backend lib m.fault r rows ≡ s
        → Appends lib e c rows (appended c r rows s)
    appended-Appends r (ok rows') n h =
        let (after, fresh) = save-rows_after c.backend r rows rows' h in (n, refl, after, fresh)
    appended-Appends r (err x) n h = (refl, refl)

    persist-Appends :
        (p : Result AuditError AuditRecord)
        → new_record lib m e c ≡ p
        → Appends lib e c rows (persist lib m c rows p)
    persist-Appends (ok r) h = appended-Appends r _ (new_record-IsNext lib m e c r h) refl
    persist-Appends (err x) h = (refl, refl)

    -- A call of `record` appends one record, which links to the latest hash, carries its own hash,
    -- the arguments and the tenant of the chain, to the chain and to a durable table, in which no row
    -- claimed its predecessor for its tenant; or it raises and leaves both as they were.
    pub record_entry-Appends : Appends lib e c rows (record_entry lib m e c rows)
    unfolding record_entry
    record_entry-Appends = persist-Appends (new_record lib m e c) refl

verify_from-verified :
    (lib : Library) (i : ℕ) (p : String) (rs : List AuditRecord)
    → is_ok (verify_from lib i p rs) ≡ true
    → verify_from lib i p rs ≡ verified
unfolding verify_from
verify_from-verified lib i p [] h = refl
verify_from-verified lib i p (r ∷ rs) h =
    ground (arith, verify_from-verified lib (i + 1) r.record_hash rs)

-- For a chain that is not empty `verify` is its loop from the genesis hash; so it is for an empty one
-- that gets a record.
pub verify_records-verified :
    (lib : Library) (rs : List AuditRecord)
    → is_ok (verify_records lib rs) ≡ true
    → verify_from lib 0 genesis_hash rs ≡ verified
unfolding verify_records
verify_records-verified lib [] h = refl
verify_records-verified lib (r ∷ rs) h = verify_from-verified lib 0 genesis_hash (r ∷ rs) h

pub verified-verify_records :
    (lib : Library) (rs : List AuditRecord)
    → verify_from lib 0 genesis_hash rs ≡ verified
    → is_ok (verify_records lib rs) ≡ true
unfolding verify_records
verified-verify_records lib [] h = refl
verified-verify_records lib (r ∷ rs) h = rw h

verify-append :
    (lib : Library) (e : Entry) (c : Chain) (r : AuditRecord)
    → IsNext lib e c r
    → is_ok (verify_records lib c.records) ≡ true
    → is_ok (verify_records lib (c.records ++ r ∷ [])) ≡ true
unfolding latest_hash
verify-append lib e c r n h = verified-verify_records lib (c.records ++ r ∷ []) (
    verify_from-append lib 0 genesis_hash c.records r (verify_records-verified lib c.records h)
      n.link n.version n.hashed)

keeps :
    (lib : Library) (e : Entry) (c : Chain) (rows : List AuditRecord)
    (r : Result AuditError AuditRecord) (c' : Chain) (rows' : List AuditRecord)
    → Appends lib e c rows (r, c', rows')
    → is_ok (verify lib c) ≡ true
    → is_ok (verify lib c') ≡ true
unfolding verify
keeps lib e c rows (ok r) c' rows' (n, eq, _, _) h = rw eq (verify-append lib e c r n h)
keeps lib e c rows (err x) c' rows' (eq, _) h = rw eq h

-- A chain that verifies verifies after any call of `record`, whether it returns or raises.
pub record_entry-verify :
    (lib : Library) (m : Moment) (e : Entry) (c : Chain) (rows : List AuditRecord)
    → is_ok (verify lib c) ≡ true
    → is_ok (verify lib (record_entry lib m e c rows).1) ≡ true
record_entry-verify lib m e c rows h =
    let (r, c', rows') = record_entry lib m e c rows in
    keeps lib e c rows r c' rows' (record_entry-Appends lib m e c rows) h
