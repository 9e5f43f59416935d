-- ===== src/Audit/Chain/Isolation.antt =====
-- custos/audit.py: one table under several chains, and what the unique index does there.
use custos_core.Common.{
  ◌++◌, String, ◌≡◌, refl, subst, true, false, none, some, List, [], ◌∷◌, arith, ok, err, eq_iff,
  str_eq_refl, ◌≢◌, ◌∙◌, ◌||◌, Option, Result, sym, ap,
}
use mathlib.Core.Bool.{or-false, or_assoc}
use custos_core.Audit.Record.{AuditRecord, AuditError, chain_fork, Library}
use custos_core.Audit.Store.{
  BackendKind, in_memory, sqlite, postgresql, key_taken, insert_row, save, coalesce, same_key,
  sqlite_error, postgresql_error,
}
use custos_core.Audit.Chain.{
  Chain, Entry, Moment, latest_hash, resolve_tenant, new_record, record_entry,
}
use custos_core.Audit.Chain.Appends.{new_record-IsNext}
use custos_core.Audit.Chain.Integrity.{Appends, Fresh, rows_after, record_entry-Appends}

-- No two rows claim one predecessor within one tenant.
abbrev pub NoFork : List AuditRecord → Type 0
NoFork [] = Unit
NoFork (r ∷ rows) = (key_taken r rows ≡ false) × NoFork rows

same_key_comm : (r s : AuditRecord) → same_key r s ≡ same_key s r
unfolding same_key
same_key_comm r s = ground (
  arith,
  eq_iff (coalesce r.tenant_id) (coalesce s.tenant_id),
  eq_iff (coalesce s.tenant_id) (coalesce r.tenant_id),
  eq_iff r.previous_hash s.previous_hash,
  eq_iff s.previous_hash r.previous_hash,
)

key_taken-append :
    (r s : AuditRecord) (rows : List AuditRecord)
    → key_taken r (rows ++ s ∷ []) ≡ (key_taken r rows || same_key s r)
unfolding key_taken
key_taken-append r s [] = or-false (same_key s r)
key_taken-append r s (t ∷ rows) =
    ap (◌||◌ (same_key t r)) (key_taken-append r s rows)
    ∙ sym (or_assoc (same_key t r) (key_taken r rows) (same_key s r))

NoFork-append :
    (rows : List AuditRecord) (s : AuditRecord)
    → NoFork rows
    → key_taken s rows ≡ false
    → NoFork (rows ++ s ∷ [])
unfolding key_taken
NoFork-append [] s h k = (refl, tt)
NoFork-append (r ∷ rows) s h k = (
  rw key_taken-append (ground (arith, same_key_comm r s, h.0)),
  NoFork-append rows s h.1 (ground arith),
)

after-NoFork :
    (kind : BackendKind) (rows : List AuditRecord) (r : AuditRecord)
    → Fresh kind rows r
    → NoFork rows
    → NoFork (rows_after kind rows r)
after-NoFork in_memory rows r f h = h
after-NoFork sqlite rows r f h = NoFork-append rows r h f
after-NoFork postgresql rows r f h = NoFork-append rows r h f

module _ (lib : Library) (e : Entry) (c : Chain) (rows : List AuditRecord) where
  Appends-NoFork :
      (r : Result AuditError AuditRecord) (c' : Chain) (rows' : List AuditRecord)
      → Appends lib e c rows (r, c', rows')
      → NoFork rows
      → NoFork rows'
  Appends-NoFork (ok r) c' rows' (_, _, eq, fresh) h = rw eq (after-NoFork c.backend rows r fresh h)
  Appends-NoFork (err x) c' rows' (_, eq) h = rw eq h

-- Whichever chain writes, with whatever arguments and faults, a table in which no two rows claim one
-- predecessor within one tenant stays so.
pub record_entry-NoFork :
    (lib : Library) (m : Moment) (e : Entry) (c : Chain) (rows : List AuditRecord)
    → NoFork rows
    → NoFork (record_entry lib m e c rows).2
record_entry-NoFork lib m e c rows h =
    let (r, c', rows') = record_entry lib m e c rows in
    Appends-NoFork lib e c rows r c' rows' (record_entry-Appends lib m e c rows) h

pub tenant_of_scope :
    (t : String) (given : Option String) (tenant : Option String)
    → resolve_tenant (some t) given ≡ ok tenant
    → tenant ≡ some t
unfolding resolve_tenant
tenant_of_scope t none tenant h = ground arith
tenant_of_scope t (some u) tenant h = ground (arith, eq_iff u t)

abbrev pub IsDurable : BackendKind → Type 0
IsDurable kind = kind ≢ in_memory

-- A row just stored takes the key of every record with its tenant and predecessor.
key_taken-after :
    (kind : BackendKind) (rows : List AuditRecord) (r s : AuditRecord)
    → IsDurable kind
    → r.tenant_id ≡ s.tenant_id
    → r.previous_hash ≡ s.previous_hash
    → key_taken s (rows_after kind rows r) ≡ true
unfolding same_key
key_taken-after in_memory rows r s d t p = absurd (d refl)
key_taken-after sqlite rows r s d t p =
    rw (key_taken-append s r rows, t, p)
      (ground (arith, str_eq_refl (coalesce s.tenant_id), str_eq_refl s.previous_hash))
key_taken-after postgresql rows r s d t p =
    rw (key_taken-append s r rows, t, p)
      (ground (arith, str_eq_refl (coalesce s.tenant_id), str_eq_refl s.previous_hash))

save-taken :
    (kind : BackendKind) (lib : Library) (r : AuditRecord) (rows : List AuditRecord)
    → IsDurable kind
    → key_taken r rows ≡ true
    → save kind lib none r rows ≡ err chain_fork
unfolding save insert_row sqlite_error postgresql_error
save-taken in_memory lib r rows d h = absurd (d refl)
save-taken sqlite lib r rows d h = rw h
save-taken postgresql lib r rows d h = ground arith

-- Two chains of one tenant stand at the same head of one durable table. Once the first has recorded,
-- a record of the second that passes the second's own checks, and meets no other fault, is refused
-- as a fork, and changes neither the second chain nor the table.
pub record_entry-chain_fork :
    (lib : Library) (m n : Moment) (e f : Entry) (t : String) (a b a' : Chain) (r s : AuditRecord)
    (rows rows' : List AuditRecord)
    → a.tenant_id ≡ some t
    → b.tenant_id ≡ some t
    → IsDurable a.backend
    → IsDurable b.backend
    → latest_hash a ≡ latest_hash b
    → record_entry lib m e a rows ≡ (ok r, a', rows')
    → new_record lib n f b ≡ ok s
    → n.fault ≡ none
    → record_entry lib n f b rows' ≡ (err chain_fork, b, rows')
unfolding record_entry
record_entry-chain_fork lib m n e f t a b a' r s rows rows' ta tb da db same first next quiet =
    let (nr, _, after, _) =
      subst (Appends lib e a rows) first (record_entry-Appends lib m e a rows) in
    let ns = new_record-IsNext lib n f b s next in
    let tr = tenant_of_scope t e.tenant_id r.tenant_id (rw ta at nr.tenant) in
    let ts = tenant_of_scope t f.tenant_id s.tenant_id (rw tb at ns.tenant) in
    let taken =
      key_taken-after a.backend rows r s da (tr ∙ sym ts) (nr.link ∙ same ∙ sym ns.link) in
    rw next (rw (quiet, save-taken b.backend lib s rows' db (rw after taken)))
