-- ===== src/Audit/Chain/Restart.antt =====
-- custos/audit.py: reopening the table for one tenant.
use custos_core.Common.{
  ◌++◌, String, ◌≡◌, refl, some, List, [], ◌∷◌, arith, ok, err, eq_iff, str_eq, str_eq_refl, ◌≢◌,
  Result, if◌then◌else◌,
}
use custos_core.Audit.Record.{AuditRecord, AuditError, Library}
use custos_core.Audit.Store.{
  BackendKind, in_memory, sqlite, postgresql, rows_of, load_all, coalesce,
}
use custos_core.Audit.Chain.{Chain, Entry, Moment, record_entry, open_chain}
use custos_core.Audit.Chain.Integrity.{Appends, rows_after, record_entry-Appends}
use custos_core.Audit.Chain.Isolation.{IsDurable, tenant_of_scope}

rows_of-append :
    (t : String) (rows : List AuditRecord) (r : AuditRecord)
    → rows_of t (rows ++ r ∷ [])
      ≡ (if str_eq (coalesce r.tenant_id) t then rows_of t rows ++ r ∷ [] else rows_of t rows)
unfolding rows_of
rows_of-append t [] r = ground arith
rows_of-append t (s ∷ rows) r = ground (arith, rows_of-append t rows r)

-- A chain scoped to a tenant that is what its backend would load for that tenant.
abbrev pub InSync : String → Chain → List AuditRecord → Type 0
InSync t c rows = open_chain c.backend (some t) rows ≡ ok c

load_all-rows_after :
    (t : String) (kind : BackendKind) (rows : List AuditRecord) (r : AuditRecord)
    → IsDurable kind
    → load_all kind (some t) (rows_after kind rows r) ≡ (
        if str_eq (coalesce r.tenant_id) t
        then load_all kind (some t) rows ++ r ∷ []
        else load_all kind (some t) rows)
unfolding load_all
load_all-rows_after t in_memory rows r d = absurd (d refl)
load_all-rows_after t sqlite rows r d = rows_of-append t rows r
load_all-rows_after t postgresql rows r d = rows_of-append t rows r

load_all-own :
    (t : String) (kind : BackendKind) (rows : List AuditRecord) (r : AuditRecord)
    → IsDurable kind
    → r.tenant_id ≡ some t
    → load_all kind (some t) (rows_after kind rows r) ≡ load_all kind (some t) rows ++ r ∷ []
load_all-own t kind rows r d own = rw (load_all-rows_after t kind rows r d, own, str_eq_refl t)

module _ (lib : Library) (e : Entry) (t : String) (c : Chain) (rows : List AuditRecord) where
  Appends-InSync :
      (r : Result AuditError AuditRecord) (c' : Chain) (rows' : List AuditRecord)
      → IsDurable c.backend
      → Appends lib e c rows (r, c', rows')
      → InSync t c rows
      → InSync t c' rows'
  unfolding open_chain
  Appends-InSync (ok r) c' rows' d (n, eq, after, _) h =
      let scope : c.tenant_id ≡ some t = ground arith in
      let loaded : c.records ≡ load_all c.backend (some t) rows = ground arith in
      let own = tenant_of_scope t e.tenant_id r.tenant_id (rw scope at n.tenant) in
      rw (eq, after) (cc (load_all-own t c.backend rows r d own, loaded, scope))
  Appends-InSync (err x) c' rows' d (eq, after) h = rw (eq, after) h

-- A restart loses nothing: if reopening the table for a tenant gives the chain that is in memory, then
-- after any call of `record` on that chain reopening gives the chain that the call left.
pub record_entry-open_chain :
    (lib : Library) (m : Moment) (e : Entry) (t : String) (c : Chain) (rows : List AuditRecord)
    → IsDurable c.backend
    → InSync t c rows
    → let (_, c', rows') = record_entry lib m e c rows in InSync t c' rows'
record_entry-open_chain lib m e t c rows d h =
    let (r, c', rows') = record_entry lib m e c rows in
    Appends-InSync lib e t c rows r c' rows' d (record_entry-Appends lib m e c rows) h

load_all-other :
    (t u : String) (kind : BackendKind) (rows : List AuditRecord) (r : AuditRecord)
    → IsDurable kind
    → u ≢ t
    → r.tenant_id ≡ some u
    → load_all kind (some t) (rows_after kind rows r) ≡ load_all kind (some t) rows
load_all-other t u kind rows r d ne own =
    rw (load_all-rows_after t kind rows r d, own) (ground (arith, eq_iff u t))

module _ (lib : Library) (e : Entry) (t u : String) (c : Chain) (rows : List AuditRecord) where
  Appends-other :
      (r : Result AuditError AuditRecord) (c' : Chain) (rows' : List AuditRecord)
      → IsDurable c.backend
      → u ≢ t
      → c.tenant_id ≡ some u
      → Appends lib e c rows (r, c', rows')
      → open_chain c.backend (some t) rows' ≡ open_chain c.backend (some t) rows
  unfolding open_chain
  Appends-other (ok r) c' rows' d ne scope (n, eq, after, _) =
      let own = tenant_of_scope u e.tenant_id r.tenant_id (rw scope at n.tenant) in
      rw after (cc (load_all-other t u c.backend rows r d ne own))
  Appends-other (err x) c' rows' d ne scope (_, after) = rw after

-- What a chain of one tenant does to a shared table is not seen by the chain of another tenant.
pub record_entry-other_tenant :
    (lib : Library) (m : Moment) (e : Entry) (t u : String) (c : Chain) (rows : List AuditRecord)
    → IsDurable c.backend
    → u ≢ t
    → c.tenant_id ≡ some u
    → open_chain c.backend (some t) (record_entry lib m e c rows).2
      ≡ open_chain c.backend (some t) rows
record_entry-other_tenant lib m e t u c rows d ne scope =
    let (r, c', rows') = record_entry lib m e c rows in
    Appends-other lib e t u c rows r c' rows' d ne scope (record_entry-Appends lib m e c rows)
