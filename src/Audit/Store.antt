-- ===== src/Audit/Store.antt =====
-- custos/audit.py: the storage backends. A table is the list of its rows in the order of their ids;
-- the unique index over (COALESCE(tenant_id, ''), previous_hash) is the one that `_init` creates.
-- SQLite and PostgreSQL are not part of the source: what else may go wrong in an INSERT is the
-- environment's choice, an exception with a type name, an SQLSTATE and a message.
use text.Mathlib.Text.{find?}
use custos_core.Common.{
  ◌++◌, String, Bool, true, false, ◌&&◌, ◌||◌, Option, none, some, List, [], ◌∷◌, Result, ok, err,
  str_eq, contains, is_truthy, if◌then◌else◌,
}
use custos_core.Audit.Record.{
  AuditRecord, AuditError, chain_fork, audit_store_full, store_error, Library,
}

pub data BackendKind : Type 0 where
  in_memory sqlite postgresql : BackendKind

pub record SqlException : Type 0 where
  pub type_name : String
  pub sqlstate : Option String
  pub message : String

-- `fragment in text`
abbrev pub has_fragment : String → String → Bool
has_fragment s fragment = elim (find? s fragment) [ none ↦ false | some _ ↦ true ]

-- `any(fragment in text for fragment in fragments)`
pub any_fragment : List String → String → Bool
any_fragment [] s = false
any_fragment (f ∷ fs) s = has_fragment s f || any_fragment fs s

abbrev pub full_store_sqlstates : List String
full_store_sqlstates = "53100" ∷ "53200" ∷ []

abbrev pub full_store_text : List String
full_store_text =
    "database or disk is full" ∷ "no space left on device" ∷ "disk full" ∷ "could not extend file"
    ∷ "insufficient space" ∷ []

abbrev sqlstate_is_full : Option String → Bool
sqlstate_is_full none = false
sqlstate_is_full (some code) = is_truthy (some code) && contains full_store_sqlstates code

unfoldable pub is_full_store_error : Library → SqlException → Bool
unfolding any_fragment
is_full_store_error lib exc =
    if sqlstate_is_full exc.sqlstate
    then true
    else any_fragment full_store_text (lib.lower exc.message)

abbrev pub coalesce : Option String → String
coalesce none = ""
coalesce (some s) = s

-- The key of a row in the unique index.
unfoldable pub same_key : AuditRecord → AuditRecord → Bool
same_key r s =
    str_eq (coalesce r.tenant_id) (coalesce s.tenant_id) && str_eq r.previous_hash s.previous_hash

unfoldable pub key_taken : AuditRecord → List AuditRecord → Bool
key_taken r [] = false
key_taken r (s ∷ rows) = same_key s r || key_taken r rows

-- How an INSERT ends: the new table, or an exception.
pub data Inserted : Type 0 where
  stored : List AuditRecord → Inserted
  refused : SqlException → Inserted

-- What the two engines raise on a violation of the unique index.
abbrev pub violation : BackendKind → SqlException
violation postgresql = record {
  type_name = "UniqueViolation";
  sqlstate = some "23505";
  message = "duplicate key value violates unique constraint";
}
violation _ = record {
  type_name = "IntegrityError";
  sqlstate = none;
  message = "UNIQUE constraint failed";
}

unfoldable pub insert_row :
    BackendKind → Option SqlException → AuditRecord → List AuditRecord → Inserted
unfolding key_taken
insert_row kind (some fault) r rows = refused fault
insert_row kind none r rows =
    if key_taken r rows then refused (violation kind) else stored (rows ++ r ∷ [])

-- `except sqlite3.IntegrityError`, then `except sqlite3.OperationalError`.
unfoldable pub sqlite_error : Library → SqlException → AuditError
unfolding is_full_store_error
sqlite_error lib exc =
    if str_eq exc.type_name "IntegrityError"
    then chain_fork
    else if str_eq exc.type_name "OperationalError" && is_full_store_error lib exc
    then audit_store_full
    else store_error

unfoldable pub postgresql_error : Library → SqlException → AuditError
unfolding is_full_store_error
postgresql_error lib exc =
    if has_fragment (lib.lower exc.message) "duplicate key"
      || contains ("UniqueViolation" ∷ "IntegrityError" ∷ []) exc.type_name
    then chain_fork
    else if is_full_store_error lib exc
    then audit_store_full
    else store_error

abbrev pub backend_error : BackendKind → Library → SqlException → AuditError
backend_error postgresql = postgresql_error
backend_error _ = sqlite_error

abbrev finish : BackendKind → Library → Inserted → Result AuditError (List AuditRecord)
finish kind lib (stored rows) = ok rows
finish kind lib (refused exc) = err (backend_error kind lib exc)

-- `save` of each backend, on the table that it writes to.
unfoldable pub save :
    BackendKind
    → Library
    → Option SqlException
    → AuditRecord
    → List AuditRecord
    → Result AuditError (List AuditRecord)
unfolding insert_row
save in_memory lib fault r rows = ok rows
save kind lib fault r rows = finish kind lib (insert_row kind fault r rows)

unfoldable pub rows_of : String → List AuditRecord → List AuditRecord
rows_of tenant [] = []
rows_of tenant (r ∷ rows) =
    let rest = rows_of tenant rows in
    if str_eq (coalesce r.tenant_id) tenant then r ∷ rest else rest

-- `load_all`: every row, or those of the backend's tenant. A row is a record as it is read: `load_all`
-- gives a NULL `binding_version` or a NULL or empty `commitment` its default, which changes no row that `save` has
-- written, as both columns have these defaults and a record has a known form.
unfoldable pub load_all : BackendKind → Option String → List AuditRecord → List AuditRecord
unfolding rows_of
load_all in_memory scope rows = []
load_all kind none rows = rows
load_all kind (some tenant) rows = rows_of tenant rows

-- `_build_backend`, from the arguments or the environment variables that stand in for them.
unfoldable pub build_backend : (url path : Option String) → BackendKind
build_backend url path =
    if is_truthy url then postgresql else if is_truthy path then sqlite else in_memory
