-- ===== src/Audit/Chain.antt =====
-- custos/audit.py: `class AuditChain`. A method takes the chain and the table that its backend writes
-- to, and returns both. The lock makes every method one step.
pub mod Appends
pub mod Bound
pub mod Integrity
pub mod Isolation
pub mod Restart
pub mod Evidence
use custos_core.Common.{
  ℕ, suc, ◌+◌, ◌++◌, String, Bool, false, true, ◌&&◌, ◌||◌, not, Option, none, some, List, [], ◌∷◌,
  Result, ok, err, ◌>>=◌, ◌>>◌, raise_if, ltb, str_eq, contains, length, last_or, is_truthy,
  is_nonempty, or_else, if◌then◌else◌,
}
use custos_core.Audit.Record.{
  AuditRecord, AuditError, chain_fork, unknown_commitment, other_tenant, unbound_record,
  missing_trace_id, missing_rule, record_binding_current, commitment_none, commitment_forms,
  Library, compute_record_hash,
}
use custos_core.Audit.Store.{BackendKind, SqlException, save, load_all}

-- AuditChain.GENESIS_HASH, sixty-four zeros.
abbrev pub genesis_hash : String
genesis_hash = "0000000000000000000000000000000000000000000000000000000000000000"

pub record Chain : Type 0 where
  pub records : List AuditRecord
  pub tenant_id : Option String
  pub backend : BackendKind

-- The arguments of `record`.
pub record Entry : Type 0 where
  pub client_id : String
  pub action : String
  pub reason : String
  pub content : String
  pub triggered_rule : Option String
  pub trace_id : Option String
  pub policy_digest : Option String
  pub tenant_id : Option String
  pub commitment : String

-- What a call meets: the clock, the two environment variables that it reads, and the fault that the
-- storage engine raises, if it does.
pub record Moment : Type 0 where
  pub now : ℕ
  pub require_bound : Option String
  pub custos_env : Option String
  pub fault : Option SqlException

abbrev value_or_empty : Option String → String
value_or_empty none = ""
value_or_empty (some s) = s

unfoldable pub bound_evidence_required : Library → Moment → Bool
bound_evidence_required lib m =
    if contains ("1" ∷ "true" ∷ "yes" ∷ "on" ∷ [])
      (lib.strip_lower (value_or_empty m.require_bound))
    then true
    else str_eq (lib.strip_lower (value_or_empty m.custos_env)) "production"

-- `len({r.tenant_id or "" for r in records}) > 1`
differs_from : String → List AuditRecord → Bool
differs_from scope [] = false
differs_from scope (r ∷ rs) = not (str_eq (or_else r.tenant_id "") scope) || differs_from scope rs

many_scopes : List AuditRecord → Bool
unfolding differs_from
many_scopes [] = false
many_scopes (r ∷ rs) = differs_from (or_else r.tenant_id "") rs

abbrev is_unscoped : Option String → Bool
is_unscoped none = true
is_unscoped (some _) = false

-- `AuditChain.__init__`
unfoldable pub open_chain : BackendKind → Option String → List AuditRecord → Result AuditError Chain
unfolding many_scopes
open_chain kind tenant rows =
    let loaded = load_all kind tenant rows in
    if is_unscoped tenant && many_scopes loaded
    then err chain_fork
    else ok (record { records = loaded; tenant_id = tenant; backend = kind })

-- The hash that the next record names as its predecessor's; also the property `latest_hash`.
abbrev pub latest_from : String → List AuditRecord → String
latest_from h [] = h
latest_from h (r ∷ rs) = latest_from r.record_hash rs

unfoldable pub latest_hash : Chain → String
latest_hash c = latest_from genesis_hash c.records

-- The tenant that a record is written for.
unfoldable pub resolve_tenant : Option String → Option String → Result AuditError (Option String)
resolve_tenant scope none = ok scope
resolve_tenant none (some t) = ok (some t)
resolve_tenant (some s) (some t) = if str_eq t s then ok (some t) else err other_tenant

abbrev pub draft : Library → Moment → Entry → Option String → String → AuditRecord
draft lib m e tenant previous_hash = record {
  timestamp = m.now;
  client_id = e.client_id;
  action = e.action;
  triggered_rule = e.triggered_rule;
  reason = e.reason;
  content_hash = lib.sha256 e.content;
  record_hash = "";
  previous_hash = previous_hash;
  trace_id = e.trace_id;
  policy_digest = e.policy_digest;
  tenant_id = tenant;
  binding_version = record_binding_current;
  commitment = e.commitment;
}

-- The checks of `record`, and the record that it is about to save.
unfoldable pub new_record : Library → Moment → Entry → Chain → Result AuditError AuditRecord
new_record lib m e c = do
  raise_if (not (contains commitment_forms e.commitment)) unknown_commitment
  tenant ← resolve_tenant c.tenant_id e.tenant_id
  let entry = draft lib m e tenant (latest_hash c)
  raise_if
      (bound_evidence_required lib m && not (is_truthy e.policy_digest && is_truthy e.trace_id))
      unbound_record
  hash ← compute_record_hash lib entry (latest_hash c)
  ok (record entry { record_hash = hash })

abbrev pub appended :
    Chain
    → AuditRecord
    → List AuditRecord
    → Result AuditError (List AuditRecord)
    → Result AuditError AuditRecord × Chain × List AuditRecord
appended c r rows (ok rows') = (ok r, record c { records = c.records ++ r ∷ [] }, rows')
appended c r rows (err e) = (err e, c, rows)

abbrev pub persist :
    Library
    → Moment
    → Chain
    → List AuditRecord
    → Result AuditError AuditRecord
    → Result AuditError AuditRecord × Chain × List AuditRecord
persist lib m c rows (ok r) = appended c r rows (save c.backend lib m.fault r rows)
persist lib m c rows (err e) = (err e, c, rows)

-- `AuditChain.record`: saves before it appends.
unfoldable pub record_entry :
    Library
    → Moment
    → Entry
    → Chain
    → List AuditRecord
    → Result AuditError AuditRecord × Chain × List AuditRecord
record_entry lib m e c rows = persist lib m c rows (new_record lib m e c)

-- `AuditChain.append_reconciliation`, whose trace id and rule are texts.
pub append_reconciliation :
    Library
    → Moment
    → (client_id trace_id rule content reason : String) → (policy_digest tenant_id : Option String)
    → Chain
    → List AuditRecord
    → Result AuditError AuditRecord × Chain × List AuditRecord
append_reconciliation lib m client trace rule content reason digest tenant c rows =
    if not (is_nonempty trace)
    then (err missing_trace_id, c, rows)
    else if not (is_nonempty rule)
    then (err missing_rule, c, rows)
    else record_entry lib m
        (record {
          client_id = client;
          action = "DENY";
          reason = reason;
          content = content;
          triggered_rule = some rule;
          trace_id = some trace;
          policy_digest = digest;
          tenant_id = tenant;
          commitment = commitment_none;
        })
        c rows

-- The answers of `verify`, each with the index that its message names.
pub data Verification : Type 0 where
  empty_chain verified : Verification
  broken_link : ℕ → Verification
  unknown_version : ℕ → ℕ → Verification
  tampered : ℕ → Verification

abbrev pub check_hash : AuditRecord → ℕ → Result AuditError String → Verification → Verification
check_hash r i (ok expected) rest = if str_eq r.record_hash expected then rest else tampered i
check_hash r i (err _) rest = unknown_version i r.binding_version

unfoldable pub verify_from : Library → ℕ → String → List AuditRecord → Verification
verify_from lib i previous [] = verified
verify_from lib i previous (r ∷ rs) =
    let rest = verify_from lib (i + 1) r.record_hash rs in
    if not (str_eq r.previous_hash previous)
    then broken_link i
    else if ltb record_binding_current r.binding_version
    then unknown_version i r.binding_version
    else check_hash r i (compute_record_hash lib r previous) rest

unfoldable pub verify_records : Library → List AuditRecord → Verification
unfolding verify_from
verify_records lib [] = empty_chain
verify_records lib rs = verify_from lib 0 genesis_hash rs

unfoldable pub verify : Library → Chain → Verification
unfolding verify_records
verify lib c = verify_records lib c.records

-- The first component of the answer of `verify`.
abbrev pub is_ok : Verification → Bool
is_ok empty_chain = true
is_ok verified = true
is_ok _ = false

-- `AuditChain.head`
unfoldable pub head : Chain → ℕ × String
unfolding latest_hash
head c = (length c.records, latest_hash c)

records_of : String → List AuditRecord → List AuditRecord
records_of client [] = []
records_of client (r ∷ rs) =
    let rest = records_of client rs in if str_eq r.client_id client then r ∷ rest else rest

-- `AuditChain.get_records`
pub get_records : Option String → Chain → List AuditRecord
unfolding records_of
get_records none c = c.records
get_records (some client) c = if is_nonempty client then records_of client c.records else c.records
