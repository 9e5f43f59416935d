-- ===== src/Audit/Record.antt =====
-- custos/audit.py: the audit record, the errors of the module and the canonical hash preimage.
-- Time stamps are natural numbers (ticks of the clock); every other field keeps its type.
use custos_core.Common.{
  ℕ, ◌++◌, String, Option, none, some, List, [], ◌∷◌, Result, ok, err, ◌>>=◌, ltb, leb, is_truthy,
  if◌then◌else◌,
}

-- RECORD_BINDING_CURRENT
abbrev pub record_binding_current : ℕ
record_binding_current = 2

abbrev pub commitment_none : String
commitment_none = "none"

abbrev pub commitment_unsalted_v0 : String
commitment_unsalted_v0 = "unsalted-v0"

abbrev pub commitment_salted_v1 : String
commitment_salted_v1 = "salted-v1"

abbrev pub commitment_purged_v1 : String
commitment_purged_v1 = "purged-v1"

-- COMMITMENT_FORMS
abbrev pub commitment_forms : List String
commitment_forms =
    commitment_none ∷ commitment_unsalted_v0 ∷ commitment_salted_v1 ∷ commitment_purged_v1 ∷ []

pub record AuditRecord : Type 0 where
  pub timestamp : ℕ
  pub client_id : String
  pub action : String
  pub triggered_rule : Option String
  pub reason : String
  pub content_hash : String
  pub record_hash : String
  pub previous_hash : String
  pub trace_id : Option String
  pub policy_digest : Option String
  pub tenant_id : Option String
  pub binding_version : ℕ
  pub commitment : String

-- The exceptions that the chain and its backends raise. `store_error` is any other storage failure.
pub data AuditError : Type 0 where
  unknown_binding_version : ℕ → AuditError
  chain_fork : AuditError
  audit_store_full : AuditError
  store_error : AuditError
  unknown_commitment : AuditError
  other_tenant : AuditError
  unbound_record : AuditError
  missing_trace_id : AuditError
  missing_rule : AuditError

-- A value of a dictionary that is hashed; the last two are the dictionary of an anchoring gap and a list of
-- texts.
pub data Json : Type 0 where
  null : Json
  number : ℕ → Json
  text : String → Json
  gap_object : (from_epoch attempts : ℕ) (first_attempt_utc last_attempt_utc : String) → Json
  texts : List String → Json

abbrev pub Fields : Type 0
Fields = List (String × Json)

abbrev pub optional : Option String → Json
optional none = null
optional (some s) = text s

-- `fields[key] = value` under `if value:`, of a key that the dictionary does not hold yet.
abbrev pub if_set : String → Option String → Fields
if_set key value = if is_truthy value then (key, optional value) ∷ [] else []

-- f"v{binding_version}", for the versions that this build implements.
abbrev pub version_marker : ℕ → String
version_marker version = if leb 2 version then "v2" else "v1"

abbrev pub commitment_or_none : String → String
commitment_or_none s = if is_truthy (some s) then s else commitment_none

pub binding_fields : AuditRecord → Fields
binding_fields r =
    if leb 1 r.binding_version
    then ("binding", text (version_marker r.binding_version)) ∷ if_set "trace_id" r.trace_id
    else []

pub commitment_fields : AuditRecord → Fields
commitment_fields r =
    if leb 2 r.binding_version
    then ("commitment", text (commitment_or_none r.commitment)) ∷ []
    else []

-- The fields in the order in which the dictionary is filled.
unfoldable pub known_fields : AuditRecord → String → Fields
unfolding binding_fields commitment_fields
known_fields r previous_hash =
    ("timestamp", number r.timestamp)
    ∷ ("client_id", text r.client_id)
    ∷ ("action", text r.action)
    ∷ ("triggered_rule", optional r.triggered_rule)
    ∷ ("reason", text r.reason)
    ∷ ("content_hash", text r.content_hash)
    ∷ ("previous_hash", text previous_hash)
    ∷ (if_set "policy_digest" r.policy_digest
        ++ (if_set "tenant_id" r.tenant_id ++ (binding_fields r ++ commitment_fields r)))

unfoldable pub preimage_fields : AuditRecord → String → Result AuditError Fields
unfolding known_fields
preimage_fields r previous_hash =
    if ltb record_binding_current r.binding_version
    then err (unknown_binding_version r.binding_version)
    else ok (known_fields r previous_hash)

-- What the module takes from Python's library: SHA-256 of a text's UTF-8 bytes in hexadecimal,
-- `json.dumps(…, sort_keys=True)` of a dictionary of such values, `str.lower` and
-- `str.strip().lower()`.
pub record Library : Type 0 where
  pub sha256 : String → String
  pub dumps : Fields → String
  pub lower : String → String
  pub strip_lower : String → String

unfoldable pub compute_record_hash : Library → AuditRecord → String → Result AuditError String
compute_record_hash lib r previous_hash = do
  fields ← preimage_fields r previous_hash
  ok (lib.sha256 (lib.dumps fields))
