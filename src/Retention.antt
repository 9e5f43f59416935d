-- ===== src/Retention.antt =====
-- custos/retention.py: the side store of content bodies, with their salts and their purges. The two tables
-- are dictionaries keyed by the content hash, which is the primary key of both. Bytes are texts; the salt
-- that `secrets` draws and the clock are arguments.
pub mod Decision
pub mod Reconcile
pub mod Keeps
pub mod Recorded
pub mod Agreement
pub mod Erasure
pub mod Forgotten
pub mod Commitment
use Prim.Native.String
use custos_core.Common.{
  ℕ, String, Bool, true, false, Option, none, some, List, [], ◌∷◌, str_eq, is_truthy, Result, ok,
  err, if◌then◌else◌,
}
use custos_core.Common.Dict.{Dict, lookup, insert, erase, has_key}
use custos_core.Audit.Record.{
  Library, AuditError, commitment_none, commitment_unsalted_v0, commitment_salted_v1,
  commitment_purged_v1,
}

-- MARKER_SALTED, MARKER_UNSALTED
abbrev pub marker_salted : String
marker_salted = "CUSTOS-COMMIT-v1:salted\0"

abbrev pub marker_unsalted : String
marker_unsalted = "CUSTOS-COMMIT-v0:unsalted\0"

abbrev pub commitment_version : ℕ
commitment_version = 1

-- A row of `content_bodies`.
pub record Body : Type 0 where
  pub algo_version : ℕ
  pub marker : String
  pub salt : Option String
  pub commitment : String
  pub body : String
  pub created_at : ℕ

-- A row of `purges`.
pub record Purge : Type 0 where
  pub purged_at : ℕ
  pub reason : String
  pub attestation_hash : Option String

pub record ContentStore : Type 0 where
  pub bodies : Dict Body
  pub purges : Dict Purge

abbrev pub empty_store : ContentStore
empty_store = record { bodies = []; purges = [] }

-- The exceptions: the two of the module, a violated primary key, an attestation for other content, and
-- what the chain raises.
pub data ContentError : Type 0 where
  content_purged purge_refused integrity_error not_attributable config_refused : ContentError
  chain_error : AuditError → ContentError

abbrev pub salt_bytes : Option String → String
salt_bytes none = ""
salt_bytes (some s) = s

-- `_commitment`: the digest of marker, salt and body. A salt has SALT_BYTES bytes, so that cutting it at that
-- length is no change.
unfoldable pub commitment_of : Library → String → Option String → String
commitment_of lib body salt =
    if is_truthy salt
    then lib.sha256 (String.◌++◌ marker_salted (String.◌++◌ (salt_bytes salt) body))
    else lib.sha256 (String.◌++◌ marker_unsalted body)

unfoldable pub salted_body : Library → String → ℕ → String → Body
salted_body lib salt now body = record {
  algo_version = commitment_version;
  marker = "salted-v1";
  salt = some salt;
  commitment = commitment_of lib body (some salt);
  body = body;
  created_at = now;
}

unfoldable pub unsalted_body : Library → ℕ → String → Body
unsalted_body lib now body = record {
  algo_version = 0;
  marker = "unsalted-v0";
  salt = none;
  commitment = commitment_of lib body none;
  body = body;
  created_at = now;
}

-- `put`; the hash that it returns is that of the body.
unfoldable pub put : Library → String → ℕ → String → ContentStore → Result ContentError ContentStore
put lib salt now body s =
    let h = lib.sha256 body in
    if has_key h s.bodies
    then ok s
    else if has_key h s.purges
    then err content_purged
    else ok (record s { bodies = insert h (salted_body lib salt now body) s.bodies })

-- `put_legacy`, whose INSERT OR IGNORE looks at the bodies alone.
unfoldable pub put_legacy : Library → ℕ → String → ContentStore → ContentStore
put_legacy lib now body s =
    let h = lib.sha256 body in
    if has_key h s.bodies
    then s
    else record s { bodies = insert h (unsalted_body lib now body) s.bodies }

-- `status`
pub data Status : Type 0 where
  present purged unknown : Status

unfoldable pub status : String → ContentStore → Status
status h s = if has_key h s.bodies then present else if has_key h s.purges then purged else unknown

-- `marker`
unfoldable pub marker_at : String → ContentStore → String
marker_at h s = elim (lookup h s.bodies) [
  | some b ↦ b.marker
  | none ↦ if has_key h s.purges then "purged" else "unknown"
]

abbrev pub form_of_marker : String → String
form_of_marker marker =
    if str_eq marker "salted-v1"
    then commitment_salted_v1
    else if str_eq marker "unsalted-v0"
    then commitment_unsalted_v0
    else if str_eq marker "purged"
    then commitment_purged_v1
    else commitment_none

unfoldable pub commitment_form : String → ContentStore → String
commitment_form h s = form_of_marker (marker_at h s)

-- What a read of absent content raises.
abbrev pub absent : String → ContentStore → ContentError
absent h s = if has_key h s.purges then content_purged else purge_refused

unfoldable pub open_body : String → ContentStore → Result ContentError String
open_body h s = elim (lookup h s.bodies) [ some b ↦ ok b.body | none ↦ err (absent h s) ]

unfoldable pub verify_commitment :
    Library → String → String → ContentStore → Result ContentError Bool
verify_commitment lib h body s = elim (lookup h s.bodies) [
  | some b ↦ ok (str_eq (commitment_of lib body b.salt) b.commitment)
  | none ↦ err (absent h s)
]

pub purge_record : String → ContentStore → Option Purge
purge_record h s = lookup h s.purges
