-- ===== src/Startup.antt =====
-- custos/scaling.py, custos/audit_persistence.py and custos/content_retention.py: the checks of the environment
-- that the lifespan of main.py makes before it serves, in its order, and the store of a tenant. The functions of
-- the language on texts, the file system and the environment are arguments; the texts of messages are not
-- modelled.
pub mod Backed
use Prim.Native.String
use custos_core.Common.{
  ℕ, String, Bool, true, false, ◌&&◌, ◌||◌, not, Option, none, some, List, [], ◌∷◌, ◌++◌, contains,
  str_eq, is_nonempty, is_truthy, or_else, ltb, Result, ok, err, ◌>>=◌, ◌>>◌, raise_if,
  if◌then◌else◌,
}
use custos_core.Audit.Store.{has_fragment}
use custos_core.Validation.{Value, integer, negative}

-- The variables that are read, and what reads them.
pub record Environment : Type 0 where
  pub strip : String → String
  pub lower : String → String
  pub int_of : String → Option Value
  pub letters_and_digits : String → String
  pub without_dashes : String → String
  pub is_directory : String → Bool
  pub replicas : Option String
  pub rate_limit : Option String
  pub custos_env : Option String
  pub database_url : Option String
  pub audit_db_path : Option String
  pub retention : Option String
  pub store_dir : Option String
  pub admin_token : Option String

-- The refusals: of a declaration that cannot be read, of the topology, of the audit store, and of the
-- retention of contents.
pub data StartupError : Type 0 where
  replicas_unreadable replicas_too_few store_unknown topology_unbacked audit_not_durable
        audit_store_ignored :
      StartupError
  mode_unknown directory_missing no_directory token_missing directory_unused token_unused :
      StartupError

abbrev pub store_process : String
store_process = "process"

abbrev pub store_external : String
store_external = "external"

abbrev pub text_or_empty : Option String → String
text_or_empty none = ""
text_or_empty (some s) = s

-- `is_memory_backend`
unfoldable pub is_memory_backend : Environment → String → Bool
is_memory_backend env backend = has_fragment (env.letters_and_digits (env.lower backend)) "memory"

abbrev pub count_of : Option Value → Result StartupError ℕ
count_of none = err replicas_unreadable
count_of (some (integer n)) = if ltb n 1 then err replicas_too_few else ok n
count_of (some _) = err replicas_too_few

-- `replica_count`
unfoldable pub replica_count : Environment → Result StartupError ℕ
replica_count env =
    let raw = env.strip (text_or_empty env.replicas) in
    if not (is_nonempty raw) then ok 1 else count_of (env.int_of raw)

-- `rate_limit_store`
unfoldable pub rate_limit_store : Environment → Result StartupError String
rate_limit_store env =
    let raw = env.lower (env.strip (text_or_empty env.rate_limit)) in
    if not (is_nonempty raw)
    then ok store_process
    else if not (contains (store_process ∷ store_external ∷ []) raw)
    then err store_unknown
    else ok raw

pub record Topology : Type 0 where
  pub replica_number : ℕ
  pub rate_store : String
  pub memory_audit : Bool

-- Whether the three lists of conflicts are not all empty.
abbrev pub conflicts : Topology → Bool
conflicts t =
    str_eq t.rate_store store_external
    || (ltb 1 t.replica_number && str_eq t.rate_store store_process)
    || (ltb 1 t.replica_number && t.memory_audit)

-- `validate_replica_configuration`
unfoldable pub validate_replica_configuration : Environment → String → Result StartupError Topology
validate_replica_configuration env backend = do
  count ← replica_count env
  store ← rate_limit_store env
  let t : Topology = record {
    replica_number = count;
    rate_store = store;
    memory_audit = is_memory_backend env backend;
  }
  raise_if (conflicts t) topology_unbacked
  ok t

-- `is_durable`, with EPHEMERAL_BACKENDS.
unfoldable pub is_durable : Environment → String → Bool
is_durable env backend =
    not (contains ("inmemorybackend" ∷ []) (env.lower (env.without_dashes backend)))

-- `audit_store_source`
unfoldable pub audit_store_source : Environment → String
audit_store_source env =
    if is_truthy env.database_url
    then "DATABASE_URL"
    else if is_truthy env.audit_db_path
    then "AUDIT_DB_PATH"
    else "none"

-- The environment as it is compared: CUSTOS_ENV or "development", in lower case.
unfoldable pub environment_name : Environment → String
environment_name env = env.lower (or_else env.custos_env "development")

-- `require_durable_audit`
unfoldable pub require_durable_audit : Environment → String → Result StartupError Bool
require_durable_audit env backend =
    if str_eq (environment_name env) "production" && not (is_durable env backend)
    then (if not (str_eq (audit_store_source env) "none")
        then err audit_store_ignored
        else err audit_not_durable)
    else ok (is_durable env backend)

abbrev pub is_blank : Environment → Option String → Bool
is_blank env none = true
is_blank env (some raw) = not (is_nonempty (env.strip raw))

-- `content_retention_mode`
unfoldable pub content_retention_mode : Environment → Result StartupError String
content_retention_mode env =
    let value = env.lower (env.strip (text_or_empty env.retention)) in
    if is_blank env env.retention
    then ok "off"
    else if not (contains ("off" ∷ "store" ∷ []) value)
    then err mode_unknown
    else ok value

-- `store_directory` and `admin_token`
abbrev pub stripped : Environment → Option String → Option String
stripped env none = none
stripped env (some raw) =
    if is_nonempty raw && is_nonempty (env.strip raw) then some (env.strip raw) else none

abbrev pub is_set : Option String → Bool
is_set none = false
is_set (some s) = true

pub record RetentionSummary : Type 0 where
  pub mode : String
  pub directory : Option String
  pub has_admin : Bool

-- The conditions of `validate_content_retention` for a mode that is read.
abbrev pub checked_retention :
    Environment → String → Option String → Bool → Result StartupError RetentionSummary
checked_retention env mode directory has_admin =
    if str_eq mode "store"
    then elim directory [
      | none ↦ err directory_missing
      | some d ↦
          if not (env.is_directory d)
          then err no_directory
          else if not has_admin
          then err token_missing
          else ok (record { mode = mode; directory = some d; has_admin = has_admin })
    ]
    else if is_set directory
    then err directory_unused
    else if has_admin
    then err token_unused
    else ok (record { mode = mode; directory = directory; has_admin = has_admin })

-- `validate_content_retention`
unfoldable pub validate_content_retention : Environment → Result StartupError RetentionSummary
validate_content_retention env = do
  mode ← content_retention_mode env
  checked_retention env mode (stripped env env.store_dir) (is_set (stripped env env.admin_token))

pub record Started : Type 0 where
  pub topology : Topology
  pub durable : Bool
  pub contents : RetentionSummary

-- The checks of the lifespan, for the backend of the default tenant's chain.
unfoldable pub start : Environment → (backend : String) → Result StartupError Started
start env backend = do
  topology ← validate_replica_configuration env backend
  durable ← require_durable_audit env backend
  contents ← validate_content_retention env
  ok (record { topology = topology; durable = durable; contents = contents })

-- `store_path_for`, whose pattern for a name that is safe, hash, cut of the hash and join of paths are arguments.
unfoldable pub store_path_for :
    (is_safe starts_hashed : String → Bool)
    → (digest : String → String) → (join : String → String → String) → (directory tenant : String)
    → String
store_path_for is_safe starts_hashed digest join directory tenant =
    if is_safe tenant && not (starts_hashed tenant)
    then join directory (String.◌++◌ "content-" (String.◌++◌ tenant ".sqlite"))
    else join directory
        (String.◌++◌ "content-" (String.◌++◌ "t-" (String.◌++◌ (digest tenant) ".sqlite")))
