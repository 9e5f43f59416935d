-- ===== src/Tests/Startup.antt =====
-- The checks of the start at a concrete environment.
use custos_core.Common.{◌≡◌, refl, true, false, some, none, ok}
use custos_core.Validation.{integer}
use custos_core.Startup.{
  Environment, Started, replica_count, rate_limit_store, is_memory_backend,
  validate_replica_configuration, is_durable, environment_name, require_durable_audit,
  content_retention_mode, validate_content_retention, start,
}
use custos_core.Startup.Backed.{Backed, start-Backed}
use custos_core.Tests.Firewall.{same}

-- A production process with an SQLite store that keeps contents.
abbrev production : Environment
production = record {
  strip = same;
  lower = same;
  int_of = λ s. some (integer 1);
  letters_and_digits = same;
  without_dashes = same;
  is_directory = λ d. true;
  replicas = some "1";
  rate_limit = none;
  custos_env = some "production";
  database_url = none;
  audit_db_path = some "audit.db";
  retention = some "store";
  store_dir = some "contents";
  admin_token = some "token";
}

abbrev started : Started
started = record {
  topology = record {
    replica_number = 1;
    rate_store = "process";
    memory_audit = is_memory_backend production "sqlitebackend";
  };
  durable = true;
  contents = record { mode = "store"; directory = some "contents"; has_admin = true };
}

start-Backed_example : Backed production "sqlitebackend" started
unfolding start validate_replica_configuration replica_count rate_limit_store is_memory_backend
    is_durable environment_name require_durable_audit content_retention_mode
    validate_content_retention
start-Backed_example = start-Backed production "sqlitebackend" started refl

-- The same on an ephemeral store, with a space behind the name of the environment: it starts, and records have
-- to be bound as in production.
abbrev spaced : Environment
spaced = record production { custos_env = some "production " }

-- The name of the backend without a store contains `memory`.
in_memory-is_memory_backend : is_memory_backend production "inmemorybackend" ≡ true
unfolding is_memory_backend
in_memory-is_memory_backend = refl

spaced-require_durable_audit : require_durable_audit spaced "inmemorybackend" ≡ ok false
unfolding require_durable_audit environment_name is_durable
spaced-require_durable_audit = refl
