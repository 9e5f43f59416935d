-- ===== src/Startup/Backed.antt =====
-- main.py: what a process that starts has declared.
use custos_core.Common.{
  ℕ, String, ◌≡◌, refl, sym, subst, Bool, true, false, ◌||◌, Option, none, some, [], ◌∷◌, arith,
  eq_iff, str_eq, contains, ltb, is_nonempty, not, if◌then◌else◌, inl, inr, Bool-cases, ok, err,
  raise_if, raise_if-eq-ok, >>=-eq-ok,
}
use custos_core.Validation.{Value, text, integer, negative, boolean, other_value}
use custos_core.Startup.{
  Environment, topology_unbacked, store_unknown, store_process, store_external, text_or_empty,
  count_of, replica_count, rate_limit_store, Topology, conflicts, is_memory_backend,
  validate_replica_configuration, is_durable, environment_name, require_durable_audit,
  content_retention_mode, stripped, is_set, RetentionSummary, checked_retention,
  validate_content_retention, Started, start,
}

-- What the process provides is what was declared.
pub record Backed (env : Environment) (backend : String) (s : Started) : Type 0 where
  pub one_replica : s.topology.replica_number ≡ 1
  pub in_process : s.topology.rate_store ≡ store_process
  pub reported : s.durable ≡ is_durable env backend
  pub kept : (not (str_eq (environment_name env) "production") || s.durable) ≡ true
  pub store_directory : is_set s.contents.directory ≡ str_eq s.contents.mode "store"
  pub erasable : s.contents.has_admin ≡ str_eq s.contents.mode "store"

count_of-positive : (v : Option Value) (n : ℕ) → count_of v ≡ ok n → ltb n 1 ≡ false
count_of-positive none n h = cc
count_of-positive (some (integer k)) n h = ground arith
count_of-positive (some (negative k)) n h = cc
count_of-positive (some (text t)) n h = cc
count_of-positive (some (boolean b)) n h = cc
count_of-positive (some other_value) n h = cc

replica_count-positive : (env : Environment) (n : ℕ) → replica_count env ≡ ok n → ltb n 1 ≡ false
unfolding replica_count
replica_count-positive env n h =
    ground (arith, count_of-positive (env.int_of (env.strip (text_or_empty env.replicas))) n)

rate_limit_store-known :
    (env : Environment) (store : String)
    → rate_limit_store env ≡ ok store
    → contains (store_process ∷ store_external ∷ []) store ≡ true
unfolding rate_limit_store
rate_limit_store-known env store h =
    let raw = env.lower (env.strip (text_or_empty env.rate_limit)) in
    elim (Bool-cases (is_nonempty raw)) [
      | inr unset ↦
          let here : store_process ≡ store = ground arith in
          subst (λ x. contains (store_process ∷ store_external ∷ []) x ≡ true) here refl
      | inl declared ↦ elim (Bool-cases (contains (store_process ∷ store_external ∷ []) raw)) [
        | inl known ↦
            let run : (if not true then err store_unknown else ok raw) ≡ ok store =
              rw (declared, known) at h in
            let here : raw ≡ store = ground arith in
            subst (λ x. contains (store_process ∷ store_external ∷ []) x ≡ true) here known
        | inr unknown_store ↦ absurd (let no_way = rw (declared, unknown_store) at h in (cc))
      ]
    ]

no_conflict :
    (t : Topology)
    → ltb t.replica_number 1 ≡ false
    → contains (store_process ∷ store_external ∷ []) t.rate_store ≡ true
    → conflicts t ≡ false
    → (t.replica_number ≡ 1) × (t.rate_store ≡ store_process)
no_conflict t some_ known fine = (
  ground (
    arith,
    eq_iff store_process t.rate_store,
    eq_iff store_external t.rate_store,
    eq_iff t.rate_store store_process,
    eq_iff t.rate_store store_external,
  ),
  ground (
    arith,
    eq_iff store_process t.rate_store,
    eq_iff store_external t.rate_store,
    eq_iff t.rate_store store_process,
    eq_iff t.rate_store store_external,
  ),
)

topology-single :
    (env : Environment) (backend : String) (t : Topology)
    → validate_replica_configuration env backend ≡ ok t
    → (t.replica_number ≡ 1) × (t.rate_store ≡ store_process)
unfolding validate_replica_configuration
topology-single env backend t h =
    let (count, counted, h₁) = >>=-eq-ok (replica_count env) _ h in
    let (store, stored, h₂) = >>=-eq-ok (rate_limit_store env) _ h₁ in
    let u : Topology = record {
      replica_number = count;
      rate_store = store;
      memory_audit = is_memory_backend env backend;
    } in
    let (_, fine, h₃) = >>=-eq-ok (raise_if (conflicts u) topology_unbacked) _ h₂ in
    let same : u ≡ t = ground arith in
    subst (λ x. (x.replica_number ≡ 1) × (x.rate_store ≡ store_process)) same
      (no_conflict u (replica_count-positive env count counted)
        (rate_limit_store-known env store stored)
        (raise_if-eq-ok (conflicts u) topology_unbacked fine))

require_durable_audit-kept :
    (env : Environment) (backend : String) (d : Bool)
    → require_durable_audit env backend ≡ ok d
    → (d ≡ is_durable env backend)
      × ((not (str_eq (environment_name env) "production") || d) ≡ true)
unfolding require_durable_audit
require_durable_audit-kept env backend d h = (ground arith, ground arith)

-- A summary agrees with the mode that it reports.
abbrev Matches : RetentionSummary → Type 0
Matches r = (is_set r.directory ≡ str_eq r.mode "store") × (r.has_admin ≡ str_eq r.mode "store")

checked_retention-Matches :
    (env : Environment) (mode : String) (directory : Option String) (has_admin : Bool)
    (r : RetentionSummary)
    → checked_retention env mode directory has_admin ≡ ok r
    → Matches r
checked_retention-Matches env mode none true r h = elim (Bool-cases (str_eq mode "store")) [
  | inl store ↦ ground arith
  | inr plain ↦ ground arith
]
checked_retention-Matches env mode none false r h = elim (Bool-cases (str_eq mode "store")) [
  | inl store ↦ ground arith
  | inr plain ↦
      let same : ◌≡◌ {A = RetentionSummary}
          (record { mode = mode; directory = none; has_admin = false }) r =
        ground arith in
      subst Matches same (sym plain, sym plain)
]
checked_retention-Matches env mode (some d) true r h = elim (Bool-cases (str_eq mode "store")) [
  | inl store ↦
      let same : ◌≡◌ {A = RetentionSummary}
          (record { mode = mode; directory = some d; has_admin = true }) r =
        ground arith in
      subst Matches same (sym store, sym store)
  | inr plain ↦ ground arith
]
checked_retention-Matches env mode (some d) false r h = elim (Bool-cases (str_eq mode "store")) [
  | inl store ↦ ground arith
  | inr plain ↦ ground arith
]

-- A process that has passed the checks of the lifespan has declared one replica and counts requests in its own
-- memory; it reports whether its audit store outlives it, and in production it does; and it has a directory for contents and a credential to
-- erase them exactly if it keeps contents.
pub start-Backed :
    (env : Environment) (backend : String) (s : Started)
    → start env backend ≡ ok s
    → Backed env backend s
unfolding start validate_content_retention
start-Backed env backend s h =
    let (t, topology, h₁) = >>=-eq-ok (validate_replica_configuration env backend) _ h in
    let (d, durable, h₂) = >>=-eq-ok (require_durable_audit env backend) _ h₁ in
    let (r, contents, h₃) = >>=-eq-ok (validate_content_retention env) _ h₂ in
    let (mode, read, checked) = >>=-eq-ok (content_retention_mode env) _ contents in
    let (one, process) = topology-single env backend t topology in
    let (place, erase) =
      checked_retention-Matches env mode (stripped env env.store_dir)
        (is_set (stripped env env.admin_token)) r checked in
    let (told, kept) = require_durable_audit-kept env backend d durable in
    let same : ◌≡◌ {A = Started} (record { topology = t; durable = d; contents = r }) s =
      ground arith in
    subst (Backed env backend) same (record {
      one_replica = one;
      in_process = process;
      reported = told;
      kept = kept;
      store_directory = place;
      erasable = erase;
    })
