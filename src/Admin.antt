-- ===== src/Admin.antt =====
-- main.py: the administrative handlers of retention, policies and tenants. The tokens of requests are compared
-- as texts; the opening of a tenant's store is taken to go through, which the start has checked.
pub mod Unattested
use custos_core.Common.{
  ℕ, String, Bool, true, false, not, Option, none, some, List, [], ◌∷◌, length, str_eq, Result, ok,
  err, if◌then◌else◌,
}
use custos_core.Common.Dict.{lookup, insert, has_key}
use custos_core.Audit.Record.{AuditRecord, Library}
use custos_core.Audit.Chain.{Moment, get_records}
use custos_core.Policy.Rule.{PolicyAction, allow, deny, audit, PolicyRule}
use custos_core.RateLimiter.{QuotaConfig}
use custos_core.PolicyStore.{PolicyStoreError}
use custos_core.Retention.{
  ContentError, content_purged, purge_refused, present, purged, unknown, status,
}
use custos_core.Retention.Decision.{Ledger, purge}
use custos_core.Retention.Reconcile.{Reconciliation, reconcile}
use custos_core.Tenant.{
  Context, TenantManager, Factory, get_strict, register, add_policy_rule, list_policy_rules,
  list_tenants, unregister,
}
use custos_core.Service.{Service, Meeting, store_of, content_engine_digest, put_context}
use custos_core.Startup.{Environment, StartupError, content_retention_mode, stripped}

-- A response, a refusal with its status, or an exception of one of the stores.
pub data Handled (A : Type 0) : Type 0 where
  responded : A → Handled A
  status_code : ℕ → Handled A
  content_raised : ContentError → Handled A
  policy_raised : PolicyStoreError → Handled A
  config_raised : StartupError → Handled A

-- Whether the header has the operator's token.
abbrev pub authorised : Option String → Option String → Option ℕ
authorised header none = some 503
authorised none (some token) = some 401
authorised (some h) (some token) = if str_eq h token then none else some 401

-- `require_retention_admin`: the status of the refusal, if any.
unfoldable pub require_retention_admin :
    Environment → Option String → Result StartupError (Option ℕ)
require_retention_admin env header = elim (content_retention_mode env) [
  | err e ↦ err e
  | ok mode ↦
      ok (if str_eq mode "off" then some 503 else authorised header (stripped env env.admin_token))
]

abbrev pub purge_reply : Result ContentError String → Handled String
purge_reply (ok hash) = responded hash
purge_reply (err content_purged) = status_code 409
purge_reply (err purge_refused) = status_code 409
purge_reply (err e) = content_raised e

-- POST /v1/retention/purge, for a known tenant; `purge` is called without a trace id.
unfoldable pub purge_content :
    Library
    → Moment
    → (digest : Option String) → (hash reason : String) → Ledger
    → Handled String × Ledger
purge_content lib m digest hash reason l = elim (status hash l.store) [
  | unknown ↦ (status_code 409, l)
  | purged ↦ (status_code 409, l)
  | present ↦
      let (r, l') = purge lib m hash "retention-admin" reason none digest l in (purge_reply r, l')
]

abbrev pub ledger_of : String → Context → Service → Ledger
ledger_of tenant ctx s = record {
  chain = ctx.audit_chain;
  rows = s.rows;
  store = store_of tenant s;
}

abbrev pub ledger_back : String → Context → Ledger → Service → Service
ledger_back tenant ctx l s = record s {
  manager = put_context tenant (record ctx { audit_chain = l.chain }) s.manager;
  rows = l.rows;
  stores = insert tenant l.store s.stores;
}

pub retention_purge : Meeting → (tenant hash reason : String) → Service → Handled String × Service
retention_purge m tenant hash reason s = elim (get_strict tenant s.manager) [
  | none ↦ (status_code 403, s)
  | some ctx ↦
      let (reply, l) =
        purge_content m.env.lib m.env.moment
          (content_engine_digest m.env.lib m.env.env_pin ctx.policy_engine) hash reason
          (ledger_of tenant ctx s) in
      (reply, ledger_back tenant ctx l s)
]

-- GET /v1/retention/status
pub retention_status : String → Service → Handled Reconciliation
retention_status tenant s = elim (get_strict tenant s.manager) [
  | none ↦ status_code 403
  | some ctx ↦ responded (reconcile ctx.audit_chain.records (store_of tenant s))
]

-- `_ACTION_MAP`
abbrev pub action_map : String → Option PolicyAction
action_map name =
    if str_eq name "allow"
    then some allow
    else if str_eq name "deny"
    then some deny
    else if str_eq name "audit"
    then some audit
    else none

-- POST /v1/tenants/{tenant_id}/policy: the number of custom rules after.
pub add_tenant_policy_rule :
    Option PolicyStoreError
    → (tenant name pattern action reason : String) → TenantManager
    → Handled ℕ × TenantManager
add_tenant_policy_rule fault tenant name pattern action reason m = elim (action_map action) [
  | none ↦ (status_code 422, m)
  | some a ↦
      let (r, m') =
        add_policy_rule fault tenant
          (record { name = name; pattern = pattern; action = a; reason = reason }) m in
      (
        elim r [
          | ok done ↦ responded (length (list_policy_rules tenant m'))
          | err e ↦ policy_raised e
        ],
        m',
      )
]

-- POST /v1/tenants
pub register_tenant :
    Factory → String → QuotaConfig → TenantManager → Handled QuotaConfig × TenantManager
register_tenant f tenant quota m =
    if str_eq tenant "default"
    then (status_code 400, m)
    else if has_key tenant m.tenants
    then (status_code 409, m)
    else elim (register f tenant quota m) [
      | ok m' ↦ (responded quota, m')
      | err e ↦ (policy_raised e, m)
    ]

-- GET /v1/tenants
pub list_all_tenants : TenantManager → List String × ℕ
list_all_tenants m = (list_tenants m, length (list_tenants m))

-- DELETE /v1/tenants/{tenant_id}
pub delete_tenant : String → TenantManager → Handled String × TenantManager
delete_tenant tenant m =
    if str_eq tenant "default"
    then (status_code 400, m)
    else let (m', removed) = unregister tenant m in
      (if not removed then status_code 404 else responded tenant, m')
