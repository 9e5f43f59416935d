-- ===== src/Tenant.antt =====
-- custos/tenant.py: the registry of tenants and their custom rules, over the policy store. The engine that the
-- factory makes and the chains that are opened are arguments, and a limiter starts with the tenant's quota.
pub mod Rules
pub mod Restart
pub mod Duplicate
use custos_core.Common.{
  ℕ, ◌++◌, String, Bool, true, false, Option, none, some, List, [], ◌∷◌, str_eq, Result, ok, err,
  ◌>>=◌, if◌then◌else◌,
}
use custos_core.Common.Dict.{Dict, lookup, insert, erase, has_key, keys}
use custos_core.Audit.Chain.{Chain}
use custos_core.Policy.Rule.{PolicyRule}
use custos_core.RateLimiter.{RateLimiter, QuotaConfig, empty_limiter}
use custos_core.RateLimiter as RateLimiter
use custos_core.PolicyStore.{PolicyBackend, PolicyStoreError, load, save, delete, list_stored}
use custos_core.ActionGate.{AnyEngine, add_engine_rule}

pub record Context : Type 0 where
  pub policy_engine : AnyEngine
  pub rate_limiter : RateLimiter
  pub audit_chain : Chain

pub record TenantManager : Type 0 where
  pub tenants : Dict Context
  pub custom_rules : Dict (List PolicyRule)
  pub policy_store : PolicyBackend

abbrev pub rules_of : String → Dict (List PolicyRule) → List PolicyRule
rules_of tenant d = elim (lookup tenant d) [ none ↦ [] | some rules ↦ rules ]

-- `for rule in persisted_rules: engine.add_rule(rule)`
unfoldable pub add_all : List PolicyRule → AnyEngine → AnyEngine
add_all [] engine = engine
add_all (r ∷ rules) engine = add_all rules (add_engine_rule r engine)

-- DEFAULT_QUOTA, and the quota of a TenantConfig by default.
abbrev pub default_quota : QuotaConfig
default_quota = record {
  requests_per_minute = 60;
  requests_per_hour = 1000;
  tokens_per_minute = 100000;
}

-- What a registration meets: the clock, the engine that the factory makes, and the chain of each tenant.
pub record Factory : Type 0 where
  pub now : ℕ
  pub engine : AnyEngine
  pub chain_of : String → Chain

abbrev pub registered :
    Factory → String → QuotaConfig → TenantManager → List PolicyRule → TenantManager
registered f tenant quota m persisted = record m {
  tenants =
      insert tenant
        (record {
          policy_engine = add_all persisted f.engine;
          rate_limiter = RateLimiter.register tenant quota f.now empty_limiter;
          audit_chain = f.chain_of tenant;
        })
        m.tenants;
  custom_rules = insert tenant persisted m.custom_rules;
}

-- `register`; a load that raises leaves the manager as it was.
unfoldable pub register :
    Factory → String → QuotaConfig → TenantManager → Result PolicyStoreError TenantManager
register f tenant quota m = do
  persisted ← load tenant m.policy_store
  ok (registered f tenant quota m persisted)

-- The loop of the constructor over the stored tenants.
unfoldable pub register_missing :
    Factory → List String → TenantManager → Result PolicyStoreError TenantManager
register_missing f [] m = ok m
register_missing f (tenant ∷ more) m =
    if has_key tenant m.tenants
    then register_missing f more m
    else register f tenant default_quota m >>= register_missing f more

-- The constructor.
unfoldable pub open_manager : Factory → PolicyBackend → Result PolicyStoreError TenantManager
open_manager f store = do
  m ←
      register f "default" default_quota
        (record { tenants = []; custom_rules = []; policy_store = store })
  register_missing f (list_stored store) m

-- `get`, and `get_strict`, which is the same.
unfoldable pub get_strict : String → TenantManager → Option Context
get_strict tenant m = lookup tenant m.tenants

-- The name under which `get_or_default` finds its context.
unfoldable pub or_default : String → TenantManager → String
or_default tenant m = elim (lookup tenant m.tenants) [ none ↦ "default" | some ctx ↦ tenant ]

abbrev add_to_context : String → PolicyRule → Dict Context → Dict Context
add_to_context name rule tenants = elim (lookup name tenants) [
  | none ↦ tenants
  | some ctx ↦
      insert name (record ctx { policy_engine = add_engine_rule rule ctx.policy_engine }) tenants
]

-- The manager once the rule is in the engine and in the list, and before it is persisted.
unfoldable pub with_rule : String → PolicyRule → TenantManager → TenantManager
with_rule tenant rule m = record m {
  tenants = add_to_context (or_default tenant m) rule m.tenants;
  custom_rules = insert tenant (rules_of tenant m.custom_rules ++ rule ∷ []) m.custom_rules;
}

abbrev pub persisted :
    TenantManager
    → Result PolicyStoreError PolicyBackend
    → Result PolicyStoreError Unit × TenantManager
persisted m (ok store) = (ok tt, record m { policy_store = store })
persisted m (err e) = (err e, m)

-- `add_policy_rule`: the engine is that of `get_or_default`, the list that of the tenant named. The default
-- tenant is always registered. If the store raises, the rule stays in the engine and in the list.
unfoldable pub add_policy_rule :
    Option PolicyStoreError
    → String
    → PolicyRule
    → TenantManager
    → Result PolicyStoreError Unit × TenantManager
add_policy_rule fault tenant rule m =
    let m' = with_rule tenant rule m in
    persisted m' (save fault tenant (rules_of tenant m'.custom_rules) m.policy_store)

abbrev pub list_policy_rules : String → TenantManager → List PolicyRule
list_policy_rules tenant m = rules_of tenant m.custom_rules

pub list_tenants : TenantManager → List String
list_tenants m = keys m.tenants

-- `unregister`; the default tenant stays.
unfoldable pub unregister : String → TenantManager → TenantManager × Bool
unregister tenant m =
    if str_eq tenant "default" then (m, false) else elim (lookup tenant m.tenants) [
      | none ↦ (m, false)
      | some ctx ↦ (
        record {
          tenants = erase tenant m.tenants;
          custom_rules = erase tenant m.custom_rules;
          policy_store = delete tenant m.policy_store;
        },
        true,
      )
    ]
