-- ===== src/Tests/Tenant.antt =====
-- The policy store and the registry of tenants at concrete inputs.
use custos_core.Common.{◌≡◌, refl, ◌++◌, none, some, [], ◌∷◌, Result, ok, err, eq_iff, arith}
use custos_core.Common.Dict.{lookup, insert}
use custos_core.Policy.Rule.{PolicyRule, deny, audit}
use custos_core.RateLimiter.{empty_limiter}
use custos_core.ActionGate.{AnyEngine, regex, add_engine_rule}
use custos_core.PolicyStore.{
  PolicyBackend, table, PolicyStoreError, load, save, action_of, rule_from_dict, rules_from_dicts,
  rows_of, without, insert_rule, insert_rules, tenants_of, list_stored,
}
use custos_core.PolicyStore.RoundTrip.{save-RoundTrip}
use custos_core.Tenant.{
  Context, TenantManager, Factory, rules_of, add_all, register, register_missing, open_manager,
  get_strict, or_default, with_rule, add_policy_rule,
}
use custos_core.Tenant.Rules.{Restorable, engine_of, add_policy_rule-unregistered}
use custos_core.Tenant.Restart.{open_manager-Restorable}
use custos_core.Tenant.Duplicate.{add_each, add_policy_rule-duplicate}
use custos_core.Tests.Toy.{acme}

abbrev fresh : AnyEngine
fresh = regex (record { rules = []; rules_digest_cache = none })

abbrev block : PolicyRule
block = record { name = "block"; pattern = "secret"; action = deny; reason = "blocked" }

-- Another rule of the same name, and one of its own.
abbrev flag : PolicyRule
flag = record { name = "block"; pattern = "password"; action = audit; reason = "flagged" }

abbrev watch : PolicyRule
watch = record { name = "watch"; pattern = "token"; action = audit; reason = "watched" }

save-RoundTrip_example :
    (b : PolicyBackend) × (save none "acme" (block ∷ watch ∷ []) (table []) ≡ ok b)
    × (load "acme" b ≡ ok (block ∷ watch ∷ []))
    × (load "globex" b ≡ load "globex" (table []))
save-RoundTrip_example =
    save-RoundTrip "acme" "globex" (block ∷ watch ∷ []) (table []) refl
      (λ e. ground (arith, eq_iff "globex" "acme"))

abbrev context : Context
context = record { policy_engine = fresh; rate_limiter = empty_limiter; audit_chain = acme }

abbrev pub manager : TenantManager
manager = record {
  tenants = ("default", context) ∷ [];
  custom_rules = ("default", []) ∷ [];
  policy_store = table [];
}

add_policy_rule-unregistered_example :
    let m' = (add_policy_rule none "ghost" block manager).1 in
    (engine_of "default" m' ≡ some (add_engine_rule block fresh))
    × (load "default" m'.policy_store ≡ load "default" manager.policy_store)
    × (rules_of "ghost" m'.custom_rules ≡ rules_of "ghost" manager.custom_rules ++ block ∷ [])
unfolding get_strict lookup
add_policy_rule-unregistered_example =
    add_policy_rule-unregistered fresh none "ghost" block manager fresh refl refl

-- The manager after one rule is added.
abbrev guarded : TenantManager
guarded = (add_policy_rule none "default" block manager).1

add_policy_rule-duplicate_example :
    let (r, m') = add_policy_rule none "default" flag guarded in
    ((x : PolicyStoreError) × (r ≡ err x))
    × (engine_of "default" m' ≡ some (add_engine_rule flag (add_engine_rule block fresh)))
    × ((add_each "default" (watch ∷ []) m').policy_store
        ≡ table (
            record {
              tenant_id = "default";
              rule = record {
                name = "block";
                pattern = "secret";
                action = "deny";
                reason = "blocked";
              };
            }
            ∷ []))
unfolding get_strict add_policy_rule with_rule save insert_rules insert_rule without rows_of lookup
    insert or_default
add_policy_rule-duplicate_example =
    add_policy_rule-duplicate "default" flag (watch ∷ []) guarded _ (add_engine_rule block fresh)
      refl refl refl

abbrev factory : Factory
factory = record { now = 5; engine = fresh; chain_of = λ t. acme }

-- A restart on what `guarded` has persisted.
abbrev or_manager : Result PolicyStoreError TenantManager → TenantManager
or_manager (ok m) = m
or_manager (err e) = manager

abbrev reopened : TenantManager
reopened = or_manager (open_manager factory guarded.policy_store)

open_manager-Restorable_example : Restorable fresh "default" reopened
unfolding list_stored or_default open_manager register register_missing get_strict add_policy_rule
    with_rule save insert_rules insert_rule without rows_of load rules_from_dicts rule_from_dict
    action_of tenants_of lookup insert add_all
open_manager-Restorable_example =
    open_manager-Restorable factory guarded.policy_store reopened "default" _ refl refl
