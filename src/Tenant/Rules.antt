-- ===== src/Tenant/Rules.antt =====
-- custos/tenant.py: the custom rules of a tenant, in force, persisted, and after a restart.
use custos_core.Common.{
  String, ◌++◌, ◌≡◌, ◌≢◌, refl, ap, ◌∙◌, Option, none, some, List, [], ◌∷◌, arith, eq_iff, Result,
  ok, err,
}
use custos_core.Common.Dict.{Dict, lookup, lookup-insert}
use custos_core.Policy.Rule.{PolicyRule}
use custos_core.ActionGate.{AnyEngine, add_engine_rule}
use custos_core.PolicyStore.{PolicyBackend, PolicyStoreError, load, save}
use custos_core.PolicyStore.RoundTrip.{load-save_other}
use custos_core.Tenant.{
  Context, TenantManager, rules_of, add_all, get_strict, or_default, with_rule, persisted,
  add_policy_rule,
}

-- The engine of a tenant.
abbrev pub engine_of : String → TenantManager → Option AnyEngine
engine_of tenant m = elim (get_strict tenant m) [ none ↦ none | some ctx ↦ some ctx.policy_engine ]

-- What a tenant enforces is what a restart would build again from the store on the engine `fresh`, and the
-- list that is kept is the one persisted.
pub record Restorable (fresh : AnyEngine) (tenant : String) (m : TenantManager) : Type 0 where
  pub rules : List PolicyRule
  pub stored : load tenant m.policy_store ≡ ok rules
  pub enforced : engine_of tenant m ≡ some (add_all rules fresh)
  pub kept : rules_of tenant m.custom_rules ≡ rules

pub add_all-append :
    (rules : List PolicyRule) (r : PolicyRule) (engine : AnyEngine)
    → add_all (rules ++ r ∷ []) engine ≡ add_engine_rule r (add_all rules engine)
unfolding add_all
add_all-append [] r engine = refl
add_all-append (s ∷ rules) r engine = add_all-append rules r (add_engine_rule s engine)

pub enforced_at :
    (e : AnyEngine) (tenant name : String) (rule : PolicyRule) (m : TenantManager)
    → or_default tenant m ≡ name
    → engine_of name m ≡ some e
    → engine_of name (with_rule tenant rule m) ≡ some (add_engine_rule rule e)
unfolding with_rule get_strict
enforced_at e tenant name rule m at h = grind (arith, lookup-insert, eq_iff name name)

pub with_rule-engine :
    (e : AnyEngine) (tenant : String) (rule : PolicyRule) (m : TenantManager)
    → engine_of tenant m ≡ some e
    → engine_of tenant (with_rule tenant rule m) ≡ some (add_engine_rule rule e)
unfolding with_rule get_strict or_default
with_rule-engine e tenant rule m h = grind (arith, lookup-insert, eq_iff tenant tenant)

pub with_rule-rules :
    (tenant : String) (rule : PolicyRule) (m : TenantManager)
    → rules_of tenant (with_rule tenant rule m).custom_rules
      ≡ rules_of tenant m.custom_rules ++ rule ∷ []
unfolding with_rule
with_rule-rules tenant rule m = grind (arith, lookup-insert, eq_iff tenant tenant)

-- What an addition that the store accepts is.
persisted-ok :
    (m : TenantManager) (r : Result PolicyStoreError PolicyBackend)
    → (persisted m r).0 ≡ ok tt
    → (b : PolicyBackend) × (r ≡ ok b) × ((persisted m r).1 ≡ record m { policy_store = b })
persisted-ok m (ok b) h = (b, refl, refl)
persisted-ok m (err e) h = cc

persisted-kept :
    (m : TenantManager) (r : Result PolicyStoreError PolicyBackend)
    → ((persisted m r).1.tenants ≡ m.tenants) × ((persisted m r).1.custom_rules ≡ m.custom_rules)
persisted-kept m (ok b) = (refl, refl)
persisted-kept m (err e) = (refl, refl)

pub add_policy_rule-ok :
    (fault : Option PolicyStoreError) (tenant : String) (rule : PolicyRule) (m : TenantManager)
    → (add_policy_rule fault tenant rule m).0 ≡ ok tt
    → (b : PolicyBackend) × (save fault tenant
          (rules_of tenant (with_rule tenant rule m).custom_rules)
          m.policy_store
        ≡ ok b)
      × ((add_policy_rule fault tenant rule m).1
          ≡ record (with_rule tenant rule m) { policy_store = b })
unfolding add_policy_rule
add_policy_rule-ok fault tenant rule m h = persisted-ok (with_rule tenant rule m) _ h

module _ (fresh : AnyEngine) (fault : Option PolicyStoreError) (tenant : String) (rule : PolicyRule)
    (m : TenantManager) where
  -- What an addition does, whether the store accepts it or raises.
  pub add_policy_rule-kept :
      ((add_policy_rule fault tenant rule m).1.tenants ≡ (with_rule tenant rule m).tenants)
      × ((add_policy_rule fault tenant rule m).1.custom_rules
          ≡ (with_rule tenant rule m).custom_rules)
  unfolding add_policy_rule
  add_policy_rule-kept =
      persisted-kept (with_rule tenant rule m)
        (save fault tenant (rules_of tenant (with_rule tenant rule m).custom_rules) m.policy_store)

  unregistered-stored :
      (r : Result PolicyStoreError PolicyBackend) (u : String)
      → save fault tenant (rules_of tenant (with_rule tenant rule m).custom_rules) m.policy_store
        ≡ r
      → u ≢ tenant
      → load u (persisted (with_rule tenant rule m) r).1.policy_store ≡ load u m.policy_store
  unfolding with_rule
  unregistered-stored (ok b) u saved other =
      load-save_other tenant u _ fault m.policy_store b saved other
  unregistered-stored (err e) u saved other = refl

  -- A rule that is added for a tenant that is not registered is enforced on the default tenant, and kept for
  -- the other: the engine of the default tenant has the rule, its persisted rules do not change, and the
  -- rule is in the list of the other tenant; whether the store accepts the rule or raises.
  pub add_policy_rule-unregistered :
      (e : AnyEngine)
      → get_strict tenant m ≡ none
      → engine_of "default" m ≡ some e
      → let m' = (add_policy_rule fault tenant rule m).1 in
        (engine_of "default" m' ≡ some (add_engine_rule rule e))
        × (load "default" m'.policy_store ≡ load "default" m.policy_store)
        × (rules_of tenant m'.custom_rules ≡ rules_of tenant m.custom_rules ++ rule ∷ [])
  unfolding add_policy_rule get_strict
  add_policy_rule-unregistered e un h =
      let falls : or_default tenant m ≡ "default" =
        unfold or_default get_strict in ground (arith, un) in
      let other : "default" ≢ tenant =
        λ same. (let seen = ap (λ t. lookup t m.tenants) same in ground arith) in
      let (same_tenants, same_rules) = add_policy_rule-kept in
      (
        ap
              (λ (d : Dict Context). elim (lookup "default" d) [
                | none ↦ none
                | some ctx ↦ some ctx.policy_engine
              ])
              same_tenants
            ∙ enforced_at e tenant "default" rule m falls h,
        unregistered-stored
            (save fault tenant (rules_of tenant (with_rule tenant rule m).custom_rules)
              m.policy_store)
            "default" refl other,
        ap (rules_of tenant) same_rules ∙ with_rule-rules tenant rule m,
      )
