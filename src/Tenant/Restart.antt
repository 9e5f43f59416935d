-- ===== src/Tenant/Restart.antt =====
-- custos/tenant.py: what the constructor makes of a policy store.
use custos_core.Common.{
  String, ◌≡◌, ◌≢◌, sym, ap, subst, ◌∙◌, Option, none, some, List, [], ◌∷◌, arith, eq_iff, str_eq,
  inl, inr, Bool-cases, ok, >>=-eq-ok,
}
use custos_core.Common.Dict.{lookup, has_key, lookup-insert}
use custos_core.Policy.Rule.{PolicyRule}
use custos_core.RateLimiter.{QuotaConfig}
use custos_core.ActionGate.{AnyEngine}
use custos_core.PolicyStore.{PolicyBackend, load, list_stored}
use custos_core.Tenant.{
  Context, TenantManager, Factory, default_quota, rules_of, registered, register, register_missing,
  open_manager, get_strict,
}
use custos_core.Tenant.Rules.{Restorable}

-- Every tenant that is registered is one that a restart would make again.
abbrev AllRestorable : AnyEngine → TenantManager → Type 0
AllRestorable engine m =
    (t : String) (ctx : Context) → get_strict t m ≡ some ctx → Restorable engine t m

registered-own :
    (f : Factory) (tenant : String) (quota : QuotaConfig) (m : TenantManager)
    (rules : List PolicyRule)
    → load tenant m.policy_store ≡ ok rules
    → Restorable f.engine tenant (registered f tenant quota m rules)
unfolding get_strict
registered-own f tenant quota m rules loaded = record {
  rules = rules;
  stored = loaded;
  enforced = grind (arith, lookup-insert, eq_iff tenant tenant);
  kept = grind (arith, lookup-insert, eq_iff tenant tenant);
}

registered-other :
    (f : Factory) (tenant : String) (quota : QuotaConfig) (m : TenantManager)
    (rules : List PolicyRule) (t : String)
    → tenant ≢ t
    → (get_strict t (registered f tenant quota m rules) ≡ get_strict t m)
      × (rules_of t (registered f tenant quota m rules).custom_rules ≡ rules_of t m.custom_rules)
unfolding get_strict
registered-other f tenant quota m rules t other =
    (grind (arith, lookup-insert, eq_iff tenant t), grind (arith, lookup-insert, eq_iff tenant t))

registered-AllRestorable :
    (f : Factory) (tenant : String) (quota : QuotaConfig) (m : TenantManager)
    (rules : List PolicyRule)
    → load tenant m.policy_store ≡ ok rules
    → AllRestorable f.engine m
    → AllRestorable f.engine (registered f tenant quota m rules)
registered-AllRestorable f tenant quota m rules loaded h t ctx known =
    elim (Bool-cases (str_eq tenant t)) [
      | inl same ↦
          let eq : tenant ≡ t = ground (arith, eq_iff tenant t) in
          subst (λ u. Restorable f.engine u (registered f tenant quota m rules)) eq
            (registered-own f tenant quota m rules loaded)
      | inr other ↦
          let (seen, list) =
            registered-other f tenant quota m rules t (λ e. ground (arith, eq_iff tenant t)) in
          let old = h t ctx (sym seen ∙ known) in
          record {
            rules = old.rules;
            stored = old.stored;
            enforced =
                ap (λ (c : Option Context). elim c [ none ↦ none | some x ↦ some x.policy_engine ])
                  seen
                ∙ old.enforced;
            kept = list ∙ old.kept;
          }
    ]

register-AllRestorable :
    (f : Factory) (tenant : String) (quota : QuotaConfig) (m m' : TenantManager)
    → register f tenant quota m ≡ ok m'
    → AllRestorable f.engine m
    → AllRestorable f.engine m'
unfolding register
register-AllRestorable f tenant quota m m' run h =
    let (rules, loaded, rest) = >>=-eq-ok (load tenant m.policy_store) _ run in
    let here : registered f tenant quota m rules ≡ m' = ground arith in
    subst (AllRestorable f.engine) here (registered-AllRestorable f tenant quota m rules loaded h)

register_missing-AllRestorable :
    (f : Factory) (more : List String) (m m' : TenantManager)
    → register_missing f more m ≡ ok m'
    → AllRestorable f.engine m
    → AllRestorable f.engine m'
unfolding register_missing
register_missing-AllRestorable f [] m m' run h =
    (let here : m ≡ m' = ground arith in subst (AllRestorable f.engine) here h)
register_missing-AllRestorable f (tenant ∷ more) m m' run h =
    elim (Bool-cases (has_key tenant m.tenants)) [
      | inl present ↦ register_missing-AllRestorable f more m m' (rw present at run) h
      | inr absent ↦
          let run' = (rw absent at run) in
          let (mid, first, rest) =
            >>=-eq-ok (register f tenant default_quota m) (register_missing f more) run' in
          register_missing-AllRestorable f more mid m' rest
            (register-AllRestorable f tenant default_quota m mid first h)
    ]

none-AllRestorable :
    (engine : AnyEngine) (store : PolicyBackend)
    → AllRestorable engine (record { tenants = []; custom_rules = []; policy_store = store })
unfolding get_strict lookup
none-AllRestorable engine store t ctx known =
    absurd (let nothing : ◌≡◌ {A = Option Context} none (some ctx) = known in cc)

-- If the constructor returns, each tenant that it has registered, the default tenant or one that the store
-- lists, enforces exactly its persisted rules, in their order, on top of the engine of the factory, and its
-- list of custom rules is the persisted one.
pub open_manager-Restorable :
    (f : Factory) (store : PolicyBackend) (m : TenantManager) (tenant : String) (ctx : Context)
    → open_manager f store ≡ ok m
    → get_strict tenant m ≡ some ctx
    → Restorable f.engine tenant m
unfolding open_manager get_strict
open_manager-Restorable f store m tenant ctx run known =
    let (first, opened, rest) = >>=-eq-ok (register f "default" default_quota _) _ run in
    register_missing-AllRestorable f (list_stored store) first m rest
      (register-AllRestorable f "default" default_quota _ first opened
        (none-AllRestorable f.engine store))
      tenant ctx known
