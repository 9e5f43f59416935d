-- ===== src/Tenant/Duplicate.antt =====
-- custos/tenant.py: a rule with the name of another, on a backend with a table.
use custos_core.Common.{
  String, ◌≡◌, refl, ap, ◌∙◌, true, false, none, some, List, [], ◌∷◌, ◌++◌, map, contains, arith,
  eq_iff, Result, ok, err,
}
use custos_core.Policy.Rule.{PolicyRule}
use custos_core.ActionGate.{AnyEngine, add_engine_rule}
use custos_core.PolicyStore.{
  RuleRow, RuleDict, PolicyBackend, table, PolicyStoreError, rule_to_dict, names, save,
}
use custos_core.PolicyStore.Rows.{distinct}
use custos_core.PolicyStore.RoundTrip.{own_names, is_saved, save-is_saved}
use custos_core.Tenant.{TenantManager, rules_of, with_rule, persisted, add_policy_rule}
use custos_core.Tenant.Rules.{engine_of, with_rule-engine, with_rule-rules}

-- The manager after more rules are added for a tenant, the database having no fault.
abbrev pub add_each : String → List PolicyRule → TenantManager → TenantManager
add_each tenant [] m = m
add_each tenant (r ∷ rules) m = add_each tenant rules (add_policy_rule none tenant r m).1

contains-append :
    (ds : List RuleDict) (e : RuleDict) (name : String)
    → contains (names ds) name ≡ true
    → contains (names (ds ++ e ∷ [])) name ≡ true
contains-append [] e name h = cc
contains-append (d ∷ ds) e name h = ground (arith, contains-append ds e name)

contains-last : (ds : List RuleDict) (e : RuleDict) → contains (names (ds ++ e ∷ [])) e.name ≡ true
contains-last [] e = ground (arith, eq_iff e.name e.name)
contains-last (d ∷ ds) e = ground (arith, contains-last ds e)

-- A list with a repeated name keeps it when rules are added.
distinct-append :
    (ds : List RuleDict) (e : RuleDict) → distinct ds ≡ false → distinct (ds ++ e ∷ []) ≡ false
distinct-append [] e h = cc
distinct-append (d ∷ ds) e h = ground (arith, distinct-append ds e, contains-append ds e d.name)

distinct-repeated :
    (ds : List RuleDict) (e : RuleDict)
    → contains (names ds) e.name ≡ true
    → distinct (ds ++ e ∷ []) ≡ false
distinct-repeated [] e h = cc
distinct-repeated (d ∷ ds) e h =
    ground (arith, distinct-repeated ds e, contains-last ds e, eq_iff d.name e.name)

map-append :
    (rules : List PolicyRule) (r : PolicyRule)
    → map rule_to_dict (rules ++ r ∷ []) ≡ map rule_to_dict rules ++ rule_to_dict r ∷ []
map-append [] r = refl
map-append (s ∷ rules) r = ap (λ l. rule_to_dict s ∷ l) (map-append rules r)

persisted-refused :
    (m : TenantManager) (r : Result PolicyStoreError PolicyBackend)
    → is_saved r ≡ false
    → ((x : PolicyStoreError) × ((persisted m r).0 ≡ err x)) × ((persisted m r).1 ≡ m)
persisted-refused m (ok b) h = cc
persisted-refused m (err x) h = ((x, refl), refl)

-- An addition to a list with a repeated name raises, and changes the engine and the list only.
refused :
    (tenant : String) (rule : PolicyRule) (m : TenantManager) (rows : List RuleRow)
    → m.policy_store ≡ table rows
    → own_names (rules_of tenant (with_rule tenant rule m).custom_rules) ≡ false
    → ((x : PolicyStoreError) × ((add_policy_rule none tenant rule m).0 ≡ err x))
      × ((add_policy_rule none tenant rule m).1 ≡ with_rule tenant rule m)
unfolding add_policy_rule
refused tenant rule m rows at clash =
    let rules = rules_of tenant (with_rule tenant rule m).custom_rules in
    persisted-refused (with_rule tenant rule m) _
      (ap (λ b. is_saved (save none tenant rules b)) at ∙ (save-is_saved tenant rules rows ∙ clash))

still_clashing :
    (tenant : String) (rule : PolicyRule) (m : TenantManager)
    → own_names (rules_of tenant m.custom_rules) ≡ false
    → own_names (rules_of tenant (with_rule tenant rule m).custom_rules) ≡ false
still_clashing tenant rule m clash =
    let rules = rules_of tenant m.custom_rules in
    ap own_names (with_rule-rules tenant rule m)
    ∙ (ap distinct (map-append rules rule)
        ∙ distinct-append (map rule_to_dict rules) (rule_to_dict rule) clash)

with_rule-store :
    (tenant : String) (rule : PolicyRule) (m : TenantManager)
    → (with_rule tenant rule m).policy_store ≡ m.policy_store
unfolding with_rule
with_rule-store tenant rule m = refl

never_stored :
    (tenant : String) (rules : List PolicyRule) (m : TenantManager) (rows : List RuleRow)
    → m.policy_store ≡ table rows
    → own_names (rules_of tenant m.custom_rules) ≡ false
    → (add_each tenant rules m).policy_store ≡ table rows
never_stored tenant [] m rows at clash = at
never_stored tenant (r ∷ rules) m rows at clash =
    let more = still_clashing tenant r m clash in
    let (_, after) = refused tenant r m rows at more in
    never_stored tenant rules (add_policy_rule none tenant r m).1 rows
      (ap (λ (x : TenantManager). x.policy_store) after ∙ (with_rule-store tenant r m ∙ at))
      (ap (λ (x : TenantManager). own_names (rules_of tenant x.custom_rules)) after ∙ more)

-- On a backend with a table, adding a rule whose name another custom rule of the registered tenant has
-- raises, and the rule is enforced all the same; and no rule that is added for the tenant later is ever
-- persisted, the database having no fault.
pub add_policy_rule-duplicate :
    (tenant : String) (rule : PolicyRule) (later : List PolicyRule) (m : TenantManager)
    (rows : List RuleRow) (e : AnyEngine)
    → m.policy_store ≡ table rows
    → contains (names (map rule_to_dict (rules_of tenant m.custom_rules))) rule.name ≡ true
    → engine_of tenant m ≡ some e
    → let (r, m') = add_policy_rule none tenant rule m in
      ((x : PolicyStoreError) × (r ≡ err x))
      × (engine_of tenant m' ≡ some (add_engine_rule rule e))
      × ((add_each tenant later m').policy_store ≡ table rows)
add_policy_rule-duplicate tenant rule later m rows e at taken h =
    let rules = rules_of tenant m.custom_rules in
    let clash : own_names (rules_of tenant (with_rule tenant rule m).custom_rules) ≡ false =
      ap own_names (with_rule-rules tenant rule m)
      ∙ (ap distinct (map-append rules rule)
          ∙ distinct-repeated (map rule_to_dict rules) (rule_to_dict rule) taken) in
    let (raised, after) = refused tenant rule m rows at clash in
    (
      raised,
      ap (engine_of tenant) after ∙ with_rule-engine e tenant rule m h,
      never_stored tenant later (add_policy_rule none tenant rule m).1 rows
          (ap (λ (x : TenantManager). x.policy_store) after ∙ (with_rule-store tenant rule m ∙ at))
          (ap (λ (x : TenantManager). own_names (rules_of tenant x.custom_rules)) after ∙ clash),
    )
