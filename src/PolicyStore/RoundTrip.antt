-- ===== src/PolicyStore/RoundTrip.antt =====
-- custos/policy_store.py: what is loaded after a save.
use mathlib.Core.List.{append-nil}
use custos_core.Common.{
  String, Bool, true, false, ◌&&◌, not, ◌≡◌, ◌≢◌, refl, sym, ap, ◌∙◌, Option, none, some, List, [],
  ◌∷◌, map, str_eq, arith, eq_iff, str_eq_refl, Result, ok, err, if◌then◌else◌,
}
use custos_core.Common.Dict.{insert, lookup-insert}
use custos_core.Policy.Rule.{PolicyAction, allow, deny, audit, action_value, PolicyRule}
use custos_core.PolicyStore.{
  RuleDict, RuleRow, PolicyBackend, memory, table, PolicyStoreError, rule_to_dict, action_of,
  rule_from_dict, rules_from_dicts, without, rows_of, insert_rules, as_table, save, dicts_of, load,
}
use custos_core.PolicyStore.Rows.{
  rows_of-without, insert_rules-rows_of, insert_rules-is_ok, is_ok_rows, clash, distinct,
}

action_of-action_value : (a : PolicyAction) → action_of (action_value a) ≡ ok a
unfolding action_of
action_of-action_value allow = refl
action_of-action_value deny = refl
action_of-action_value audit = refl

rule_from_dict-rule_to_dict : (r : PolicyRule) → rule_from_dict (rule_to_dict r) ≡ ok r
unfolding rule_from_dict
rule_from_dict-rule_to_dict r = rw (action_of-action_value r.action) refl

rules_from_dicts-map :
    (rules : List PolicyRule) → rules_from_dicts (map rule_to_dict rules) ≡ ok rules
unfolding rules_from_dicts
rules_from_dicts-map [] = refl
rules_from_dicts-map (r ∷ rules) =
    rw (rule_from_dict-rule_to_dict r, rules_from_dicts-map rules) refl

-- Whether each rule of a list has a name of its own.
abbrev pub own_names : List PolicyRule → Bool
own_names rules = distinct (map rule_to_dict rules)

abbrev pub is_saved : Result PolicyStoreError PolicyBackend → Bool
is_saved (ok b) = true
is_saved (err e) = false

dicts_of-as_table :
    (tenant u : String) (ds : List RuleDict) (rows : List RuleRow) (b' : PolicyBackend)
    (inserted : Result PolicyStoreError (List RuleRow))
    → insert_rules tenant ds (without tenant rows) ≡ inserted
    → as_table inserted ≡ ok b'
    → dicts_of u b' ≡ (if str_eq tenant u then ds else rows_of u rows)
dicts_of-as_table tenant u ds rows b' (err e) run h = cc
dicts_of-as_table tenant u ds rows b' (ok rows') run h =
    let here : ◌≡◌ {A = PolicyBackend} (table rows') b' = ground arith in
    let found = insert_rules-rows_of tenant u ds (without tenant rows) rows' run in
    ap (dicts_of u) (sym here)
    ∙ found
    ∙ ground (arith, rows_of-without tenant u rows, append-nil (rows_of u rows))

-- A save replaces the rules of its tenant and leaves those of the others.
pub dicts_of-save :
    (tenant u : String) (rules : List PolicyRule) (fault : Option PolicyStoreError)
    (b b' : PolicyBackend)
    → save fault tenant rules b ≡ ok b'
    → dicts_of u b' ≡ (if str_eq tenant u then map rule_to_dict rules else dicts_of u b)
unfolding save
dicts_of-save tenant u rules fault (memory d) b' h =
    let here : ◌≡◌ {A = PolicyBackend} (memory (insert tenant (map rule_to_dict rules) d)) b' =
      ground arith in
    ap (dicts_of u) (sym here) ∙ grind (arith, lookup-insert, eq_iff tenant u)
dicts_of-save tenant u rules (some e) (table rows) b' h = cc
dicts_of-save tenant u rules none (table rows) b' h =
    dicts_of-as_table tenant u (map rule_to_dict rules) rows b' _ refl h

pub load-save :
    (tenant : String) (rules : List PolicyRule) (fault : Option PolicyStoreError)
    (b b' : PolicyBackend)
    → save fault tenant rules b ≡ ok b'
    → load tenant b' ≡ ok rules
unfolding load
load-save tenant rules fault b b' h =
    let found : dicts_of tenant b' ≡ map rule_to_dict rules =
      ground (arith, dicts_of-save tenant tenant rules fault b b' h, str_eq_refl tenant) in
    ap rules_from_dicts found ∙ rules_from_dicts-map rules

pub load-save_other :
    (tenant u : String) (rules : List PolicyRule) (fault : Option PolicyStoreError)
    (b b' : PolicyBackend)
    → save fault tenant rules b ≡ ok b'
    → u ≢ tenant
    → load u b' ≡ load u b
unfolding load
load-save_other tenant u rules fault b b' h other =
    let found : dicts_of u b' ≡ dicts_of u b =
      ground (arith, dicts_of-save tenant u rules fault b b' h, eq_iff tenant u) in
    ap rules_from_dicts found

clash_nothing : (ds : List RuleDict) → clash [] ds ≡ false
clash_nothing [] = refl
clash_nothing (d ∷ ds) = clash_nothing ds

is_saved-as_table :
    (r : Result PolicyStoreError (List RuleRow)) → is_saved (as_table r) ≡ is_ok_rows r
is_saved-as_table (ok rows) = refl
is_saved-as_table (err e) = refl

no_clash : (ds : List RuleDict) → (not (clash [] ds) && distinct ds) ≡ distinct ds
no_clash ds = ap (λ b. not b && distinct ds) (clash_nothing ds)

-- In a table, a save goes through exactly if the names of the rules are distinct.
pub save-is_saved :
    (tenant : String) (rules : List PolicyRule) (rows : List RuleRow)
    → is_saved (save none tenant rules (table rows)) ≡ own_names rules
unfolding save
save-is_saved tenant rules rows =
    let ds = map rule_to_dict rules in
    let clean : rows_of tenant (without tenant rows) ≡ [] =
      ground (arith, rows_of-without tenant tenant rows, str_eq_refl tenant) in
    is_saved-as_table (insert_rules tenant ds (without tenant rows))
    ∙ (insert_rules-is_ok tenant ds (without tenant rows)
        ∙ (ap (λ old. not (clash old ds) && distinct ds) clean ∙ no_clash ds))

saved_some :
    (r : Result PolicyStoreError PolicyBackend)
    → is_saved r ≡ true
    → (b : PolicyBackend) × (r ≡ ok b)
saved_some (ok b) h = (b, refl)
saved_some (err e) h = cc

saves :
    (tenant : String) (rules : List PolicyRule) (b : PolicyBackend)
    → own_names rules ≡ true
    → (b' : PolicyBackend) × (save none tenant rules b ≡ ok b')
unfolding save
saves tenant rules (memory d) own = (memory (insert tenant (map rule_to_dict rules) d), refl)
saves tenant rules (table rows) own =
    saved_some (save none tenant rules (table rows)) (save-is_saved tenant rules rows ∙ own)

-- Rules of distinct names that are saved for a tenant, in memory or in a table, are loaded as they were, in
-- their order, whatever was stored before; and every other tenant loads what it did.
pub save-RoundTrip :
    (tenant u : String) (rules : List PolicyRule) (b : PolicyBackend)
    → own_names rules ≡ true
    → u ≢ tenant
    → (b' : PolicyBackend) × (save none tenant rules b ≡ ok b')
      × (load tenant b' ≡ ok rules)
      × (load u b' ≡ load u b)
save-RoundTrip tenant u rules b own other =
    let (b', saved) = saves tenant rules b own in
    (
      b',
      saved,
      load-save tenant rules none b b' saved,
      load-save_other tenant u rules none b b' saved other,
    )
