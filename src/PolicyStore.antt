-- ===== src/PolicyStore.antt =====
-- custos/policy_store.py: the rules that tenants keep across restarts. SQLite and PostgreSQL have the same
-- table, whose rows stand here in the order of their ids; what an engine raises on its own is an argument of
-- a save, and loads and deletions are taken to go through.
pub mod Rows
pub mod RoundTrip
use custos_core.Common.{
  String, Bool, true, false, ◌&&◌, Option, none, some, List, [], ◌∷◌, ◌++◌, map, contains, str_eq,
  is_truthy, Result, ok, err, ◌>>=◌, if◌then◌else◌,
}
use custos_core.Common.Dict.{Dict, lookup, insert, erase, keys}
use custos_core.Policy.Rule.{PolicyAction, allow, deny, audit, action_value, PolicyRule}

-- The dictionary of a rule, which is also what a row holds of it.
pub record RuleDict : Type 0 where
  pub name : String
  pub pattern : String
  pub action : String
  pub reason : String

-- A row of `policy_rules`.
pub record RuleRow : Type 0 where
  pub tenant_id : String
  pub rule : RuleDict

-- The table of a database, or the dictionary of the backend in memory.
pub data PolicyBackend : Type 0 where
  memory : Dict (List RuleDict) → PolicyBackend
  table : List RuleRow → PolicyBackend

-- A violated UNIQUE(tenant_id, name), another failure of the database, and the ValueError of an action.
pub data PolicyStoreError : Type 0 where
  duplicate_name unavailable unknown_action : PolicyStoreError

-- `_rule_to_dict`
abbrev pub rule_to_dict : PolicyRule → RuleDict
rule_to_dict r = record {
  name = r.name;
  pattern = r.pattern;
  action = action_value r.action;
  reason = r.reason;
}

-- `PolicyAction(value)`
unfoldable pub action_of : String → Result PolicyStoreError PolicyAction
action_of value =
    if str_eq value "allow"
    then ok allow
    else if str_eq value "deny"
    then ok deny
    else if str_eq value "audit"
    then ok audit
    else err unknown_action

-- `_rule_from_dict`
unfoldable pub rule_from_dict : RuleDict → Result PolicyStoreError PolicyRule
rule_from_dict d = do
  action ← action_of d.action
  ok (record { name = d.name; pattern = d.pattern; action = action; reason = d.reason })

unfoldable pub rules_from_dicts : List RuleDict → Result PolicyStoreError (List PolicyRule)
rules_from_dicts [] = ok []
rules_from_dicts (d ∷ ds) = do
  rule ← rule_from_dict d
  rules ← rules_from_dicts ds
  ok (rule ∷ rules)

abbrev pub empty_backend : PolicyBackend
empty_backend = memory []

-- `DELETE FROM policy_rules WHERE tenant_id = …`
unfoldable pub without : String → List RuleRow → List RuleRow
without tenant [] = []
without tenant (row ∷ rows) =
    let rest = without tenant rows in if str_eq row.tenant_id tenant then rest else row ∷ rest

-- `SELECT … WHERE tenant_id = … ORDER BY id ASC`
unfoldable pub rows_of : String → List RuleRow → List RuleDict
rows_of tenant [] = []
rows_of tenant (row ∷ rows) =
    let rest = rows_of tenant rows in if str_eq row.tenant_id tenant then row.rule ∷ rest else rest

abbrev pub names : List RuleDict → List String
names [] = []
names (d ∷ ds) = d.name ∷ names ds

-- The INSERT of a rule, under the constraint UNIQUE(tenant_id, name).
unfoldable pub insert_rule :
    String → RuleDict → List RuleRow → Result PolicyStoreError (List RuleRow)
insert_rule tenant d rows =
    if contains (names (rows_of tenant rows)) d.name
    then err duplicate_name
    else ok (rows ++ record { tenant_id = tenant; rule = d } ∷ [])

unfoldable pub insert_rules :
    String → List RuleDict → List RuleRow → Result PolicyStoreError (List RuleRow)
insert_rules tenant [] rows = ok rows
insert_rules tenant (d ∷ ds) rows = insert_rule tenant d rows >>= insert_rules tenant ds

abbrev pub as_table : Result PolicyStoreError (List RuleRow) → Result PolicyStoreError PolicyBackend
as_table (ok rows) = ok (table rows)
as_table (err e) = err e

-- `save`: one transaction, so that a failure leaves the table as it was.
unfoldable pub save :
    Option PolicyStoreError
    → String
    → List PolicyRule
    → PolicyBackend
    → Result PolicyStoreError PolicyBackend
save fault tenant rules (memory d) = ok (memory (insert tenant (map rule_to_dict rules) d))
save (some e) tenant rules (table rows) = err e
save none tenant rules (table rows) =
    as_table (insert_rules tenant (map rule_to_dict rules) (without tenant rows))

abbrev pub dicts_of : String → PolicyBackend → List RuleDict
dicts_of tenant (memory d) = elim (lookup tenant d) [ none ↦ [] | some ds ↦ ds ]
dicts_of tenant (table rows) = rows_of tenant rows

-- `load`
unfoldable pub load : String → PolicyBackend → Result PolicyStoreError (List PolicyRule)
load tenant b = rules_from_dicts (dicts_of tenant b)

-- `delete`
unfoldable pub delete : String → PolicyBackend → PolicyBackend
delete tenant (memory d) = memory (erase tenant d)
delete tenant (table rows) = table (without tenant rows)

-- `SELECT DISTINCT tenant_id`, whose order the databases leave open.
unfoldable pub tenants_of : List RuleRow → List String
tenants_of [] = []
tenants_of (row ∷ rows) =
    let rest = tenants_of rows in if contains rest row.tenant_id then rest else row.tenant_id ∷ rest

-- `list_tenants`
unfoldable pub list_stored : PolicyBackend → List String
list_stored (memory d) = keys d
list_stored (table rows) = tenants_of rows

-- `_build_policy_backend`, for the URL and the path after the environment is read; a database may hold rows.
abbrev pub build_policy_backend :
    (url path : Option String) → (stored : List RuleRow) → PolicyBackend
build_policy_backend url path stored =
    if is_truthy url then table stored else if is_truthy path then table stored else empty_backend
