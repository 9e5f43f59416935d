-- ===== src/Policy/Citation.antt =====
-- custos/policy_citation.py: the digest of the policy set that a decision was made under. A set of tools is
-- a sorted list without repetitions, so that equal sets are equal lists.
use Prim.Native.String.{compare}
use Prim.Native.Nat.{lt, eq, gt}
use custos_core.Common.{
  String, ◌&&◌, not, Option, none, some, List, [], ◌∷◌, str_eq, is_truthy, if◌then◌else◌,
}
use custos_core.Audit.Record.{Library, text, texts, optional}
use custos_core.Policy.Rule.{PolicyRule, action_value}

-- `sorted(texts)`
insert_text : String → List String → List String
insert_text x [] = x ∷ []
insert_text x (y ∷ ys) = elim (compare x y) [
  | lt ↦ x ∷ y ∷ ys
  | eq ↦ x ∷ y ∷ ys
  | gt ↦ y ∷ insert_text x ys
]

pub sorted : List String → List String
unfolding insert_text
sorted [] = []
sorted (x ∷ xs) = insert_text x (sorted xs)

insert_new : String → List String → List String
insert_new x [] = x ∷ []
insert_new x (y ∷ ys) = elim (compare x y) [
  | lt ↦ x ∷ y ∷ ys
  | eq ↦ y ∷ ys
  | gt ↦ y ∷ insert_new x ys
]

-- `set(texts)`
pub set_of : List String → List String
unfolding insert_new
set_of [] = []
set_of (x ∷ xs) = insert_new x (set_of xs)

-- `_rule_to_canonical`, over `_rule_to_dict` of custos/policy_store.py with its keys sorted.
abbrev pub rule_to_canonical : Library → PolicyRule → String
rule_to_canonical lib r = lib.dumps (
    ("action", text (action_value r.action))
    ∷ ("name", text r.name)
    ∷ ("pattern", text r.pattern)
    ∷ ("reason", text r.reason)
    ∷ [])

canonical_rules : Library → List PolicyRule → List String
canonical_rules lib [] = []
canonical_rules lib (r ∷ rs) = rule_to_canonical lib r ∷ canonical_rules lib rs

unfoldable pub canonical_policy_bytes : Library → List String → List PolicyRule → String
unfolding canonical_rules
canonical_policy_bytes lib tools rules =
    lib.dumps
      (("rules", texts (sorted (canonical_rules lib rules))) ∷ ("tools", texts (sorted tools)) ∷ [])

-- `rules_canonical_digest`; the list is printed by the same function, as the one field of no name.
unfoldable pub rules_canonical_digest : Library → List PolicyRule → String
unfolding canonical_rules
rules_canonical_digest lib rules =
    lib.sha256 (lib.dumps (("", texts (sorted (canonical_rules lib rules))) ∷ []))

abbrev pub regex_engine : String
regex_engine = "regex"

unfoldable pub engine_citation_bytes :
    Library → List String → List PolicyRule → (kind : String) → (pin : Option String) → String
unfolding canonical_rules
engine_citation_bytes lib tools rules kind pin =
    if str_eq kind regex_engine
    then canonical_policy_bytes lib tools rules
    else lib.dumps (
        ("engine", text kind)
        ∷ ("opa_policy", optional pin)
        ∷ ("rules", texts (sorted (canonical_rules lib rules)))
        ∷ ("tools", texts (sorted tools))
        ∷ [])

-- None when a policy that the engine consults cannot be hashed.
unfoldable pub engine_policy_digest :
    Library
    → List String
    → List PolicyRule
    → (kind : String) → (pin : Option String) → Option String
engine_policy_digest lib tools rules kind pin =
    if not (str_eq kind regex_engine) && not (is_truthy pin)
    then none
    else some (lib.sha256 (engine_citation_bytes lib tools rules kind pin))

-- `empty_policy_digest`
pub empty_policy_digest : Library → String
empty_policy_digest lib = lib.sha256 (lib.dumps (("rules", texts []) ∷ ("tools", texts []) ∷ []))
