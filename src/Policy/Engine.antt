-- ===== src/Policy/Engine.antt =====
-- custos/policy_engine.py: `class PolicyEngine`. The default rules are data, which the engine takes as
-- an argument; the digest of the rules is that of custos/policy_citation.py, a parameter here.
pub mod Precedence
pub mod Digest
use custos_core.Common.{
  ◌++◌, String, Bool, true, false, ◌&&◌, ◌||◌, Option, none, some, List, [], ◌∷◌, contains,
  if◌then◌else◌,
}
use custos_core.Policy.Luhn.{digits_of, luhn_valid}
use custos_core.Policy.Rule.{PolicyAction, allow, deny, audit, PolicyRule, PolicyResult, Search}

-- _POST_VALIDATION_RULES
abbrev pub post_validation_rules : List String
post_validation_rules = "block_pii_credit_card" ∷ []

-- Whether a rule counts as hit: it matches, and a card number passes the checksum.
unfoldable pub is_hit : Search → String → PolicyRule → Bool
is_hit search content rule = elim (search rule.pattern content) [
  | none ↦ false
  | some matched ↦
      if contains post_validation_rules rule.name then luhn_valid (digits_of matched) else true
]

abbrev pub denied_by : PolicyRule → PolicyResult
denied_by rule = record {
  allowed = false;
  action = deny;
  triggered_rule = some rule.name;
  reason = rule.reason;
}

abbrev pub audited_by : PolicyRule → PolicyResult
audited_by rule = record {
  allowed = true;
  action = audit;
  triggered_rule = some rule.name;
  reason = rule.reason;
}

abbrev pub no_violation : PolicyResult
no_violation = record {
  allowed = true;
  action = allow;
  triggered_rule = none;
  reason = "No policy violations detected";
}

-- After the loop.
abbrev pub outcome : Option PolicyRule → PolicyResult
outcome none = no_violation
outcome (some rule) = audited_by rule

-- `elif rule.action == AUDIT and audit_hit is None`
abbrev pub keep_audit : PolicyRule → PolicyAction → Option PolicyRule → Option PolicyRule
keep_audit rule audit none = some rule
keep_audit rule _ hit = hit

abbrev is_deny : PolicyAction → Bool
is_deny deny = true
is_deny _ = false

-- The loop over the rules, with the first audit hit so far.
unfoldable pub scan : Search → String → List PolicyRule → Option PolicyRule → PolicyResult
scan search content [] hit = outcome hit
scan search content (rule ∷ rules) hit =
    let missed = scan search content rules hit in
    let noted = scan search content rules (keep_audit rule rule.action hit) in
    if is_hit search content rule
    then if is_deny rule.action then denied_by rule else noted
    else missed

-- `PolicyEngine.evaluate`
unfoldable pub evaluate : Search → List PolicyRule → String → PolicyResult
unfolding scan
evaluate search rules content = scan search content rules none

-- The engine's state: the rules in force and the cached digest.
pub record Engine : Type 0 where
  pub rules : List PolicyRule
  pub rules_digest_cache : Option String

unfoldable pub add_rule : PolicyRule → Engine → Engine
add_rule rule e = record { rules = e.rules ++ rule ∷ []; rules_digest_cache = none }

-- The property `rules_digest`, which fills the cache.
unfoldable pub rules_digest : (List PolicyRule → String) → Engine → String × Engine
rules_digest digest e = elim e.rules_digest_cache [
  | some d ↦ (d, e)
  | none ↦ let d = digest e.rules in (d, record e { rules_digest_cache = some d })
]
