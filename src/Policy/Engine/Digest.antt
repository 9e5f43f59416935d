-- ===== src/Policy/Engine/Digest.antt =====
-- custos/policy_engine.py: the cached digest of the rules.
use custos_core.Common.{String, ◌≡◌, refl, ap, Option, none, some, List, [], ◌∷◌, ◌++◌}
use custos_core.Policy.Rule.{PolicyRule}
use custos_core.Policy.Engine.{Engine, add_rule, rules_digest}

abbrev pub IsDigest : String → Option String → Type 0
IsDigest expected none = Unit
IsDigest expected (some d) = d ≡ expected

-- What the cache holds, if anything, is the digest of the rules in force.
abbrev pub IsFresh : (List PolicyRule → String) → Engine → Type 0
IsFresh digest e = IsDigest (digest e.rules) e.rules_digest_cache

cached :
    (digest : List PolicyRule → String) (rules : List PolicyRule) (cache : Option String)
    → IsDigest (digest rules) cache
    → let (d, e) = rules_digest digest (record { rules = rules; rules_digest_cache = cache }) in
      (d ≡ digest rules) × (e.rules ≡ rules) × IsDigest (digest e.rules) e.rules_digest_cache
unfolding rules_digest
cached digest rules none h = (refl, refl, refl)
cached digest rules (some d) h = (h, refl, h)

-- If the cache is empty or holds the digest of the rules in force, then the digest that the engine reports
-- is that of the rules in force, also right after a rule was added; reading it changes no rule; and neither
-- reading nor adding makes the cache stale.
pub rules_digest-add_rule :
    (digest : List PolicyRule → String) (e : Engine) (r : PolicyRule)
    → IsFresh digest e
    → ((rules_digest digest e).0 ≡ digest e.rules)
      × ((rules_digest digest e).1.rules ≡ e.rules)
      × IsFresh digest (rules_digest digest e).1
      × IsFresh digest (add_rule r e)
      × ((rules_digest digest (add_rule r (rules_digest digest e).1)).0
          ≡ digest (e.rules ++ r ∷ []))
rules_digest-add_rule digest e r fresh =
    let (value, same, still) = cached digest e.rules e.rules_digest_cache fresh in
    (
      value,
      same,
      still,
      unfold add_rule in tt,
      unfold add_rule rules_digest in ap (λ rs. digest (rs ++ r ∷ [])) same,
    )
