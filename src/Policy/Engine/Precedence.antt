-- ===== src/Policy/Engine/Precedence.antt =====
-- custos/policy_engine.py: which rule decides.
use custos_core.Common.{
  ◌++◌, String, ◌≡◌, refl, sym, ap, ◌∙◌, Bool, true, false, ◌&&◌, Option, none, some, List, [], ◌∷◌,
  arith, if◌then◌else◌,
}
use custos_core.Policy.Rule.{PolicyAction, audit, PolicyRule, PolicyResult, Search}
use custos_core.Policy.Engine.{is_hit, is_deny, denied_by, outcome, scan, evaluate}

-- The first rule with the given test.
abbrev pub first : (PolicyRule → Bool) → List PolicyRule → Option PolicyRule
first p [] = none
first p (r ∷ rs) = if p r then some r else first p rs

abbrev is_audit : PolicyAction → Bool
is_audit audit = true
is_audit _ = false

-- The decision from the first deny hit and the first audit hit, wherever they stand in the list.
abbrev pub decide_by : Option PolicyRule → Option PolicyRule → PolicyResult
decide_by (some denial) flagged = denied_by denial
decide_by none flagged = outcome flagged

abbrev or_first : Option PolicyRule → Option PolicyRule → Option PolicyRule
or_first (some r) o = some r
or_first none o = o

module _ (search : Search) (content : String) where
  abbrev pub deny_hit : PolicyRule → Bool
  deny_hit r = is_hit search content r && is_deny r.action

  abbrev pub audit_hit : PolicyRule → Bool
  audit_hit r = is_hit search content r && is_audit r.action

  scan-first :
      (rules : List PolicyRule) (hit : Option PolicyRule)
      → scan search content rules hit
        ≡ decide_by (first deny_hit rules) (or_first hit (first audit_hit rules))
  unfolding scan
  scan-first [] none = refl
  scan-first [] (some r) = refl
  scan-first (rule ∷ rules) none =
      ground (arith, scan-first rules none, scan-first rules (some rule))
  scan-first (rule ∷ rules) (some r) = ground (arith, scan-first rules (some r))

  -- The one loop decides as two searches would: the first rule that denies, if any does, whatever audit
  -- rules were hit before it; else the first audit rule; else the content is allowed.
  pub evaluate-first :
      (rules : List PolicyRule)
      → evaluate search rules content ≡ decide_by (first deny_hit rules) (first audit_hit rules)
  unfolding evaluate
  evaluate-first rules = scan-first rules none

  first-append :
      (p : PolicyRule → Bool) (rules : List PolicyRule) (r : PolicyRule)
      → first p (rules ++ r ∷ []) ≡ or_first (first p rules) (first p (r ∷ []))
  first-append p [] r = refl
  first-append p (s ∷ rules) r = ground (arith, first-append p rules r)

  denied_stays :
      (a b : Option PolicyRule) (x y : Option PolicyRule)
      → (decide_by a x).allowed ≡ false
      → decide_by (or_first a b) y ≡ decide_by a x
  denied_stays none b none y h = cc
  denied_stays none b (some r) y h = cc
  denied_stays (some r) b x y h = refl

  -- A rule added at the end never loosens the policy: content that was denied is denied as before, by the
  -- same rule and for the same reason.
  pub evaluate-append :
      (rules : List PolicyRule) (r : PolicyRule)
      → (evaluate search rules content).allowed ≡ false
      → evaluate search (rules ++ r ∷ []) content ≡ evaluate search rules content
  evaluate-append rules r h =
      evaluate-first (rules ++ r ∷ [])
      ∙ ap (λ a. decide_by a (first audit_hit (rules ++ r ∷ []))) (first-append deny_hit rules r)
      ∙ denied_stays (first deny_hit rules) (first deny_hit (r ∷ [])) (first audit_hit rules) _
          (rw (evaluate-first rules) at h)
      ∙ sym (evaluate-first rules)
