-- ===== src/Tests/Policy.antt =====
-- The policy engines at concrete inputs. The search is one that finds only the pattern itself.
use custos_core.Common.{
  String, ◌≡◌, refl, false, ◌&&◌, none, some, List, [], ◌∷◌, ◌++◌, arith, str_eq, if◌then◌else◌,
}
use custos_core.Policy.Rule.{PolicyRule, deny, audit, Search}
use custos_core.Policy.Luhn.{checksum, weight, luhn_valid}
use custos_core.Policy.Luhn.Detection.{luhn_valid-change}
use custos_core.Policy.Engine.{Engine, evaluate}
use custos_core.Policy.Engine.Precedence.{first, decide_by, deny_hit, audit_hit, evaluate-first}
use custos_core.Policy.Opa.{unavailable, opa_evaluate, opa_evaluate_with_metadata}
use custos_core.Policy.Opa.Closed.{authorises, opa_evaluate-closed}

abbrev same : Search
same p c = if str_eq p c then some c else none

abbrev note : PolicyRule
note = record { name = "note"; pattern = "secret"; action = audit; reason = "noted" }

abbrev block : PolicyRule
block = record { name = "block"; pattern = "secret"; action = deny; reason = "blocked" }

abbrev engine : Engine
engine = record { rules = note ∷ []; rules_digest_cache = none }

abbrev digest : List PolicyRule → String
digest [] = ""
digest (r ∷ rs) = r.name

-- The number 4111111111111111, and one with a wrong digit.
luhn_valid-change_example :
    luhn_valid ((4 ∷ 1 ∷ []) ++ 2 ∷ (1 ∷ 1 ∷ 1 ∷ 1 ∷ 1 ∷ 1 ∷ 1 ∷ 1 ∷ 1 ∷ 1 ∷ 1 ∷ 1 ∷ 1 ∷ []))
    ≡ false
unfolding luhn_valid checksum weight
luhn_valid-change_example =
    luhn_valid-change 1 2 (4 ∷ 1 ∷ []) (1 ∷ 1 ∷ 1 ∷ 1 ∷ 1 ∷ 1 ∷ 1 ∷ 1 ∷ 1 ∷ 1 ∷ 1 ∷ 1 ∷ 1 ∷ [])
      (omega arith) (omega arith) (λ e. omega arith) refl

evaluate-first_example :
    evaluate same (note ∷ block ∷ []) "secret"
    ≡ decide_by
        (first (deny_hit same "secret") (note ∷ block ∷ []))
        (first (audit_hit same "secret") (note ∷ block ∷ []))
evaluate-first_example = evaluate-first same "secret" (note ∷ block ∷ [])

opa_evaluate-closed_example :
    ((opa_evaluate same (note ∷ []) unavailable "secret").allowed
      ≡ (evaluate same (note ∷ []) "secret").allowed && authorises unavailable)
    × ((opa_evaluate_with_metadata same (note ∷ []) unavailable "secret").allowed
        ≡ (evaluate same (note ∷ []) "secret").allowed && authorises unavailable)
opa_evaluate-closed_example = opa_evaluate-closed same (note ∷ []) "secret" unavailable
