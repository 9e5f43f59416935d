-- ===== src/Policy/Opa/Closed.antt =====
-- custos/opa_engine.py and custos/hybrid_engine.py: what an allowed result rests on.
use custos_core.Common.{
  String, ◌≡◌, refl, Bool, false, ◌&&◌, not, Option, none, some, List, [], ◌∷◌, arith,
}
use custos_core.Policy.Rule.{PolicyRule, Search}
use custos_core.Policy.Engine.{scan, evaluate, keep_audit}
use custos_core.Policy.Opa.{
  Reply, unavailable, unexpected, object, plain, is_true, to_bool, is_deny, opa_evaluate,
  opa_evaluate_with_metadata, hybrid_evaluate,
}

-- The server has answered with a literal True, in an object or as a plain Boolean.
abbrev pub authorises : Reply → Bool
authorises (object a) = is_true a.allow_value
authorises (plain b reasons rule) = b
authorises _ = false

-- The server has answered, and its answer is not true.
abbrev pub refuses : Reply → Bool
refuses (object a) = not (to_bool a.allow_value)
refuses (plain b reasons rule) = not b
refuses _ = false

scan-is_deny :
    (search : Search) (content : String) (rules : List PolicyRule) (hit : Option PolicyRule)
    → is_deny (scan search content rules hit).action ≡ not (scan search content rules hit).allowed
unfolding scan
scan-is_deny search content [] none = refl
scan-is_deny search content [] (some r) = refl
scan-is_deny search content (rule ∷ rules) hit = ground (
  arith,
  scan-is_deny search content rules hit,
  scan-is_deny search content rules (keep_audit rule rule.action hit),
)

-- A result of the regex engine denies exactly when it does not allow.
evaluate-is_deny :
    (search : Search) (rules : List PolicyRule) (content : String)
    → is_deny (evaluate search rules content).action ≡ not (evaluate search rules content).allowed
unfolding evaluate
evaluate-is_deny search rules content = scan-is_deny search content rules none

module _ (search : Search) (rules : List PolicyRule) (content : String) where
  evaluate-allowed :
      (reply : Reply)
      → (opa_evaluate search rules reply content).allowed
        ≡ (evaluate search rules content).allowed && authorises reply
  unfolding opa_evaluate
  evaluate-allowed unavailable = ground (arith, evaluate-is_deny search rules content)
  evaluate-allowed (object a) = ground (arith, evaluate-is_deny search rules content)
  evaluate-allowed (plain b reasons rule) = ground (arith, evaluate-is_deny search rules content)
  evaluate-allowed unexpected = ground (arith, evaluate-is_deny search rules content)

  metadata-allowed :
      (reply : Reply)
      → (opa_evaluate_with_metadata search rules reply content).allowed
        ≡ (evaluate search rules content).allowed && authorises reply
  unfolding opa_evaluate_with_metadata
  metadata-allowed unavailable = ground (arith, evaluate-is_deny search rules content)
  metadata-allowed (object a) = ground (arith, evaluate-is_deny search rules content)
  metadata-allowed (plain b reasons rule) = ground (arith, evaluate-is_deny search rules content)
  metadata-allowed unexpected = ground (arith, evaluate-is_deny search rules content)

  -- On the replies that the OPA engine reads without raising (no usable one, or a JSON object whose reasons are
  -- lists of texts), either of its methods allows exactly when the tenant's custom rules allow and `result` is a
  -- literal True or an object with a literal True under `allow`. No answer, a `result` of another form, and any
  -- other value under `allow` are denials. Nothing is said of the bodies on which the engine raises.
  pub opa_evaluate-closed :
      (reply : Reply)
      → ((opa_evaluate search rules reply content).allowed
          ≡ (evaluate search rules content).allowed && authorises reply)
        × ((opa_evaluate_with_metadata search rules reply content).allowed
            ≡ (evaluate search rules content).allowed && authorises reply)
  opa_evaluate-closed reply = (evaluate-allowed reply, metadata-allowed reply)

  -- The hybrid engine never loosens the regex rules: it allows exactly when they allow and the server has
  -- not refused; a server that does not answer, or not in a known form, leaves the regex result.
  pub hybrid_evaluate-allowed :
      (reply : Reply)
      → (hybrid_evaluate search rules reply content).allowed
        ≡ (evaluate search rules content).allowed && not (refuses reply)
  unfolding hybrid_evaluate
  hybrid_evaluate-allowed unavailable = ground arith
  hybrid_evaluate-allowed (object a) = ground arith
  hybrid_evaluate-allowed (plain b reasons rule) = ground arith
  hybrid_evaluate-allowed unexpected = ground arith
