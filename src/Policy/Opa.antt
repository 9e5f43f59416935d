-- ===== src/Policy/Opa.antt =====
-- custos/opa_engine.py and custos/hybrid_engine.py: the engines that ask an OPA server. The server is not
-- part of the source: its answer, or its absence, is an argument.
pub mod Closed
use Prim.Native.String
use custos_core.Common.{
  String, Bool, true, false, ◌&&◌, not, Option, none, some, List, [], ◌∷◌, str_eq, is_truthy,
  or_else, if◌then◌else◌,
}
use custos_core.Policy.Rule.{PolicyAction, allow, deny, audit, PolicyRule, PolicyResult, Search}
use custos_core.Policy.Engine.{evaluate}

-- A JSON value, as `is True` and `bool()` see it. Every value that is not a Boolean is true or false.
pub data Value : Type 0 where
  missing : Value
  boolean : Bool → Value
  other_true : Value
  other_false : Value

-- `value is True`
abbrev pub is_true : Value → Bool
is_true (boolean b) = b
is_true _ = false

-- `bool(value)`; a missing key is read as False.
abbrev pub to_bool : Value → Bool
to_bool (boolean b) = b
to_bool other_true = true
to_bool _ = false

-- The object under `result`.
pub record Answer : Type 0 where
  pub allow_value : Value
  pub deny_reasons : List String
  pub deny_messages : List String
  pub triggered_rule : Option String
  pub audit_value : Value

-- The reply of the server: no usable one; and, under `result` of a body that is a JSON object: an object; a
-- Boolean, with the reasons and the rule that stand beside it; anything else. A body that is JSON and no
-- object, and reasons that are no list of texts, make the source raise outside its `try`: they are not among the
-- replies, and what a handler does then is `engine_raises` of Service.antt.
pub data Reply : Type 0 where
  unavailable : Reply
  object : Answer → Reply
  plain : Bool → List String → Option String → Reply
  unexpected : Reply

abbrev pub first_nonempty : List String → List String → List String
first_nonempty [] bs = bs
first_nonempty (a ∷ xs) bs = a ∷ xs

-- `"; ".join(reasons) if reasons else default`
abbrev pub join_or : String → List String → String
join_or d [] = d
join_or d (r ∷ []) = r
join_or d (r ∷ s ∷ rs) = String.◌++◌ r (String.◌++◌ "; " (join_or d (s ∷ rs)))

abbrev pub deny_result : String → String → PolicyResult
deny_result rule reason = record {
  allowed = false;
  action = deny;
  triggered_rule = some rule;
  reason = reason;
}

-- The parts of a usable reply: allowed, reasons, rule, audit flag.
pub record Parts : Type 0 where
  pub permitted : Bool
  pub reasons : List String
  pub rule : Option String
  pub flagged : Bool

-- How the OPA engine reads a reply; only a literal True authorises.
unfoldable pub opa_parts : Reply → Parts
opa_parts (object a) = record {
  permitted = is_true a.allow_value;
  reasons = first_nonempty a.deny_reasons a.deny_messages;
  rule = a.triggered_rule;
  flagged = is_true a.audit_value;
}
opa_parts (plain b reasons rule) = record {
  permitted = b;
  reasons = reasons;
  rule = rule;
  flagged = false;
}
opa_parts _ = record {
  permitted = false;
  reasons = "OPA returned unexpected response format" ∷ [];
  rule = some "opa_parse_error";
  flagged = false;
}

abbrev pub opa_unavailable : PolicyResult
opa_unavailable = deny_result "opa_unavailable" "OPA policy server unavailable"

abbrev denied_parts : Parts → PolicyResult
denied_parts p =
    let reason = join_or "Denied by OPA policy" p.reasons in
    deny_result (or_else p.rule "opa_deny")
      (if p.flagged then String.◌++◌ reason " (audit flag also set)" else reason)

abbrev flagged_parts : Parts → PolicyResult
flagged_parts p = record {
  allowed = true;
  action = audit;
  triggered_rule = some (or_else p.rule "opa_audit");
  reason = join_or "Flagged for audit by OPA" p.reasons;
}

abbrev is_audit : PolicyAction → Bool
is_audit audit = true
is_audit _ = false

abbrev pub is_deny : PolicyAction → Bool
is_deny deny = true
is_deny _ = false

-- The end of both methods, after the custom rules have not denied.
abbrev allowed_parts : PolicyResult → Parts → PolicyResult
allowed_parts custom p =
    if is_audit custom.action
    then record {
      allowed = true;
      action = audit;
      triggered_rule = custom.triggered_rule;
      reason = String.◌++◌ "Custom rule flagged for audit: " custom.reason;
    }
    else record {
      allowed = true;
      action = allow;
      triggered_rule = p.rule;
      reason = "Allowed by OPA policy";
    }

abbrev opa_decision : PolicyResult → Parts → PolicyResult
opa_decision custom p =
    if not p.permitted
    then denied_parts p
    else if p.flagged
    then flagged_parts p
    else allowed_parts custom p

abbrev opa_answer : PolicyResult → Reply → PolicyResult
opa_answer custom unavailable = opa_unavailable
opa_answer custom reply = opa_decision custom (opa_parts reply)

-- `OPAPolicyEngine.evaluate`, with the tenant's custom rules.
unfoldable pub opa_evaluate : Search → List PolicyRule → Reply → String → PolicyResult
unfolding opa_parts
opa_evaluate search custom_rules reply content =
    let custom = evaluate search custom_rules content in
    if is_deny custom.action then custom else opa_answer custom reply

-- `evaluate_with_metadata` has no branch for the audit flag of an allowed answer.
abbrev metadata_answer : PolicyResult → Reply → PolicyResult
metadata_answer custom unavailable = opa_unavailable
metadata_answer custom reply =
    let p = opa_parts reply in if not p.permitted then denied_parts p else allowed_parts custom p

unfoldable pub opa_evaluate_with_metadata : Search → List PolicyRule → Reply → String → PolicyResult
unfolding opa_parts
opa_evaluate_with_metadata search custom_rules reply content =
    let custom = evaluate search custom_rules content in
    if is_deny custom.action then custom else metadata_answer custom reply

-- How the hybrid engine reads a reply: by truth, not by identity with True.
abbrev hybrid_parts : Answer → Parts
hybrid_parts a = record {
  permitted = to_bool a.allow_value;
  reasons = first_nonempty a.deny_reasons a.deny_messages;
  rule = a.triggered_rule;
  flagged = is_true a.audit_value;
}

abbrev some_or : Option String → Option String → Option String
some_or o d = if is_truthy o then o else d

abbrev hybrid_decision : PolicyResult → Parts → PolicyResult
hybrid_decision regex p =
    if is_audit regex.action && p.permitted
    then regex
    else if p.permitted && p.flagged
    then flagged_parts p
    else if not p.permitted
    then deny_result (or_else p.rule "opa_deny") (join_or "Denied by OPA policy" p.reasons)
    else record {
      allowed = true;
      action = allow;
      triggered_rule = some_or p.rule regex.triggered_rule;
      reason = "Allowed by regex + OPA";
    }

abbrev hybrid_answer : PolicyResult → Reply → PolicyResult
hybrid_answer regex (object a) = hybrid_decision regex (hybrid_parts a)
hybrid_answer regex (plain b reasons rule) =
    hybrid_decision regex
      (record { permitted = b; reasons = reasons; rule = rule; flagged = false })
hybrid_answer regex _ = regex

-- `HybridPolicyEngine.evaluate`
unfoldable pub hybrid_evaluate : Search → List PolicyRule → Reply → String → PolicyResult
hybrid_evaluate search rules reply content =
    let regex = evaluate search rules content in
    if regex.allowed then hybrid_answer regex reply else regex

abbrev is_unavailable : Option String → Bool
is_unavailable none = false
is_unavailable (some s) = str_eq s "opa_unavailable"

-- `HybridPolicyEngine.evaluate_with_metadata`; its OPA engine holds no custom rules.
unfoldable pub hybrid_evaluate_with_metadata :
    Search → List PolicyRule → Reply → String → PolicyResult
unfolding opa_evaluate_with_metadata
hybrid_evaluate_with_metadata search rules reply content =
    let regex = evaluate search rules content in
    let opa = opa_evaluate_with_metadata search [] reply content in
    if not regex.allowed
    then regex
    else if is_unavailable opa.triggered_rule
    then regex
    else if is_audit regex.action && opa.allowed
    then regex
    else opa
