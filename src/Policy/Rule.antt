-- ===== src/Policy/Rule.antt =====
-- custos/policy_engine.py: rules, results, and the regular expressions that the engine takes from `re`.
use custos_core.Common.{String, Bool, Option}

pub data PolicyAction : Type 0 where
  allow deny audit : PolicyAction

-- `PolicyAction.value`
abbrev pub action_value : PolicyAction → String
action_value allow = "allow"
action_value deny = "deny"
action_value audit = "audit"

pub record PolicyRule : Type 0 where
  pub name : String
  pub pattern : String
  pub action : PolicyAction
  pub reason : String

pub record PolicyResult : Type 0 where
  pub allowed : Bool
  pub action : PolicyAction
  pub triggered_rule : Option String
  pub reason : String

-- `re.search(pattern, content)`: the text of the first match. It stands for the searches that return; on a pattern
-- that is no regular expression the source raises `re.error`, see `engine_raises` of Service.antt.
abbrev pub Search : Type 0
Search = String → String → Option String
