-- ===== src/Tests/ActionGate.antt =====
-- The action gate at concrete inputs.
use custos_core.Common.{String, ◌≡◌, refl, true, Option, none, some, List, [], ◌∷◌}
use custos_core.Audit.Record.{compute_record_hash, preimage_fields}
use custos_core.Audit.Store.{save}
use custos_core.Audit.Chain.{
  record_entry, new_record, resolve_tenant, bound_evidence_required, latest_hash,
}
use custos_core.Policy.Rule.{PolicyRule, deny, Search}
use custos_core.Policy.Engine.{Engine, evaluate, scan, rules_digest}
use custos_core.Policy.Citation.{engine_policy_digest}
use custos_core.Policy.Opa.{unavailable}
use custos_core.ActionGate.{
  ActionRequest, opa, regex, add_engine_rule, TenantContext, ActionGate, cite, fingerprint,
  cited_policy_digest, maybe_anchor_policy_commit,
}
use custos_core.ActionGate.Evaluate.{
  Env, World, decide, danger_of, engine_evaluate, close_decision, evaluate_known, evaluate_action,
}
use custos_core.ActionGate.Governed.{Governed, evaluate_action-Governed}
use custos_core.ActionGate.Stale.{cited_policy_digest-add_engine_rule}
use custos_core.Tests.Toy.{toy, noon, acme}

abbrev never : Search
never pattern content = none

abbrev pub env : Env
env = record {
  lib = toy;
  search = never;
  dangers =
      record { rule_name = "action_cmd_destructive"; pattern = "rm -rf"; reason = "Destructive." }
      ∷ [];
  reply = unavailable;
  env_pin = some "pin";
  utc = "2026-11-26T00:00:00Z";
  moment = noon;
}

abbrev pub engine : Engine
engine = record { rules = []; rules_digest_cache = none }

abbrev block : PolicyRule
block = record { name = "block"; pattern = "secret"; action = deny; reason = "blocked" }

abbrev pub gate : ActionGate
gate = record {
  tool_allowlists = ("acme", "read_file" ∷ []) ∷ [];
  custody = none;
  last_anchored_digest = [];
  digest_cache = [];
}

abbrev tenant : TenantContext
tenant = record { policy_engine = regex engine; audit_chain = acme }

abbrev opa_tenant : TenantContext
opa_tenant = record { policy_engine = opa engine; audit_chain = acme }

abbrev world : World
world = record { gate = gate; tenants = ("acme", tenant) ∷ []; rows = [] }

abbrev pub read_notes : ActionRequest
read_notes = record { tool = "read_file"; command = ""; args_json = "{}" }

evaluate_action-Governed_example :
    Governed env "acme" read_notes "agent"
      (some "t1")
      world
      (evaluate_action env "acme" read_notes "agent" (some "t1") world)
unfolding evaluate_action evaluate_known decide danger_of engine_evaluate close_decision evaluate
    scan record_entry new_record resolve_tenant bound_evidence_required compute_record_hash
    preimage_fields save latest_hash cited_policy_digest cite fingerprint maybe_anchor_policy_commit
    rules_digest engine_policy_digest custos_core.Common.Dict.lookup
evaluate_action-Governed_example =
    evaluate_action-Governed env "acme" read_notes "agent" (some "t1") world refl

cited_policy_digest-add_engine_rule_example :
    let (digest, ctx', g') = cited_policy_digest toy (some "pin") "acme" opa_tenant gate in
    (cited_policy_digest toy
      (some "pin")
      "acme"
      (record ctx' { policy_engine = add_engine_rule block ctx'.policy_engine })
      g').0
    ≡ digest
cited_policy_digest-add_engine_rule_example =
    cited_policy_digest-add_engine_rule toy (some "pin") "acme" opa_tenant gate block refl
