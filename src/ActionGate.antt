-- ===== src/ActionGate.antt =====
-- custos/action_gate.py: the gate before an agent's action. A tenant has its engine and its chain; all
-- chains are kept in one table. Retention of contents is off (CUSTOS_CONTENT_RETENTION), so that
-- `record_decision` of custos/retention.py records with the form `none`.
pub mod Evaluate
pub mod Governed
pub mod Stale
use Prim.Native.String
use custos_core.Common.{
  ℕ, String, Bool, true, false, ◌&&◌, ◌||◌, not, Option, none, some, List, [], ◌∷◌, str_eq, or_else,
  contains, ok, err, Result, if◌then◌else◌,
}
use custos_core.Common.Dict.{Dict, lookup, insert, erase}
use custos_core.Audit.Record.{AuditRecord, AuditError, Library, commitment_none}
use custos_core.Audit.Chain.{Chain, Moment, record_entry}
use custos_core.Custody.Manager.{Manager, Commitment, anchor_policy_commit, drain_policy_commits}
use custos_core.Policy.Rule.{deny, action_value, PolicyRule, PolicyResult, Search}
use custos_core.Policy.Engine.{Engine, evaluate, add_rule, rules_digest}
use custos_core.Policy.Opa.{Reply, opa_evaluate, hybrid_evaluate}
use custos_core.Policy.Citation.{
  rules_canonical_digest, engine_citation_bytes, engine_policy_digest, set_of,
}

pub record ActionRequest : Type 0 where
  pub tool : String
  pub command : String
  -- `json.dumps(self.args or {}, sort_keys=True)`
  pub args_json : String

-- `serialize`
abbrev pub serialize : ActionRequest → String
serialize a =
    String.◌++◌ a.tool (String.◌++◌ " " (String.◌++◌ a.command (String.◌++◌ " " a.args_json)))

-- What `create_policy_engine` may return; the OPA engine holds the tenant's custom rules.
pub data AnyEngine : Type 0 where
  regex opa hybrid : Engine → AnyEngine

abbrev pub engine_kind : AnyEngine → String
engine_kind (regex e) = "regex"
engine_kind (opa e) = "opa"
engine_kind (hybrid e) = "hybrid"

abbrev pub inner : AnyEngine → Engine
inner (regex e) = e
inner (opa e) = e
inner (hybrid e) = e

-- `add_rule` of the three engines.
abbrev pub add_engine_rule : PolicyRule → AnyEngine → AnyEngine
add_engine_rule r (regex e) = regex (add_rule r e)
add_engine_rule r (opa e) = opa (add_rule r e)
add_engine_rule r (hybrid e) = hybrid (add_rule r e)

-- The attribute `opa_policy_digest`; the regex engine has none to pin.
abbrev pub pin_of : AnyEngine → Option String → Option String
pin_of (regex e) pin = none
pin_of _ pin = pin

-- `getattr(engine, "rules_digest", None)`: only the regex engine has the property, which fills its cache.
unfoldable pub fingerprint : Library → AnyEngine → Option String × AnyEngine
fingerprint lib (regex e) =
    let (d, e') = rules_digest (rules_canonical_digest lib) e in (some d, regex e')
fingerprint lib engine = (none, engine)

pub record TenantContext : Type 0 where
  pub policy_engine : AnyEngine
  pub audit_chain : Chain

-- The key of the digest cache: tools, kind, digest of the rules, pin.
pub record CacheKey : Type 0 where
  pub tools : List String
  pub kind : String
  pub rules : Option String
  pub pin : Option String

abbrev pub same_option : Option String → Option String → Bool
same_option none none = true
same_option (some a) (some b) = str_eq a b
same_option _ _ = false

abbrev pub same_texts : List String → List String → Bool
same_texts [] [] = true
same_texts (a ∷ xs) (b ∷ ys) = str_eq a b && same_texts xs ys
same_texts _ _ = false

unfoldable pub same_key : CacheKey → CacheKey → Bool
same_key a b =
    same_texts a.tools b.tools
    && (str_eq a.kind b.kind && (same_option a.rules b.rules && same_option a.pin b.pin))

pub record ActionGate : Type 0 where
  pub tool_allowlists : Dict (List String)
  pub custody : Option Manager
  pub last_anchored_digest : Dict String
  pub digest_cache : Dict (CacheKey × Option String)

-- `self._tool_allowlists.get(tenant_id, set())`
abbrev pub list_tools : String → ActionGate → List String
list_tools tenant g = elim (lookup tenant g.tool_allowlists) [ none ↦ [] | some tools ↦ tools ]

unfoldable pub register_tools : String → List String → ActionGate → ActionGate
register_tools tenant tools g = record g {
  tool_allowlists = insert tenant (set_of tools) g.tool_allowlists;
  digest_cache = erase tenant g.digest_cache;
}

-- What a lookup in the cache gives for a key.
abbrev hit : CacheKey → Option (CacheKey × Option String) → Option (Option String)
hit key none = none
hit key (some (k, d)) = if same_key k key then some d else none

-- The end of `_cited_policy_digest`: the cache, or the digest of the rules that are given.
unfoldable pub cite :
    Library → CacheKey → List PolicyRule → String → ActionGate → Option String × ActionGate
cite lib key rules tenant g = elim (hit key (lookup tenant g.digest_cache)) [
  | some d ↦ (d, g)
  | none ↦
      let d = engine_policy_digest lib key.tools rules key.kind key.pin in
      (d, record g { digest_cache = insert tenant (key, d) g.digest_cache })
]

-- The key under which an engine is cited, from its fingerprint.
abbrev pub cache_key : Option String → Option String → String → AnyEngine → ActionGate → CacheKey
cache_key env_pin rules tenant engine g = record {
  tools = list_tools tenant g;
  kind = engine_kind engine;
  rules = rules;
  pin = pin_of engine env_pin;
}

-- `_cited_policy_digest`, with the environment's pin.
unfoldable pub cited_policy_digest :
    Library
    → Option String
    → String
    → TenantContext
    → ActionGate
    → Option String × TenantContext × ActionGate
cited_policy_digest lib env_pin tenant ctx g =
    let (rules, engine) = fingerprint lib ctx.policy_engine in
    let (d, g') =
      cite lib (cache_key env_pin rules tenant engine g) (inner engine).rules tenant g in
    (d, record ctx { policy_engine = engine }, g')

-- The part of `_maybe_anchor_policy_commit` that reaches the custody manager.
abbrev anchor_commit :
    Library → String → String → String → String → Manager → ActionGate → ActionGate
anchor_commit lib utc tenant digest canonical m g =
    let commit : Commitment = record {
      tenant_id = tenant;
      digest = digest;
      canonical_json = canonical;
    } in
    let (m', landed) = drain_policy_commits lib utc (anchor_policy_commit commit m) in
    record g {
      custody = some m';
      last_anchored_digest =
          if landed then insert tenant digest g.last_anchored_digest else g.last_anchored_digest;
    }

abbrev is_anchored : String → Option String → Bool
is_anchored digest last = same_option last (some digest)

unfoldable pub maybe_anchor_policy_commit :
    Library
    → Option String
    → String
    → String
    → TenantContext
    → Option String
    → ActionGate
    → ActionGate
maybe_anchor_policy_commit lib env_pin utc tenant ctx none g = g
maybe_anchor_policy_commit lib env_pin utc tenant ctx (some digest) g =
    let engine = ctx.policy_engine in
    let canonical =
      engine_citation_bytes lib (list_tools tenant g) (inner engine).rules (engine_kind engine)
        (pin_of engine env_pin) in
    elim g.custody [
      | none ↦ g
      | some m ↦
          if is_anchored digest (lookup tenant g.last_anchored_digest)
          then g
          else anchor_commit lib utc tenant digest canonical m g
    ]
