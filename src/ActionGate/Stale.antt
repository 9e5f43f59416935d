-- ===== src/ActionGate/Stale.antt =====
-- custos/action_gate.py: the digest cache, and when it is stale.
use custos_core.Common.{
  String, ◌≡◌, refl, ap, ◌∙◌, Bool, true, false, Option, none, some, List, [], ◌∷◌, arith, eq_iff,
}
use custos_core.Common.Dict.{lookup-insert, lookup-erase}
use custos_core.Audit.Record.{Library}
use custos_core.Policy.Rule.{PolicyRule}
use custos_core.Policy.Engine.{add_rule, rules_digest}
use custos_core.Policy.Citation.{set_of, rules_canonical_digest, engine_policy_digest}
use custos_core.ActionGate.{
  AnyEngine, opa, hybrid, regex, add_engine_rule, engine_kind, inner, pin_of, TenantContext,
  CacheKey, ActionGate, list_tools, same_option, same_texts, same_key, fingerprint, cite, cache_key,
  register_tools, cited_policy_digest,
}

same_texts_refl : (xs : List String) → same_texts xs xs ≡ true
same_texts_refl [] = refl
same_texts_refl (x ∷ xs) = grind (arith, eq_iff x x, same_texts_refl xs)

same_option_refl : (o : Option String) → same_option o o ≡ true
same_option_refl none = refl
same_option_refl (some x) = grind (arith, eq_iff x x)

same_key_refl : (k : CacheKey) → same_key k k ≡ true
unfolding same_key
same_key_refl k = ground (
  arith,
  same_texts_refl k.tools,
  eq_iff k.kind k.kind,
  same_option_refl k.rules,
  same_option_refl k.pin,
)

-- The engine asks OPA.
abbrev pub asks_opa : AnyEngine → Bool
asks_opa (regex e) = false
asks_opa _ = true

module _ (lib : Library) (tenant : String) where
  -- What is cited once under a key is cited again under it, whatever rules are given.
  cite-cite :
      (key : CacheKey) (before later : List PolicyRule) (g : ActionGate)
      → (cite lib key later tenant (cite lib key before tenant g).1).0
        ≡ (cite lib key before tenant g).0
  unfolding cite
  cite-cite key before later g =
      grind (arith, lookup-insert, same_key_refl key, eq_iff tenant tenant)

  cite-list_tools :
      (key : CacheKey) (rules : List PolicyRule) (g : ActionGate)
      → list_tools tenant (cite lib key rules tenant g).1 ≡ list_tools tenant g
  unfolding cite
  cite-list_tools key rules g = ground arith

  cite-register_tools :
      (key : CacheKey) (rules : List PolicyRule) (tools : List String) (g : ActionGate)
      → (cite lib key rules tenant (register_tools tenant tools g)).0
        ≡ engine_policy_digest lib key.tools rules key.kind key.pin
  unfolding cite register_tools
  cite-register_tools key rules tools g = grind (arith, lookup-erase, eq_iff tenant tenant)

  register_tools-list_tools :
      (tools : List String) (g : ActionGate)
      → list_tools tenant (register_tools tenant tools g) ≡ set_of tools
  unfolding register_tools
  register_tools-list_tools tools g = grind (arith, lookup-insert, eq_iff tenant tenant)

module _ (lib : Library) (pin : Option String) (tenant : String) where
  -- What `cited_policy_digest` cites, and the gate after, for the engine whose fingerprint was read.
  abbrev cited : AnyEngine → ActionGate → Option String × ActionGate
  cited engine g =
      let (rules, read) = fingerprint lib engine in
      cite lib (cache_key pin rules tenant read g) (inner read).rules tenant g

  opa_again :
      (kind : String) (p : Option String) (before later : List PolicyRule) (g : ActionGate)
      → let key : ActionGate → CacheKey =
          λ x. record { tools = list_tools tenant x; kind = kind; rules = none; pin = p } in
        let (d, g') = cite lib (key g) before tenant g in (cite lib (key g') later tenant g').0 ≡ d
  opa_again kind p before later g =
      let key : CacheKey = record {
        tools = list_tools tenant g;
        kind = kind;
        rules = none;
        pin = p;
      } in
      let g' = (cite lib key before tenant g).1 in
      ap
        (λ ts.
          (cite lib (record { tools = ts; kind = kind; rules = none; pin = p }) later tenant g').0)
        (cite-list_tools lib tenant key before g)
      ∙ cite-cite lib tenant key before later g

  cited-again :
      (engine : AnyEngine) (g : ActionGate) (rule : PolicyRule)
      → asks_opa engine ≡ true
      → (cited (add_engine_rule rule (fingerprint lib engine).1) (cited engine g).1).0
        ≡ (cited engine g).0
  unfolding fingerprint
  cited-again (regex e) g rule h = cc
  cited-again (opa e) g rule h = opa_again "opa" pin e.rules (add_rule rule e).rules g
  cited-again (hybrid e) g rule h = opa_again "hybrid" pin e.rules (add_rule rule e).rules g

  cited-register_tools :
      (engine : AnyEngine) (g : ActionGate) (tools : List String)
      → (cited engine (register_tools tenant tools g)).0
        ≡ engine_policy_digest lib
            (set_of tools)
            (inner engine).rules
            (engine_kind engine)
            (pin_of engine pin)
  unfolding fingerprint
  cited-register_tools (regex e) g tools =
      let f = rules_canonical_digest lib in
      let same : (rules_digest f e).1.rules ≡ e.rules = unfold rules_digest in ground arith in
      cite-register_tools lib tenant _ _ tools g
      ∙ ap (λ ts. engine_policy_digest lib ts (rules_digest f e).1.rules "regex" none)
          (register_tools-list_tools lib tenant tools g)
      ∙ ap (λ rs. engine_policy_digest lib (set_of tools) rs "regex" none) same
  cited-register_tools (opa e) g tools =
      cite-register_tools lib tenant _ _ tools g
      ∙ ap (λ ts. engine_policy_digest lib ts e.rules "opa" pin)
          (register_tools-list_tools lib tenant tools g)
  cited-register_tools (hybrid e) g tools =
      cite-register_tools lib tenant _ _ tools g
      ∙ ap (λ ts. engine_policy_digest lib ts e.rules "hybrid" pin)
          (register_tools-list_tools lib tenant tools g)

  -- For an OPA or a hybrid engine, a rule that is added after a citation does not change the next one: the
  -- digest from before is cited, whatever the rule.
  pub cited_policy_digest-add_engine_rule :
      (ctx : TenantContext) (g : ActionGate) (rule : PolicyRule)
      → asks_opa ctx.policy_engine ≡ true
      → let (digest, ctx', g') = cited_policy_digest lib pin tenant ctx g in
        (cited_policy_digest lib pin tenant
          (record ctx' { policy_engine = add_engine_rule rule ctx'.policy_engine })
          g').0
        ≡ digest
  unfolding cited_policy_digest
  cited_policy_digest-add_engine_rule ctx g rule h = cited-again ctx.policy_engine g rule h

  -- Once the tools of a tenant are registered anew, the digest cited is that of the new set of tools and
  -- the rules in force, for every engine.
  pub cited_policy_digest-register_tools :
      (ctx : TenantContext) (g : ActionGate) (tools : List String)
      → (cited_policy_digest lib pin tenant ctx (register_tools tenant tools g)).0
        ≡ engine_policy_digest lib
            (set_of tools)
            (inner ctx.policy_engine).rules
            (engine_kind ctx.policy_engine)
            (pin_of ctx.policy_engine pin)
  unfolding cited_policy_digest
  cited_policy_digest-register_tools ctx g tools = cited-register_tools ctx.policy_engine g tools
