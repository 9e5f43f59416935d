-- ===== src/Audit/Preimage.antt =====
-- What the hash preimage of custos/audit.py determines of a record.
use custos_core.Common.{
  String, ◌≡◌, ◌≢◌, ◌⊎◌, inl, inr, Option, none, some, List, [], ◌∷◌, arith, All, Bool-cases,
  eq_iff, str_eq, is_truthy, ok, leb, if◌then◌else◌,
}
use native.Mathlib.Decide.{ℕ_discrete}
use custos_core.Common.Dict.{lookup}
use custos_core.Audit.Record.{
  AuditRecord, Json, text, optional, Fields, preimage_fields, known_fields, version_marker,
  commitment_or_none,
}

-- The optional text as the preimage sees it: an empty one is as good as none.
abbrev pub seen : Option String → Option Json
seen o = if is_truthy o then some (optional o) else none

abbrev pub bound_version : AuditRecord → Option Json
bound_version r =
    if leb 1 r.binding_version then some (text (version_marker r.binding_version)) else none

abbrev pub bound_trace : AuditRecord → Option Json
bound_trace r = if leb 1 r.binding_version then seen r.trace_id else none

abbrev pub bound_commitment : AuditRecord → Option Json
bound_commitment r =
    if leb 2 r.binding_version then some (text (commitment_or_none r.commitment)) else none

-- What a record and its predecessor's hash bind.
pub record SameEvidence (a b : AuditRecord) (p q : String) : Type 0 where
  pub timestamp : a.timestamp ≡ b.timestamp
  pub client_id : a.client_id ≡ b.client_id
  pub action : a.action ≡ b.action
  pub triggered_rule : a.triggered_rule ≡ b.triggered_rule
  pub reason : a.reason ≡ b.reason
  pub content_hash : a.content_hash ≡ b.content_hash
  pub previous_hash : p ≡ q
  pub policy_digest : seen a.policy_digest ≡ seen b.policy_digest
  pub tenant_id : seen a.tenant_id ≡ seen b.tenant_id
  pub binding : bound_version a ≡ bound_version b
  pub trace_id : bound_trace a ≡ bound_trace b
  pub commitment : bound_commitment a ≡ bound_commitment b

module _ (r : AuditRecord) (p : String) where
  lookup-policy_digest : lookup "policy_digest" (known_fields r p) ≡ seen r.policy_digest
  unfolding lookup known_fields
  lookup-policy_digest = ground arith

  lookup-tenant_id : lookup "tenant_id" (known_fields r p) ≡ seen r.tenant_id
  unfolding lookup known_fields
  lookup-tenant_id = ground arith

  lookup-binding : lookup "binding" (known_fields r p) ≡ bound_version r
  unfolding lookup known_fields
  lookup-binding = ground arith

  lookup-trace_id : lookup "trace_id" (known_fields r p) ≡ bound_trace r
  unfolding lookup known_fields
  lookup-trace_id = ground arith

  lookup-commitment : lookup "commitment" (known_fields r p) ≡ bound_commitment r
  unfolding lookup known_fields
  lookup-commitment = ground arith

optional-injective : (a b : Option String) → optional a ≡ optional b → a ≡ b
optional-injective a b h = ground arith

-- The keys that a preimage can have.
abbrev keys : List String
keys =
    "timestamp" ∷ "client_id" ∷ "action" ∷ "triggered_rule" ∷ "reason" ∷ "content_hash"
    ∷ "previous_hash" ∷ "policy_digest" ∷ "tenant_id" ∷ "binding" ∷ "trace_id" ∷ "commitment" ∷ []

-- Two dictionaries have one value, or both none, at a key.
abbrev pub SameAt : Fields → Fields → String → Type 0
SameAt f g k = lookup k f ≡ lookup k g

some_text-injective : (x y : String) → some (text x) ≡ some (text y) → x ≡ y
some_text-injective x y h = ground arith

known_fields-SameEvidence :
    (a b : AuditRecord) (p q : String)
    → All (SameAt (known_fields a p) (known_fields b q)) keys
    → SameEvidence a b p q
known_fields-SameEvidence a b p q h = record {
  timestamp = unfold known_fields lookup in ground (arith, h.0);
  client_id = some_text-injective _ _ (unfold known_fields lookup in h.1.0);
  action = some_text-injective _ _ (unfold known_fields lookup in h.1.1.0);
  triggered_rule = optional-injective _ _ (unfold known_fields lookup in ground (arith, h.1.1.1.0));
  reason = some_text-injective _ _ (unfold known_fields lookup in h.1.1.1.1.0);
  content_hash = some_text-injective _ _ (unfold known_fields lookup in h.1.1.1.1.1.0);
  previous_hash = some_text-injective _ _ (unfold known_fields lookup in h.1.1.1.1.1.1.0);
  policy_digest = cc (h.1.1.1.1.1.1.1.0, lookup-policy_digest a p, lookup-policy_digest b q);
  tenant_id = cc (h.1.1.1.1.1.1.1.1.0, lookup-tenant_id a p, lookup-tenant_id b q);
  binding = cc (h.1.1.1.1.1.1.1.1.1.0, lookup-binding a p, lookup-binding b q);
  trace_id = cc (h.1.1.1.1.1.1.1.1.1.1.0, lookup-trace_id a p, lookup-trace_id b q);
  commitment = cc (h.1.1.1.1.1.1.1.1.1.1.1.0, lookup-commitment a p, lookup-commitment b q);
}

String-discrete : Discrete String
String-discrete s t = elim (Bool-cases (str_eq s t)) [
  | inl e ↦ yes ((eq_iff s t).0 e)
  | inr e ↦ no (λ p. cc (e, (eq_iff s t).1 p))
]

Json-discrete : Discrete (Option Json)
Json-discrete = hlevel (String-discrete, ℕ_discrete)

-- Two dictionaries agree on some keys, or a key of theirs tells them apart.
SameAt-cases :
    (f g : Fields) (ks : List String)
    → All (SameAt f g) ks ⊎ ((k : String) × (lookup k f ≢ lookup k g))
SameAt-cases f g [] = inl tt
SameAt-cases f g (k ∷ ks) = elim (Json-discrete (lookup k f) (lookup k g)) [
  | no ne ↦ inr (k, ne)
  | yes e ↦ elim (SameAt-cases f g ks) [ inl more ↦ inl (e, more) | inr found ↦ inr found ]
]

-- Two records agree on every field that the preimage covers (the seven fixed fields, the citation and the
-- tenant where they are set, and what the binding version adds), or a key tells their preimages apart.
pub preimage_fields-cases :
    (a b : AuditRecord) (p q : String) (f g : Fields)
    → preimage_fields a p ≡ ok f
    → preimage_fields b q ≡ ok g
    → SameEvidence a b p q ⊎ ((k : String) × (lookup k f ≢ lookup k g))
unfolding preimage_fields
preimage_fields-cases a b p q f g h e =
    let here : known_fields a p ≡ f = ground arith in
    let there : known_fields b q ≡ g = ground arith in
    elim (SameAt-cases f g keys) [
      | inr found ↦ inr found
      | inl same ↦ inl (known_fields-SameEvidence a b p q (rw (here, there) same))
    ]
