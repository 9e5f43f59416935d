-- ===== src/Retention/Commitment.antt =====
-- custos/retention.py: what `verify_commitment` accepts after a `put`.
use Prim.Native.String
use text.Mathlib.TextLemmas.{append_cancel_left}
use custos_core.Common.{
  ℕ, String, ◌≡◌, ◌≢◌, refl, sym, ap, ◌∙◌, Option, some, List, arith, All, eq_iff, str_eq,
  str_eq_refl, ◌⊎◌, inl, inr, Bool-cases, Option-cases, ok, is_truthy,
}
use custos_core.Common.Dict.{lookup, All-insert, All-lookup}
use custos_core.Audit.Record.{Library, AuditRecord}
use custos_core.Retention.{
  Body, ContentStore, present, status, salt_bytes, marker_salted, marker_unsalted, commitment_of,
  put, salted_body, open_body, verify_commitment,
}
use custos_core.Retention.Keeps.{IsKept, Sound, put-bodies, put-Sound}

-- Two texts with one SHA-256.
abbrev pub Collision : Library → Type 0
Collision lib = (x : String) × (y : String) × (x ≢ y) × (lib.sha256 x ≡ lib.sha256 y)

-- A stored commitment is that of the body beside it.
abbrev pub Committed : Library → String × Body → Type 0
Committed lib (h, b) = b.commitment ≡ commitment_of lib b.body b.salt

present-lookup :
    (h : String) (s : ContentStore)
    → status h s ≡ present
    → (b : Body) × (lookup h s.bodies ≡ some b)
unfolding status
present-lookup h s here = elim (Option-cases (lookup h s.bodies)) [
  | inl gone ↦ ground arith
  | inr (b, found) ↦ (b, found)
]

module _ (lib : Library) where
  sha256-binds : (x y : String) → lib.sha256 x ≡ lib.sha256 y → (x ≡ y) ⊎ Collision lib
  sha256-binds x y e = elim (Bool-cases (str_eq x y)) [
    | inl same ↦ inl (ground (arith, eq_iff x y))
    | inr other ↦ inr (x, y, (λ q. ground (arith, eq_iff x y)), e)
  ]

  prefixed-binds :
      (p x y : String)
      → lib.sha256 (String.◌++◌ p x) ≡ lib.sha256 (String.◌++◌ p y)
      → (x ≡ y) ⊎ Collision lib
  prefixed-binds p x y e = elim (sha256-binds (String.◌++◌ p x) (String.◌++◌ p y) e) [
    | inl same ↦ inl (append_cancel_left p x y same)
    | inr two ↦ inr two
  ]

  suffixed-binds :
      (p x y : String)
      → (String.◌++◌ p x ≡ String.◌++◌ p y) ⊎ Collision lib
      → (x ≡ y) ⊎ Collision lib
  suffixed-binds p x y (inl same) = inl (append_cancel_left p x y same)
  suffixed-binds p x y (inr two) = inr two

  commitment_of-binds :
      (x y : String) (salt : Option String)
      → commitment_of lib x salt ≡ commitment_of lib y salt
      → (x ≡ y) ⊎ Collision lib
  unfolding commitment_of
  commitment_of-binds x y salt e = elim (Bool-cases (is_truthy salt)) [
    | inl salted ↦ suffixed-binds (salt_bytes salt) x y (
        prefixed-binds marker_salted (String.◌++◌ (salt_bytes salt) x)
          (String.◌++◌ (salt_bytes salt) y) (ground arith))
    | inr plain ↦ prefixed-binds marker_unsalted x y (ground arith)
  ]

  put-Committed :
      (salt : String) (now : ℕ) (body : String) (s s' : ContentStore)
      → put lib salt now body s ≡ ok s'
      → All (Committed lib) s.bodies
      → All (Committed lib) s'.bodies
  unfolding salted_body
  put-Committed salt now body s s' e h = elim (put-bodies lib salt now body s s' e) [
    | inl same ↦ rw same h
    | inr more ↦ rw more (All-insert (Committed lib) _ _ s.bodies refl h)
  ]

  checked :
      (h other : String) (b : Body) (s : ContentStore)
      → lookup h s.bodies ≡ some b
      → b.commitment ≡ commitment_of lib b.body b.salt
      → (verify_commitment lib h other s ≡ ok (str_eq other b.body)) ⊎ Collision lib
  unfolding verify_commitment commitment_of
  checked h other b s found form =
      let run : verify_commitment lib h other s
          ≡ ok (str_eq (commitment_of lib other b.salt) (commitment_of lib b.body b.salt)) =
        rw (verify_commitment, found, form) refl in
      elim (Bool-cases
        (str_eq (commitment_of lib other b.salt) (commitment_of lib b.body b.salt))) [
          | inl accepted ↦
              elim (commitment_of-binds other b.body b.salt (
                ground (
                  arith,
                  eq_iff (commitment_of lib other b.salt) (commitment_of lib b.body b.salt),
                ))) [
                  | inl same ↦ inl (
                      run
                      ∙ ap (λ t. ok t)
                          (accepted
                            ∙ sym (ground (arith, same, str_eq_refl b.body, eq_iff other b.body))))
                  | inr two ↦ inr two
                ]
          | inr refused ↦ inl (
              run
              ∙ ap (λ t. ok t)
                  (refused
                    ∙ sym (
                        ground (
                          arith,
                          refused,
                          ap (λ t. commitment_of lib t b.salt),
                          eq_iff other b.body,
                          eq_iff (commitment_of lib other b.salt) (commitment_of lib b.body b.salt),
                        ))))
        ]

  read_back :
      (h other body : String) (b : Body) (s : ContentStore)
      → lookup h s.bodies ≡ some b
      → (b.body ≡ body) ⊎ Collision lib
      → (verify_commitment lib h other s ≡ ok (str_eq other b.body)) ⊎ Collision lib
      → ((open_body h s ≡ ok body) × (verify_commitment lib h other s ≡ ok (str_eq other body)))
        ⊎ Collision lib
  unfolding open_body
  read_back h other body b s found (inr two) v = inr two
  read_back h other body b s found (inl same) (inr two) = inr two
  read_back h other body b s found (inl same) (inl v) =
      inl (rw (open_body, found) (ap (λ t. ok t) same), v ∙ ap (λ t. ok (str_eq other t)) same)

  -- If every stored body stands under its hash and beside its commitment, then after a `put` that succeeds
  -- the body is read back and `verify_commitment` accepts that body and no other text, unless two texts
  -- with the same SHA-256 are at hand.
  pub put-verify_commitment :
      (records : List AuditRecord) (salt : String) (now : ℕ) (body other : String)
      (s s' : ContentStore)
      → Sound lib records s
      → All (Committed lib) s.bodies
      → put lib salt now body s ≡ ok s'
      → ((open_body (lib.sha256 body) s' ≡ ok body)
          × (verify_commitment lib (lib.sha256 body) other s' ≡ ok (str_eq other body)))
        ⊎ Collision lib
  put-verify_commitment records salt now body other s s' sound committed e =
      let (after, here) = put-Sound lib records salt now body s s' e sound in
      let (b, found) = present-lookup (lib.sha256 body) s' here in
      let (key, _) = All-lookup (IsKept lib) (lib.sha256 body) b s'.bodies found after.kept in
      let form =
        All-lookup (Committed lib) (lib.sha256 body) b s'.bodies found
          (put-Committed salt now body s s' e committed) in
      read_back (lib.sha256 body) other body b s' found (sha256-binds b.body body key)
        (checked (lib.sha256 body) other b s' found form)
