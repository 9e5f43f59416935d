-- ===== src/Audit/Chain/Evidence.antt =====
-- custos/audit.py: what the hash chain proves about the past of a log. SHA-256 is a parameter, and
-- nothing is assumed of it: a disagreement is turned into a collision of two of the records.
use custos_core.Common.{
  ℕ, ◌+◌, String, ◌≡◌, ◌≢◌, ◌⊎◌, inl, inr, sym, ◌∙◌, true, List, [], ◌∷◌, arith, ok, err, Result,
  >>=-eq-ok, eq_iff, length, In, refl, ap,
}
use custos_core.Common.Dict.{lookup}
use custos_core.Audit.Record.{
  AuditRecord, AuditError, Fields, Library, preimage_fields, compute_record_hash,
}
use custos_core.Audit.Preimage.{SameEvidence, preimage_fields-cases}
use custos_core.Audit.Chain.{
  latest_from, Verification, check_hash, verified, verify_from, genesis_hash, is_ok, verify_records,
}
use custos_core.Audit.Chain.Integrity.{verify_records-verified}

-- A record of each log whose preimages, as dictionaries, differ at a key and have one hash.
abbrev pub Collision : Library → List AuditRecord → List AuditRecord → Type 0
Collision lib xs ys =
    (a : AuditRecord) × (b : AuditRecord) × In a xs
    × In b ys
    × (f : Fields) × (g : Fields) × (preimage_fields a a.previous_hash ≡ ok f)
    × (preimage_fields b b.previous_hash ≡ ok g)
    × ((k : String) × (lookup k f ≢ lookup k g))
    × (lib.sha256 (lib.dumps f) ≡ lib.sha256 (lib.dumps g))

-- Two logs, read from the hashes `p` and `q`, hold the same evidence record by record.
abbrev pub SameHistory : String → String → List AuditRecord → List AuditRecord → Type 0
SameHistory p q [] [] = Unit
SameHistory p q (a ∷ xs) (b ∷ ys) =
    SameEvidence a b p q × SameHistory a.record_hash b.record_hash xs ys
SameHistory p q _ _ = ⊥

check_hash-verified :
    (r : AuditRecord) (i : ℕ) (c : Result AuditError String) (rest : Verification)
    → check_hash r i c rest ≡ verified
    → (c ≡ ok r.record_hash) × (rest ≡ verified)
check_hash-verified r i (ok h) rest e = ground (arith, eq_iff r.record_hash h)
check_hash-verified r i (err x) rest e = cc

-- What one verified step says.
pub step_hash :
    (lib : Library) (i : ℕ) (p : String) (r : AuditRecord) (rs : List AuditRecord)
    → verify_from lib i p (r ∷ rs) ≡ verified
    → (compute_record_hash lib r p ≡ ok r.record_hash)
      × (verify_from lib (i + 1) r.record_hash rs ≡ verified)
      × (r.previous_hash ≡ p)
unfolding verify_from
step_hash lib i p r rs h =
    let (hashed, rest) =
      check_hash-verified r i (compute_record_hash lib r p)
        (verify_from lib (i + 1) r.record_hash rs) (ground arith) in
    (hashed, rest, ground (arith, eq_iff r.previous_hash p))

hash_fields :
    (lib : Library) (r : AuditRecord) (p h : String)
    → compute_record_hash lib r p ≡ ok h
    → (f : Fields) × (preimage_fields r p ≡ ok f) × (lib.sha256 (lib.dumps f) ≡ h)
unfolding compute_record_hash
hash_fields lib r p h e =
    let (f, known, eq) = >>=-eq-ok (preimage_fields r p) _ e in (f, known, ground arith)

module _ (lib : Library) where
  -- Equal hashes come from the same evidence, or from a collision.
  same_evidence :
      (a b : AuditRecord) (p q : String) (xs ys : List AuditRecord)
      → a.previous_hash ≡ p
      → b.previous_hash ≡ q
      → compute_record_hash lib a p ≡ ok a.record_hash
      → compute_record_hash lib b q ≡ ok b.record_hash
      → a.record_hash ≡ b.record_hash
      → Collision lib (a ∷ xs) (b ∷ ys) ⊎ SameEvidence a b p q
  same_evidence a b p q xs ys la lb ha hb e =
      let (f, fa, sa) = hash_fields lib a p a.record_hash ha in
      let (g, gb, sb) = hash_fields lib b q b.record_hash hb in
      elim (preimage_fields-cases a b p q f g fa gb) [
        | inl same ↦ inr same
        | inr found ↦ inl (
          a,
          b,
          inl refl,
          inl refl,
          f,
          g,
          ap (preimage_fields a) la ∙ fa,
          ap (preimage_fields b) lb ∙ gb,
          found,
          sa ∙ e ∙ sym sb,
        )
      ]

  extend :
      (a b : AuditRecord) (p q : String) (xs ys : List AuditRecord)
      → a.previous_hash ≡ p
      → b.previous_hash ≡ q
      → compute_record_hash lib a p ≡ ok a.record_hash
      → compute_record_hash lib b q ≡ ok b.record_hash
      → Collision lib xs ys
        ⊎ ((a.record_hash ≡ b.record_hash) × SameHistory a.record_hash b.record_hash xs ys)
      → Collision lib (a ∷ xs) (b ∷ ys) ⊎ ((p ≡ q) × SameHistory p q (a ∷ xs) (b ∷ ys))
  extend a b p q xs ys la lb ha hb (inl (x, y, i, j, f, g, fx, gy, apart, one)) =
      inl (x, y, inr i, inr j, f, g, fx, gy, apart, one)
  extend a b p q xs ys la lb ha hb (inr (e, rest)) =
      elim (same_evidence a b p q xs ys la lb ha hb e) [
        | inl c ↦ inl c
        | inr same ↦ inr (same.previous_hash, (same, rest))
      ]

  -- Two stretches of log that verify, are equally long and end in one hash.
  pub same_head-SameHistory :
      (i j : ℕ) (p q : String) (xs ys : List AuditRecord)
      → verify_from lib i p xs ≡ verified
      → verify_from lib j q ys ≡ verified
      → length xs ≡ length ys
      → latest_from p xs ≡ latest_from q ys
      → Collision lib xs ys ⊎ ((p ≡ q) × SameHistory p q xs ys)
  same_head-SameHistory i j p q [] [] vx vy n h = inr (h, tt)
  same_head-SameHistory i j p q [] (b ∷ ys) vx vy n h = absurd (omega arith)
  same_head-SameHistory i j p q (a ∷ xs) [] vx vy n h = absurd (omega arith)
  same_head-SameHistory i j p q (a ∷ xs) (b ∷ ys) vx vy n h =
      let (ha, vx', la) = step_hash lib i p a xs vx in
      let (hb, vy', lb) = step_hash lib j q b ys vy in
      extend a b p q xs ys la lb ha hb (
        same_head-SameHistory (i + 1) (j + 1) a.record_hash b.record_hash xs ys vx' vy'
          (omega arith) h)

-- Two logs that both verify, are equally long and end in the same hash hold the same evidence in
-- every record, or they hold a collision: a record of each, whose preimages differ at a key and have one
-- hash.
pub verify_records-SameHistory :
    (lib : Library) (xs ys : List AuditRecord)
    → is_ok (verify_records lib xs) ≡ true
    → is_ok (verify_records lib ys) ≡ true
    → length xs ≡ length ys
    → latest_from genesis_hash xs ≡ latest_from genesis_hash ys
    → Collision lib xs ys ⊎ SameHistory genesis_hash genesis_hash xs ys
verify_records-SameHistory lib xs ys vx vy n h =
    elim (same_head-SameHistory lib 0 0 genesis_hash genesis_hash xs ys
      (verify_records-verified lib xs vx) (verify_records-verified lib ys vy) n h) [
        | inl c ↦ inl c
        | inr (_, same) ↦ inr same
      ]
