-- ===== src/Policy/Luhn/Detection.antt =====
-- custos/policy_engine.py: the checksum notices a change of one digit.
use custos_core.Common.{
  ℕ, ◌+◌, ◌%◌, ◌<◌, ◌≡◌, ◌≢◌, true, false, ◌++◌, List, [], ◌∷◌, arith, length, length-append,
  Bool-cases, inl, inr,
}
use custos_core.Policy.Luhn.{weight, checksum, luhn_valid}

-- Where two digits differ, so do their weights modulo 10.
weight-injective : (p i d e : ℕ) → d < 10 → e < 10 → weight p i d ≡ weight p i e → d ≡ e
unfolding weight
weight-injective p i d e hd he h = ground arith

weight-lt : (p i d : ℕ) → d < 10 → weight p i d < 10
unfolding weight
weight-lt p i d h = ground arith

-- Two lists that differ in one digit have checksums that differ by the weights there.
checksum-change :
    (p i j d e : ℕ) (xs ys : List ℕ)
    → j ≡ i + length xs
    → checksum p i (xs ++ d ∷ ys) + weight p j e ≡ checksum p i (xs ++ e ∷ ys) + weight p j d
unfolding checksum
checksum-change p i j d e [] ys h = let q : j ≡ i = omega arith in rw q (omega arith)
checksum-change p i j d e (x ∷ xs) ys h =
    omega (arith, checksum-change p (i + 1) j d e xs ys (omega arith))

same_length : (d e : ℕ) (xs ys : List ℕ) → length (xs ++ d ∷ ys) ≡ length (xs ++ e ∷ ys)
same_length d e xs ys = omega (arith, length-append xs (d ∷ ys), length-append xs (e ∷ ys))

luhn_checksum : (ds : List ℕ) → luhn_valid ds ≡ true → checksum (length ds % 2) 0 ds % 10 ≡ 0
unfolding luhn_valid
luhn_checksum ds h = ground arith

-- A list of digits that passes the checksum fails it after a change of any one digit to another digit,
-- wherever it stands.
pub luhn_valid-change :
    (d e : ℕ) (xs ys : List ℕ)
    → d < 10
    → e < 10
    → d ≢ e
    → luhn_valid (xs ++ d ∷ ys) ≡ true
    → luhn_valid (xs ++ e ∷ ys) ≡ false
luhn_valid-change d e xs ys hd he ne ok = elim (Bool-cases (luhn_valid (xs ++ e ∷ ys))) [
  | inr bad ↦ bad
  | inl good ↦
      let p = length (xs ++ d ∷ ys) % 2 in
      let cd = luhn_checksum (xs ++ d ∷ ys) ok in
      let ce : checksum p 0 (xs ++ e ∷ ys) % 10 ≡ 0 =
        rw (same_length d e xs ys) (luhn_checksum (xs ++ e ∷ ys) good) in
      let change = checksum-change p 0 (length xs) d e xs ys (omega arith) in
      absurd (
        ne (
          weight-injective p (length xs) d e hd he
            (omega (arith, weight-lt p (length xs) d hd, weight-lt p (length xs) e he))))
]
