-- ===== src/Policy/Luhn.antt =====
-- custos/policy_engine.py: the Luhn checksum.
pub mod Detection
use Prim.Native.Char.{code}
use Prim.Native.String.{[], ◌∷◌}
use mathlib.Core.List
use mathlib.Core.List.{List}
use custos_core.Common.{
  ℕ, suc, ◌+◌, ◌-◌, ◌*◌, ◌%◌, String, Bool, true, false, ◌&&◌, ◌||◌, leb, ltb, ◌==◌, length,
  if◌then◌else◌,
}

-- `re.sub(r"[^0-9]", "", text)`, and the value of each digit.
unfoldable pub digits_of : String → List ℕ
digits_of [] = List.[]
digits_of (ch ∷ rest) =
    let c = code ch in
    let more = digits_of rest in if leb 48 c && leb c 57 then List.◌∷◌ (c - 48) more else more

-- `d *= 2; if d > 9: d -= 9`
abbrev pub doubled : ℕ → ℕ
doubled d = let e = d * 2 in if ltb 9 e then e - 9 else e

-- What the digit at index `i` adds.
unfoldable pub weight : ℕ → ℕ → ℕ → ℕ
weight parity i d = if i % 2 == parity then doubled d else d

unfoldable pub checksum : ℕ → ℕ → List ℕ → ℕ
checksum parity i List.[] = 0
checksum parity i (List.◌∷◌ d ds) = weight parity i d + checksum parity (i + 1) ds

-- `_luhn_valid`
unfoldable pub luhn_valid : List ℕ → Bool
unfolding checksum
luhn_valid ds =
    if ltb (length ds) 13 || ltb 19 (length ds)
    then false
    else checksum (length ds % 2) 0 ds % 10 == 0
