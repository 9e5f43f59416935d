-- ===== src/Validation.antt =====
-- custos/validation.py: the checks of a request before it is decided. A value that Python's types leave open
-- is a `Value`; `str.strip` is an argument, and a text has the length and the UTF-8 size of its code points.
pub mod Accepts
use Prim.Native.Char.{code}
use Prim.Native.String
use custos_core.Common.{
  ℕ, zero, suc, ◌+◌, String, Bool, true, false, Option, none, some, List, [], ◌∷◌, ltb, str_eq,
  is_nonempty, not, ◌||◌, if◌then◌else◌,
}

-- A text, an integer (of either sign), a Boolean, which Python counts among the integers, or another object.
pub data Value : Type 0 where
  text : String → Value
  integer : ℕ → Value
  negative : ℕ → Value
  boolean : Bool → Value
  other_value : Value

abbrev pub max_content_bytes : ℕ
max_content_bytes = 32768

abbrev pub max_client_id_len : ℕ
max_client_id_len = 128

pub data ValidationError : Type 0 where
  content_not_text content_blank client_not_text client_blank client_too_long client_padded :
      ValidationError
  tokens_not_integer tokens_too_few tokens_too_many : ValidationError
  content_too_large : (received : ℕ) → ValidationError

pub record ValidationResult : Type 0 where
  pub valid : Bool
  pub error : Option ValidationError

abbrev pub accepted : ValidationResult
accepted = record { valid = true; error = none }

abbrev pub rejected : ValidationError → ValidationResult
rejected e = record { valid = false; error = some e }

-- `len(text)`
unfoldable pub len : String → ℕ
len String.[] = 0
len (String.◌∷◌ c rest) = 1 + len rest

-- The bytes of one code point.
abbrev pub code_bytes : ℕ → ℕ
code_bytes n = if ltb n 128 then 1 else if ltb n 2048 then 2 else if ltb n 65536 then 3 else 4

-- `len(text.encode("utf-8"))`
unfoldable pub byte_size : String → ℕ
byte_size String.[] = 0
byte_size (String.◌∷◌ c rest) = code_bytes (code c) + byte_size rest

-- `not text or not text.strip()`
abbrev pub is_blank : (String → String) → String → Bool
is_blank strip content = not (is_nonempty content) || not (is_nonempty (strip content))

unfoldable pub validate_content : (String → String) → Value → ValidationResult
validate_content strip (text content) =
    if is_blank strip content
    then rejected content_blank
    else if ltb max_content_bytes (byte_size content)
    then rejected (content_too_large (byte_size content))
    else accepted
validate_content strip _ = rejected content_not_text

unfoldable pub validate_client_id : (String → String) → Value → ValidationResult
validate_client_id strip (text client_id) =
    if is_blank strip client_id
    then rejected client_blank
    else if ltb max_client_id_len (len client_id)
    then rejected client_too_long
    else if not (str_eq client_id (strip client_id))
    then rejected client_padded
    else accepted
validate_client_id strip _ = rejected client_not_text

unfoldable pub validate_token_count : Value → ValidationResult
validate_token_count (integer token_count) =
    if ltb token_count 1
    then rejected tokens_too_few
    else if ltb 100000 token_count
    then rejected tokens_too_many
    else accepted
validate_token_count (negative n) = rejected tokens_too_few
validate_token_count _ = rejected tokens_not_integer

-- The loop over the three results.
abbrev pub first_failure : List ValidationResult → ValidationResult
first_failure [] = accepted
first_failure (result ∷ results) =
    let rest = first_failure results in if not result.valid then result else rest

unfoldable pub validate_request :
    (String → String) → (client_id content token_count : Value) → ValidationResult
validate_request strip client_id content token_count = first_failure (
    validate_client_id strip client_id
    ∷ validate_content strip content
    ∷ validate_token_count token_count
    ∷ [])
