-- ===== src/Validation/Accepts.antt =====
-- custos/validation.py: which requests are accepted.
use custos_core.Common.{
  ℕ, ◌≤◌, String, ◌≡◌, ◌≢◌, ◌↔◌, refl, sym, subst, true, false, arith, eq_iff, str_eq, str_eq_refl,
}
use custos_core.Validation.{
  Value, text, integer, negative, boolean, other_value, len, byte_size, validate_content,
  validate_client_id, validate_token_count, validate_request,
}

-- A client identifier, a content and a number of tokens that a request may have.
abbrev pub GoodClient : (String → String) → Value → Type 0
GoodClient strip v =
    (client : String) × (v ≡ text client)
    × (client ≢ "")
    × (len client ≤ 128)
    × (strip client ≡ client)

abbrev pub GoodContent : (String → String) → Value → Type 0
GoodContent strip v =
    (content : String) × (v ≡ text content)
    × (content ≢ "")
    × (strip content ≢ "")
    × (byte_size content ≤ 32768)

abbrev pub GoodTokens : Value → Type 0
GoodTokens v = (n : ℕ) × (v ≡ integer n) × (1 ≤ n) × (n ≤ 100000)

str_eq_ne : (c d : String) → c ≢ d → str_eq c d ≡ false
str_eq_ne c d other = ground (arith, eq_iff c d)

module _ (strip : String → String) where
  client-GoodClient : (v : Value) → (validate_client_id strip v).valid ≡ true → GoodClient strip v
  unfolding validate_client_id
  client-GoodClient (text c) h = (
    c,
    refl,
    (λ e. ground (arith, eq_iff c "")),
    ground arith,
    ground (arith, eq_iff c (strip c)),
  )
  client-GoodClient (integer n) h = cc
  client-GoodClient (negative n) h = cc
  client-GoodClient (boolean b) h = cc
  client-GoodClient other_value h = cc

  content-GoodContent : (v : Value) → (validate_content strip v).valid ≡ true → GoodContent strip v
  unfolding validate_content
  content-GoodContent (text c) h = (
    c,
    refl,
    (λ e. ground (arith, eq_iff c "")),
    (λ e. ground (arith, eq_iff (strip c) "")),
    ground arith,
  )
  content-GoodContent (integer n) h = cc
  content-GoodContent (negative n) h = cc
  content-GoodContent (boolean b) h = cc
  content-GoodContent other_value h = cc

  tokens-GoodTokens : (v : Value) → (validate_token_count v).valid ≡ true → GoodTokens v
  unfolding validate_token_count
  tokens-GoodTokens (text c) h = cc
  tokens-GoodTokens (integer n) h = (n, refl, ground arith, ground arith)
  tokens-GoodTokens (negative n) h = cc
  tokens-GoodTokens (boolean b) h = cc
  tokens-GoodTokens other_value h = cc

  client_valid :
      (c : String)
      → c ≢ ""
      → len c ≤ 128
      → strip c ≡ c
      → (validate_client_id strip (text c)).valid ≡ true
  unfolding validate_client_id
  client_valid c full short bare =
      rw bare (ground (arith, eq_iff c "", str_eq_refl c, str_eq_ne c "" full))

  content_valid :
      (c : String)
      → c ≢ ""
      → strip c ≢ ""
      → byte_size c ≤ 32768
      → (validate_content strip (text c)).valid ≡ true
  unfolding validate_content
  content_valid c full inked short =
      ground (arith, str_eq_ne c "" full, str_eq_ne (strip c) "" inked)

  tokens_valid : (n : ℕ) → 1 ≤ n → n ≤ 100000 → (validate_token_count (integer n)).valid ≡ true
  unfolding validate_token_count
  tokens_valid n some_ few = ground arith

  good_client : (v : Value) → GoodClient strip v → (validate_client_id strip v).valid ≡ true
  good_client v (c, same, full, short, bare) =
      subst (λ x. (validate_client_id strip x).valid ≡ true) (sym same)
        (client_valid c full short bare)

  good_content : (v : Value) → GoodContent strip v → (validate_content strip v).valid ≡ true
  good_content v (c, same, full, inked, short) =
      subst (λ x. (validate_content strip x).valid ≡ true) (sym same)
        (content_valid c full inked short)

  good_tokens : (v : Value) → GoodTokens v → (validate_token_count v).valid ≡ true
  good_tokens v (n, same, some_, few) =
      subst (λ x. (validate_token_count x).valid ≡ true) (sym same) (tokens_valid n some_ few)

  all_valid :
      (v w u : Value)
      → ((validate_request strip v w u).valid ≡ true)
        ↔ ((validate_client_id strip v).valid ≡ true)
          × ((validate_content strip w).valid ≡ true)
          × ((validate_token_count u).valid ≡ true)
  unfolding validate_request
  all_valid v w u = (λ h. (ground arith, ground arith, ground arith), λ (a, b, c). ground arith)

  -- A request is accepted if and only if its client identifier is a text of 1 to 128 characters that
  -- stripping leaves alone, its content is a text of at most 32,768 bytes of which stripping leaves
  -- something, and its number of tokens is an integer, no Boolean, from 1 to 100,000.
  pub validate_request-valid_iff :
      (client content tokens : Value)
      → ((validate_request strip client content tokens).valid ≡ true)
        ↔ GoodClient strip client × GoodContent strip content × GoodTokens tokens
  validate_request-valid_iff client content tokens = (
    (λ h.
        let (a, b, c) = (all_valid client content tokens).0 h in
        (client-GoodClient client a, content-GoodContent content b, tokens-GoodTokens tokens c)),
    (λ (a, b, c).
        (all_valid client content tokens).1
          (good_client client a, good_content content b, good_tokens tokens c)),
  )
