-- ===== src/Execution/Target.antt =====
-- custos/execution.py: `_validate_target_url`. Parsing a URL and an address, and the resolution of a name,
-- are the standard library's: `urlparse` and `getaddrinfo` give the arguments, `ip_address` is a parameter.
pub mod Pinned
use Prim.Native.Char.{code}
use Prim.Native.String
use custos_core.Common.{
  ℕ, String, Bool, true, false, ◌&&◌, ◌||◌, not, Option, none, some, List, [], ◌∷◌, leb, ltb, ◌==◌,
  str_eq, contains, is_nonempty, Result, ok, err, ◌>>=◌, ◌>>◌, raise_if, if◌then◌else◌,
}

-- _BLOCKED_PREFIXES
abbrev pub blocked_prefixes : List String
blocked_prefixes =
    "127." ∷ "10." ∷ "172.16." ∷ "172.17." ∷ "172.18." ∷ "172.19." ∷ "172.20." ∷ "172.21."
    ∷ "172.22." ∷ "172.23." ∷ "172.24." ∷ "172.25." ∷ "172.26." ∷ "172.27." ∷ "172.28." ∷ "172.29."
    ∷ "172.30." ∷ "172.31." ∷ "192.168." ∷ "169.254." ∷ "0.0.0.0" ∷ "::1" ∷ "fc00:" ∷ "fe80:" ∷ []

-- The messages of SSRFError.
pub data SsrfError : Type 0 where
  not_https no_hostname not_allowlisted invalid_port privileged_port private_target blocked_prefix
        dns_failed no_addresses :
      SsrfError

-- `parsed.port`: it raises, there is none, or a number.
pub data Port : Type 0 where
  unparseable no_port : Port
  port : ℕ → Port

-- What `urlparse` gives.
pub record Url : Type 0 where
  pub scheme : String
  pub hostname : Option String
  pub port_part : Port

-- What `ip_address` gives, unless it raises.
pub record Address : Type 0 where
  pub address_text : String
  pub is_private : Bool
  pub is_loopback : Bool
  pub is_link_local : Bool
  pub is_reserved : Bool
  pub is_unspecified : Bool

-- The functions of the standard library: `ip_address` and `str.lower`.
pub record Net : Type 0 where
  pub ip_address : String → Option Address
  pub lower : String → String

abbrev pub is_internal : Address → Bool
is_internal a =
    a.is_private || (a.is_loopback || (a.is_link_local || (a.is_reserved || a.is_unspecified)))

abbrev pub is_privileged : Port → Bool
is_privileged (port n) = n == 0 || (ltb n 1024 && not (n == 443))
is_privileged _ = false

abbrev pub is_unparseable : Port → Bool
is_unparseable unparseable = true
is_unparseable _ = false

abbrev pub is_empty : List String → Bool
is_empty [] = true
is_empty (x ∷ xs) = false

-- `text.startswith(prefix)`
unfoldable pub starts_with : String → String → Bool
starts_with String.[] text = true
starts_with (String.◌∷◌ c prefix) String.[] = false
starts_with (String.◌∷◌ c prefix) (String.◌∷◌ d text) = code c == code d && starts_with prefix text

unfoldable pub any_prefix : List String → String → Bool
unfolding starts_with
any_prefix [] text = false
any_prefix (p ∷ ps) text = starts_with p text || any_prefix ps text

abbrev pub host_of : Option String → Result SsrfError String
host_of none = err no_hostname
host_of (some h) = if is_nonempty h then ok h else err no_hostname

-- The checks before the address is looked at; the name of the host.
unfoldable pub checked_host : Url → List String → Result SsrfError String
checked_host url allowlist = do
  raise_if (not (str_eq url.scheme "https")) not_https
  hostname ← host_of url.hostname
  raise_if (not (is_empty allowlist) && not (contains allowlist hostname)) not_allowlisted
  raise_if (is_unparseable url.port_part) invalid_port
  raise_if (is_privileged url.port_part) privileged_port
  ok hostname

-- The loop over what the resolution gave; addresses that do not parse are skipped.
unfoldable pub pin_all : Net → List String → Result SsrfError (List String)
pin_all net [] = ok []
pin_all net (s ∷ ss) =
    let rest = pin_all net ss in
    elim (net.ip_address s) [
      | none ↦ rest
      | some a ↦
          if is_internal a
          then err private_target
          else rest >>= λ pinned. ok (a.address_text ∷ pinned)
    ]

abbrev pub nonempty_pins : List String → Result SsrfError (List String)
nonempty_pins [] = err no_addresses
nonempty_pins (p ∷ ps) = ok (p ∷ ps)

abbrev pub resolved : Net → Option (List String) → Result SsrfError (List String)
resolved net none = err dns_failed
resolved net (some addresses) = pin_all net addresses >>= nonempty_pins

-- The addresses that a host is pinned to, given what the resolution of its name would be.
unfoldable pub pins : Net → Option (List String) → String → Result SsrfError (List String)
unfolding pin_all
pins net resolution hostname = elim (net.ip_address hostname) [
  | some a ↦ if is_internal a then err private_target else ok (a.address_text ∷ [])
  | none ↦
      if any_prefix blocked_prefixes (net.lower hostname)
      then err blocked_prefix
      else resolved net resolution
]

-- `_validate_target_url`, with the empty list for no allowlist.
unfoldable pub validate_target_url :
    Net → Url → List String → Option (List String) → Result SsrfError (List String)
validate_target_url net url allowlist resolution =
    checked_host url allowlist >>= λ h. pins net resolution h
