-- ===== src/Execution/Target/Pinned.antt =====
-- custos/execution.py: what a pinned address is known to be.
use custos_core.Common.{
  ◌≤◌, String, ◌≡◌, refl, true, false, ◌&&◌, not, Option, none, some, List, [], ◌∷◌, arith,
  contains, Result, ok, err, ◌>>=◌, >>=-eq-ok, subst, ap, ◌∙◌, raise_if, raise_if-eq-ok, All,
  eq_iff, str_eq, Bool-cases, Option-cases, ◌⊎◌, inl, inr, if◌then◌else◌,
}
use custos_core.Execution.Target.{
  Url, Address, Net, Port, port, no_port, unparseable, is_internal, is_empty, is_privileged,
  is_unparseable, nonempty_pins, resolved, host_of, SsrfError, private_target, blocked_prefix,
  blocked_prefixes, any_prefix, checked_host, pin_all, pins, validate_target_url, not_https,
  not_allowlisted, invalid_port, privileged_port,
}

-- The text of an address that parses and is not internal.
abbrev pub Public : Net → String → Type 0
Public net p =
    (s : String) × (a : Address) × (net.ip_address s ≡ some a)
    × (a.address_text ≡ p)
    × (is_internal a ≡ false)

abbrev pub IsListed : List String → String → Type 0
IsListed [] h = Unit
IsListed (x ∷ xs) h = contains (x ∷ xs) h ≡ true

abbrev pub IsUsual : Port → Type 0
IsUsual unparseable = ⊥
IsUsual no_port = Unit
IsUsual (port n) = (n ≡ 443) ⊎ (1024 ≤ n)

pub record Safe (net : Net) (url : Url) (allowlist pinned : List String) : Type 0 where
  pub hostname : String
  pub https : url.scheme ≡ "https"
  pub named : url.hostname ≡ some hostname
  pub listed : IsListed allowlist hostname
  pub usual : IsUsual url.port_part
  pub some_address : is_empty pinned ≡ false
  pub public_only : All (Public net) pinned

-- What is to be shown of a list of pins, or of its absence.
abbrev AllPublic : Net → Result SsrfError (List String) → Type 0
AllPublic net (ok pinned) = All (Public net) pinned
AllPublic net (err e) = Unit

pinned_more :
    (net : Net) (p : String) (rest : Result SsrfError (List String))
    → Public net p
    → AllPublic net rest
    → AllPublic net (rest >>= λ pinned. ok (p ∷ pinned))
pinned_more net p (ok pinned) one more = (one, more)
pinned_more net p (err e) one more = tt

pinned_address :
    (net : Net) (s : String) (rest : Result SsrfError (List String)) (a : Address)
    → net.ip_address s ≡ some a
    → AllPublic net rest
    → AllPublic net (
        if is_internal a
        then err private_target
        else rest >>= λ pinned. ok (a.address_text ∷ pinned))
pinned_address net s rest a parsed more = elim (Bool-cases (is_internal a)) [
  | inl internal ↦ rw internal tt
  | inr public ↦ rw public (pinned_more net a.address_text rest (s, a, parsed, refl, public) more)
]

pin_all-AllPublic : (net : Net) (ss : List String) → AllPublic net (pin_all net ss)
unfolding pin_all
pin_all-AllPublic net [] = tt
pin_all-AllPublic net (s ∷ ss) = elim (Option-cases (net.ip_address s)) [
  | inl unparsed ↦ simp (unparsed, pin_all) (pin_all-AllPublic net ss)
  | inr (a, parsed) ↦
      simp (parsed, pin_all)
        (pinned_address net s (pin_all net ss) a parsed (pin_all-AllPublic net ss))
]

pin_all-Public :
    (net : Net) (ss pinned : List String) → pin_all net ss ≡ ok pinned → All (Public net) pinned
pin_all-Public net ss pinned h = subst (AllPublic net) h (pin_all-AllPublic net ss)

nonempty_pins-eq-ok :
    (ps pinned : List String)
    → nonempty_pins ps ≡ ok pinned
    → (is_empty pinned ≡ false) × (ps ≡ pinned)
nonempty_pins-eq-ok [] pinned h = cc
nonempty_pins-eq-ok (p ∷ ps) pinned h =
    let same : (p ∷ ps) ≡ pinned = grind arith in (subst (λ x. is_empty x ≡ false) same refl, same)

resolved-Public :
    (net : Net) (resolution : Option (List String)) (pinned : List String)
    → resolved net resolution ≡ ok pinned
    → (is_empty pinned ≡ false) × All (Public net) pinned
resolved-Public net none pinned e = cc
resolved-Public net (some ss) pinned e =
    let (ps, all, kept) = >>=-eq-ok (pin_all net ss) nonempty_pins e in
    let (some_address, same) = nonempty_pins-eq-ok ps pinned kept in
    (some_address, subst (All (Public net)) same (pin_all-Public net ss ps all))

literal-Public :
    (net : Net) (h : String) (a : Address) (pinned : List String)
    → net.ip_address h ≡ some a
    → (if is_internal a then err private_target else ok (a.address_text ∷ [])) ≡ ok pinned
    → (is_empty pinned ≡ false) × All (Public net) pinned
literal-Public net h a pinned parsed e = elim (Bool-cases (is_internal a)) [
  | inl internal ↦ ground arith
  | inr public ↦
      let same : (a.address_text ∷ []) ≡ pinned = ground arith in
      (
        subst (λ x. is_empty x ≡ false) same refl,
        subst (All (Public net)) same ((h, a, parsed, refl, public), tt),
      )
]

name-Public :
    (net : Net) (resolution : Option (List String)) (h : String) (pinned : List String)
    → (if any_prefix blocked_prefixes (net.lower h)
        then err blocked_prefix
        else resolved net resolution)
      ≡ ok pinned
    → (is_empty pinned ≡ false) × All (Public net) pinned
name-Public net resolution h pinned e =
    elim (Bool-cases (any_prefix blocked_prefixes (net.lower h))) [
      | inl blocked ↦ (let no : err blocked_prefix ≡ ok pinned = rw blocked at e in cc)
      | inr free ↦ resolved-Public net resolution pinned (rw free at e)
    ]

pins-Public :
    (net : Net) (resolution : Option (List String)) (h : String) (pinned : List String)
    → pins net resolution h ≡ ok pinned
    → (is_empty pinned ≡ false) × All (Public net) pinned
unfolding pins
pins-Public net resolution h pinned e = elim (Option-cases (net.ip_address h)) [
  | inr (a, parsed) ↦ literal-Public net h a pinned parsed (rw (parsed, pins) at e)
  | inl unparsed ↦ name-Public net resolution h pinned (rw (unparsed, pins) at e)
]

port-IsUsual : (p : Port) → is_unparseable p ≡ false → is_privileged p ≡ false → IsUsual p
port-IsUsual unparseable u v = cc
port-IsUsual no_port u v = tt
port-IsUsual (port n) u v = ground arith

contains-IsListed :
    (allowlist : List String) (h : String)
    → not (is_empty allowlist) && not (contains allowlist h) ≡ false
    → IsListed allowlist h
contains-IsListed [] h e = tt
contains-IsListed (x ∷ xs) h e = ground arith

host_of-eq-ok : (o : Option String) (h : String) → host_of o ≡ ok h → o ≡ some h
host_of-eq-ok none h e = cc
host_of-eq-ok (some x) h e = ground arith

checked_host-eq-ok :
    (url : Url) (allowlist : List String) (h : String)
    → checked_host url allowlist ≡ ok h
    → (url.scheme ≡ "https")
      × (url.hostname ≡ some h)
      × IsListed allowlist h
      × IsUsual url.port_part
unfolding checked_host
checked_host-eq-ok url allowlist h e =
    let (_, https, e₁) = >>=-eq-ok (raise_if (not (str_eq url.scheme "https")) not_https) _ e in
    let (name, named, e₂) = >>=-eq-ok (host_of url.hostname) _ e₁ in
    let (_, listed, e₃) =
      >>=-eq-ok
        (raise_if (not (is_empty allowlist) && not (contains allowlist name)) not_allowlisted) _
        e₂ in
    let (_, parsed, e₄) = >>=-eq-ok (raise_if (is_unparseable url.port_part) invalid_port) _ e₃ in
    let (_, usual, e₅) = >>=-eq-ok (raise_if (is_privileged url.port_part) privileged_port) _ e₄ in
    let same : name ≡ h = ground arith in
    (
      ground (arith, eq_iff url.scheme "https"),
      host_of-eq-ok url.hostname name named ∙ ap some same,
      subst (IsListed allowlist) same
          (contains-IsListed allowlist name (raise_if-eq-ok _ _ listed)),
      port-IsUsual url.port_part (raise_if-eq-ok _ _ parsed) (raise_if-eq-ok _ _ usual),
    )

-- A target that passes has an https URL and a host on the allowlist, if there is one, on no port but the
-- default, 443 or an unprivileged one; the request is pinned to at least one address, and each was parsed
-- and is not private, loopback, link-local, reserved or unspecified, whatever the name resolves to.
pub validate_target_url-Safe :
    (net : Net) (url : Url) (allowlist : List String) (resolution : Option (List String))
    (pinned : List String)
    → validate_target_url net url allowlist resolution ≡ ok pinned
    → Safe net url allowlist pinned
unfolding validate_target_url
validate_target_url-Safe net url allowlist resolution pinned e =
    let (h, passed, pinning) = >>=-eq-ok (checked_host url allowlist) _ e in
    let (https, named, listed, usual) = checked_host-eq-ok url allowlist h passed in
    let (some_address, public_only) = pins-Public net resolution h pinned pinning in
    record {
      hostname = h;
      https = https;
      named = named;
      listed = listed;
      usual = usual;
      some_address = some_address;
      public_only = public_only;
    }
