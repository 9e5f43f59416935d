-- ===== src/Execution/Contacts.antt =====
-- custos/execution.py: which address a request reaches.
use custos_core.Common.{
  ◌≡◌, refl, sym, ◌∙◌, subst, Bool, true, false, Option, none, some, List, [], ◌∷◌, arith, Result,
  ok, err, In, inl, inr, All-In, Bool-cases, String, if◌then◌else◌,
}
use custos_core.Execution.Target.{SsrfError, Net, validate_target_url}
use custos_core.Execution.Target.Pinned.{Safe, Public, validate_target_url-Safe}
use custos_core.Execution.{
  HttpExecutionAdapter, Request, can_request, comes_before, first_of, pick, send, forward_checked,
  forward, target_host,
}

-- What stands behind a connection to an address.
pub record Contacted (net : Net) (r : Request) (a : HttpExecutionAdapter) (ip : String)
    : Type 0 where
  pub pinned : List String
  pub validated : validate_target_url net r.url a.allowlist r.resolution ≡ ok pinned
  pub safe : Safe net r.url a.allowlist pinned
  pub member : In ip pinned
  pub chosen : Public net ip
  pub closed_enough : (can_request (target_host net r) r.now a).0 ≡ true

among :
    (best x : String) (xs : List String) (b : Bool)
    → ((y : String) → In (first_of y xs) (y ∷ xs))
    → In (first_of (if b then x else best) xs) (best ∷ x ∷ xs)
among best x xs true more = inr (more x)
among best x xs false more = elim (more best) [ inl e ↦ inl e | inr i ↦ inr (inr i) ]

first_of-In : (best : String) (xs : List String) → In (first_of best xs) (best ∷ xs)
unfolding first_of
first_of-In best [] = inl refl
first_of-In best (x ∷ xs) = among best x xs (comes_before x best) (λ y. first_of-In y xs)

pick-In : (xs : List String) (ip : String) → pick xs ≡ some ip → In ip xs
pick-In [] ip h = cc
pick-In (x ∷ xs) ip h =
    let same : first_of x xs ≡ ip = grind arith in
    subst (λ y. In y (x ∷ xs)) same (first_of-In x xs)

send-connected :
    (host : String) (r : Request) (ip : Option String) (a : HttpExecutionAdapter)
    → (send host r ip a).connected ≡ ip
unfolding send
send-connected host r ip a = ground arith

forward_checked-connected :
    (host : String) (r : Request) (a : HttpExecutionAdapter) (v : Result SsrfError (List String))
    (ip : String)
    → (forward_checked host r a v).connected ≡ some ip
    → (pinned : List String) × (v ≡ ok pinned)
      × In ip pinned
      × ((can_request host r.now a).0 ≡ true)
unfolding forward_checked
forward_checked-connected host r a (err e) ip h = cc
forward_checked-connected host r a (ok pinned) ip h =
    elim (Bool-cases (can_request host r.now a).0) [
      | inl passes ↦
          let chosen : (send host r (pick pinned) (can_request host r.now a).1).connected
              ≡ some ip =
            rw passes at h in
          (
            pinned,
            refl,
            pick-In pinned ip (sym (send-connected host r (pick pinned) _) ∙ chosen),
            passes,
          )
      | inr denied ↦ (let no : none ≡ some ip = rw denied at h in cc)
    ]

-- A connection is made only to an address that this same call resolved and validated: the target is safe,
-- the address is one of those it was pinned to and is public, and neither the breaker of the host nor the
-- default one is open.
pub forward-Contacted :
    (net : Net) (r : Request) (a : HttpExecutionAdapter) (ip : String)
    → (forward net r a).connected ≡ some ip
    → Contacted net r a ip
unfolding forward
forward-Contacted net r a ip h =
    let (pinned, valid, member, passes) =
      forward_checked-connected (target_host net r) r a
        (validate_target_url net r.url a.allowlist r.resolution) ip h in
    let safe = validate_target_url-Safe net r.url a.allowlist r.resolution pinned valid in
    record {
      pinned = pinned;
      validated = valid;
      safe = safe;
      member = member;
      chosen = All-In (Public net) pinned safe.public_only member;
      closed_enough = passes;
    }
