-- ===== src/Common/Outcome.antt =====
-- The outcome of a call that may raise, with the exception as a value.
use mathlib.Core.Path.{◌≡◌, refl}
use mathlib.Core.Bool.{Bool, true, false}

pub data Result {ℓ} (Raised Value : Type ℓ) : Type ℓ where
  err : Raised → Result Raised Value
  ok : Value → Result Raised Value

-- `if test: raise e`
abbrev pub raise_if : {E : Type 0} → Bool → E → Result E Unit
raise_if test e = elim test [ true ↦ err e | false ↦ ok tt ]

infixl 5 ◌>>=◌ ◌>>◌
abbrev pub ◌>>=◌ {ℓ} : {E V W : Type ℓ} → Result E V → (V → Result E W) → Result E W
err raised >>= next = err raised
ok value >>= next = next value

abbrev pub ◌>>◌ {ℓ} : {E W : Type ℓ} → Result E (Unit {ℓ}) → Result E W → Result E W
first >> rest = first >>= λ _. rest

pub raise_if-eq-ok : {E : Type 0} (test : Bool) (e : E) → raise_if test e ≡ ok tt → test ≡ false
raise_if-eq-ok false e h = refl
raise_if-eq-ok true e h = cc

-- A chain that has not raised: its first call has returned, and so has the rest on that value.
pub >>=-eq-ok {ℓ} :
    {E V W : Type ℓ} (first : Result E V) (next : V → Result E W) {w : W}
    (done : (first >>= next) ≡ ok w)
    → (v : V) × (first ≡ ok v) × (next v ≡ ok w)
>>=-eq-ok (err raised) next done = cc
>>=-eq-ok (ok v) next done = (v, refl, done)
