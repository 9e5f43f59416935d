-- ===== src/Common/Lists.antt =====
-- Lists measured and indexed by native numbers, under the library's names.
use Prim.Native.Nat.{ℕ, zero, suc, ◌+◌}
use Prim.Native.String.{String}
use mathlib.Core.Path.{◌≡◌, subst, sym}
use mathlib.Core.Logic.{◌⊎◌, inl, inr}
use mathlib.Core.Bool.{Bool, false, ◌||◌}
use mathlib.Core.List.{List, [], ◌∷◌, ◌++◌}
use mathlib.Core.Option.{Option, none, some}
use native.Mathlib.Omega.{arith}
use custos_core.Common.Tests.{str_eq, leb, Bool-cases, if◌then◌else◌}

module _ {ℓ} {A : Type ℓ} where
  abbrev pub length : List A → ℕ
  length [] = 0
  length (x ∷ xs) = suc (length xs)

  abbrev pub get_elem? : List A → ℕ → Option A
  get_elem? [] i = none
  get_elem? (x ∷ xs) zero = some x
  get_elem? (x ∷ xs) (suc i) = get_elem? xs i

  abbrev pub take : ℕ → List A → List A
  take zero xs = []
  take (suc n) [] = []
  take (suc n) (x ∷ xs) = x ∷ take n xs

  -- `l[-1]` where the list is not empty, the default where it is.
  abbrev pub last_or : A → List A → A
  last_or d [] = d
  last_or d (x ∷ xs) = last_or x xs

  pub length-append : (xs ys : List A) → length (xs ++ ys) ≡ length xs + length ys
  length-append [] ys = omega arith
  length-append (x ∷ xs) ys = omega (arith, length-append xs ys)

  -- Every element satisfies the predicate.
  abbrev pub All {κ} : (A → Type κ) → List A → Type κ
  All P [] = Unit
  All P (x ∷ xs) = P x × All P xs

-- `x in xs` for texts.
abbrev pub contains : List String → String → Bool
contains [] x = false
contains (y ∷ ys) x = str_eq y x || contains ys x

module _ {A : Type 0} where
  -- The element occurs in the list.
  abbrev pub In : A → List A → Type 0
  In a [] = ⊥
  In a (x ∷ xs) = (a ≡ x) ⊎ In a xs

module _ {A : Type 0} (P : A → Type 0) where
  pub All-In : {a : A} (xs : List A) → All P xs → In a xs → P a
  All-In [] h i = elim i [ ]
  All-In (x ∷ xs) h (inl e) = subst P (sym e) h.0
  All-In (x ∷ xs) h (inr i) = All-In xs h.1 i

module _ {A : Type 0} (key : A → ℕ) where
  insert_by : A → List A → List A
  insert_by a [] = a ∷ []
  insert_by a (b ∷ xs) = if leb (key a) (key b) then a ∷ b ∷ xs else b ∷ insert_by a xs

  -- `sorted(xs, key=…)`, which is stable.
  unfoldable pub sort_by : List A → List A
  unfolding insert_by
  sort_by [] = []
  sort_by (x ∷ xs) = insert_by x (sort_by xs)

  In-insert_by : (x a : A) (xs : List A) → (x ≡ a) ⊎ In x xs → In x (insert_by a xs)
  unfolding insert_by
  In-insert_by x a [] h = h
  In-insert_by x a (b ∷ xs) h = elim (Bool-cases (leb (key a) (key b))) [
    | inl le ↦ rw le h
    | inr gt ↦ rw gt (elim h [
      | inl e ↦ inr (In-insert_by x a xs (inl e))
      | inr (inl e) ↦ inl e
      | inr (inr i) ↦ inr (In-insert_by x a xs (inr i))
    ])
  ]

  -- Sorting loses nothing.
  pub In-sort_by : (x : A) (xs : List A) → In x xs → In x (sort_by xs)
  unfolding sort_by
  In-sort_by x [] h = h
  In-sort_by x (a ∷ xs) (inl e) = In-insert_by x a (sort_by xs) (inl e)
  In-sort_by x (a ∷ xs) (inr i) = In-insert_by x a (sort_by xs) (inr (In-sort_by x xs i))
