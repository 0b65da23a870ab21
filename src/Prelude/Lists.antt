-- ===== src/Prelude/Lists.antt =====
-- Lists measured by native numbers, and Boolean membership of texts.
use Prim.Native.Nat.{ℕ, suc, ◌+◌, ◌≤◌}
use mathlib.Core.Path.{◌≡◌}
use mathlib.Core.Bool.{Bool, true, false, ◌||◌}
use mathlib.Core.List.{List, [], ◌∷◌, ◌++◌}
use native.Mathlib.Omega.{arith}
use nest_auth.Prelude.Tests.{if◌then◌else◌}
use nest_auth.Prelude.Texts.{Text, text_eq, text_eq_refl}

module _ {ℓ} {A : Type ℓ} where
  abbrev pub length : List A → ℕ
  length [] = 0
  length (x ∷ xs) = suc (length xs)

  pub length-append : (xs ys : List A) → length (xs ++ ys) ≡ length xs + length ys
  length-append [] ys = omega arith
  length-append (x ∷ xs) ys = omega (arith, length-append xs ys)

  -- `xs.filter(p)`
  unfoldable pub keep : (A → Bool) → List A → List A
  keep p [] = []
  keep p (x ∷ xs) = let rest = keep p xs in if p x then x ∷ rest else rest

  pub length-keep-le : (p : A → Bool) (xs : List A) → length (keep p xs) ≤ length xs
  unfolding keep
  length-keep-le p [] = omega arith
  length-keep-le p (x ∷ xs) = ground (arith, length-keep-le p xs)

module _ {ℓ κ} {A : Type ℓ} where
  abbrev pub All : (A → Type κ) → List A → Type κ
  All P [] = Unit
  All P (x ∷ xs) = P x × All P xs

-- `xs.includes(x)`
abbrev pub contains : List Text → Text → Bool
contains [] x = false
contains (y ∷ ys) x = text_eq y x || contains ys x

-- What holds of all that a list names holds along the list.
pub All-contains {κ} :
    (P : Text → Type κ) (xs : List Text) → ((x : Text) → contains xs x ≡ true → P x) → All P xs
All-contains P [] each = tt
All-contains P (x ∷ xs) each =
    let one : contains (x ∷ xs) x ≡ true = ground (arith, text_eq_refl x) in
    (each x one, All-contains P xs (λ y h. each y (ground (arith, h))))
