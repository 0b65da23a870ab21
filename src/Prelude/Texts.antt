-- ===== src/Prelude/Texts.antt =====
-- Texts as lists of character codes, with the string operations of the source that are used on
-- keys, tags and paths: `===`, `startsWith`, `slice`, `indexOf` of one character.
use Prim.Native.Nat.{ℕ, suc, zero}
use Prim.Native.Char.{code}
use Prim.Native.String.{String}
use mathlib.Core.Path.{◌≡◌, refl}
use mathlib.Core.Bool.{Bool, true, false, ◌&&◌}
use mathlib.Core.Logic.{◌↔◌, ◌≢◌}
use mathlib.Core.Option.{Option, none, some}
use mathlib.Core.List.{List, [], ◌∷◌, ◌++◌}
use native.Mathlib.Omega.{arith}
use nest_auth.Prelude.Tests.{◌==◌, if◌then◌else◌}

abbrev pub Text : Type 0
Text = List ℕ

abbrev pub codes : String → Text
codes String.[] = []
codes (String.◌∷◌ c s) = code c ∷ codes s

-- `a === b`
abbrev pub text_eq : Text → Text → Bool
text_eq [] [] = true
text_eq [] (y ∷ ys) = false
text_eq (x ∷ xs) [] = false
text_eq (x ∷ xs) (y ∷ ys) = x == y && text_eq xs ys

pub text_eq_refl : (a : Text) → text_eq a a ≡ true
text_eq_refl [] = refl
text_eq_refl (x ∷ a) = ground (arith, text_eq_refl a)

pub eq_of_text_eq : (a b : Text) → text_eq a b ≡ true → a ≡ b
eq_of_text_eq [] [] h = refl
eq_of_text_eq [] (y ∷ b) h = cc
eq_of_text_eq (x ∷ a) [] h = cc
eq_of_text_eq (x ∷ a) (y ∷ b) h = ground (arith, eq_of_text_eq a b)

pub text_eq_iff : (a b : Text) → (text_eq a b ≡ true) ↔ (a ≡ b)
text_eq_iff a b = (eq_of_text_eq a b, λ e. rw e (text_eq_refl b))

pub text_eq_ne : (a b : Text) → a ≢ b → text_eq a b ≡ false
text_eq_ne a b h = ground (arith, text_eq_iff a b)

pub text_eq-append : (p a b : Text) → text_eq (p ++ a) (p ++ b) ≡ text_eq a b
text_eq-append [] a b = refl
text_eq-append (x ∷ p) a b = ground (arith, text_eq-append p a b)

-- `text.startsWith(prefix)`
abbrev pub starts_with : Text → Text → Bool
starts_with [] t = true
starts_with (x ∷ p) [] = false
starts_with (x ∷ p) (y ∷ t) = x == y && starts_with p t

-- `text.slice(n)`
abbrev pub slice_from {ℓ} : {A : Type ℓ} → ℕ → List A → List A
slice_from zero t = t
slice_from (suc n) [] = []
slice_from (suc n) (x ∷ t) = slice_from n t

-- `text.slice(0, n)`
abbrev pub slice_to {ℓ} : {A : Type ℓ} → ℕ → List A → List A
slice_to zero t = []
slice_to (suc n) [] = []
slice_to (suc n) (x ∷ t) = x ∷ slice_to n t

-- The parts before and after the first `c`; `none` where `indexOf(c)` is -1.
unfoldable pub split_first : ℕ → Text → Option (Text × Text)
split_first c [] = none
split_first c (x ∷ t) =
    if x == c
    then some ([], t)
    else elim (split_first c t) [ none ↦ none | some (before, after) ↦ some (x ∷ before, after) ]

-- No character of the text is `c`.
abbrev pub Free : ℕ → Text → Type 0
Free c [] = Unit {0}
Free c (x ∷ t) = (x == c ≡ false) × Free c t

-- A text without `c` is found again before the first `c`.
pub split_first-append : (c : ℕ) (a b : Text) → Free c a → split_first c (a ++ c ∷ b) ≡ some (a, b)
unfolding split_first
split_first-append c [] b h = ground arith
split_first-append c (x ∷ a) b h = rw (h.0, split_first-append c a b h.1)
