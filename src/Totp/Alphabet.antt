-- ===== src/Totp/Alphabet.antt =====
-- The letters of base32 and their places.
use nest_auth.Prelude.{
  ℕ, zero, suc, ◌%◌, ◌<◌, ◌≡◌, refl, ap, Bool, true, false, ◌&&◌, not, ltb, Option, none, some,
  ◌==◌, arith, inl, inr, Bool-cases,
}
use nest_auth.Totp.{base32_alphabet, at_index, index_of, letter, is_separator}

all_below : ℕ → (ℕ → Bool) → Bool
all_below zero p = true
all_below (suc n) p = p n && all_below n p

all_below-at : (n : ℕ) (p : ℕ → Bool) (i : ℕ) → all_below n p ≡ true → i < n → p i ≡ true
unfolding all_below
all_below-at zero p i h l = absurd (omega arith)
all_below-at (suc n) p i h l = elim (Bool-cases (i == n)) [
  | inl e ↦ let same : i ≡ n = ground arith in ground (arith, ap p same)
  | inr e ↦ all_below-at n p i (ground arith) (ground arith)
]

is_some_of : Option ℕ → ℕ → Bool
is_some_of none i = false
is_some_of (some j) i = i == j

in_place : ℕ → Bool
unfolding is_some_of
in_place i = is_some_of (index_of (at_index base32_alphabet i) base32_alphabet) i

-- A letter stands where it is found.
pub index_of-letter : (i : ℕ) → index_of (letter i) base32_alphabet ≡ some (i % 32)
unfolding all_below in_place is_some_of
index_of-letter i = go _ (all_below-at 32 in_place (i % 32) refl (omega arith))
  where
    go : (o : Option ℕ) → is_some_of o (i % 32) ≡ true → o ≡ some (i % 32)
    go none h = cc
    go (some j) h = ground arith

plain : ℕ → Bool
plain i = let c = at_index base32_alphabet i in not (is_separator c) && ltb c 97

-- A letter is no separator, and its code is below the small letters'.
pub letter-plain : (i : ℕ) → not (is_separator (letter i)) && ltb (letter i) 97 ≡ true
unfolding plain all_below
letter-plain i = all_below-at 32 plain (i % 32) refl (omega arith)
