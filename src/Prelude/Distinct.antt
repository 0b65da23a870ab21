-- ===== src/Prelude/Distinct.antt =====
-- Lists of texts as sets: what a list without repetitions holds, and how long it can be.
use nest_auth.Prelude.Tests.{if◌then◌else◌}
use nest_auth.Prelude.Texts.{Text, text_eq, text_eq_iff, text_eq_refl, slice_to}
use nest_auth.Prelude.Lists.{length, keep, contains}
use Prim.Native.Nat.{ℕ, suc, zero, ◌+◌, ◌≤◌, ◌<◌}
use mathlib.Core.Path.{◌≡◌, refl}
use mathlib.Core.Bool.{Bool, true, false, ◌&&◌, ◌||◌, not}
use mathlib.Core.List.{List, [], ◌∷◌, ◌++◌}
use native.Mathlib.Omega.{arith}

abbrev pub distinct : List Text → Bool
distinct [] = true
distinct (x ∷ xs) = not (contains xs x) && distinct xs

abbrev pub without : Text → List Text → List Text
without m [] = []
without m (x ∷ xs) = if text_eq m x then without m xs else x ∷ without m xs

abbrev pub dedup : List Text → List Text
dedup [] = []
dedup (x ∷ xs) = x ∷ without x (dedup xs)

pub contains-without :
    (m : Text) (xs : List Text) (x : Text)
    → contains (without m xs) x ≡ (if text_eq m x then false else contains xs x)
contains-without m [] x = ground arith
contains-without m (y ∷ xs) x =
    ground (arith, contains-without m xs x, text_eq_iff m y, text_eq_iff m x, text_eq_iff y x)

pub contains-dedup : (xs : List Text) (x : Text) → contains (dedup xs) x ≡ contains xs x
contains-dedup [] x = refl
contains-dedup (y ∷ xs) x = ground (arith, contains-without y (dedup xs) x, contains-dedup xs x)

distinct-without : (m : Text) (xs : List Text) → distinct xs ≡ true → distinct (without m xs) ≡ true
distinct-without m [] h = refl
distinct-without m (y ∷ xs) h = ground (arith, distinct-without m xs, contains-without m xs y)

pub distinct-dedup : (xs : List Text) → distinct (dedup xs) ≡ true
distinct-dedup [] = refl
distinct-dedup (y ∷ xs) = ground (
  arith,
  distinct-without y (dedup xs) (distinct-dedup xs),
  contains-without y (dedup xs) y,
  text_eq_refl y,
)

pub contains-append :
    (xs ys : List Text) (x : Text) → contains (xs ++ ys) x ≡ (contains xs x || contains ys x)
contains-append [] ys x = refl
contains-append (y ∷ xs) ys x = ground (arith, contains-append xs ys x)

-- Two parts that share nothing.
pub distinct-append :
    (xs ys : List Text)
    → distinct xs ≡ true
    → distinct ys ≡ true
    → ((x : Text) → contains xs x ≡ true → contains ys x ≡ false)
    → distinct (xs ++ ys) ≡ true
distinct-append [] ys hx hy apart = hy
distinct-append (x ∷ xs) ys hx hy apart = ground (
  arith,
  distinct-append xs ys (ground arith) hy (λ z h. apart z (ground arith)),
  contains-append xs ys x,
  apart x (ground (arith, text_eq_refl x)),
)

length-without-le : (m : Text) (xs : List Text) → length (without m xs) ≤ length xs
length-without-le m [] = omega arith
length-without-le m (x ∷ xs) = ground (arith, length-without-le m xs)

length-without-lt :
    (m : Text) (xs : List Text) → contains xs m ≡ true → length (without m xs) < length xs
length-without-lt m [] h = cc
length-without-lt m (x ∷ xs) h =
    ground (arith, length-without-lt m xs, length-without-le m xs, text_eq_iff m x, text_eq_iff x m)

-- A list without repetitions is no longer than a list that holds all that it holds.
pub length-le_of_contains :
    (xs ys : List Text)
    → distinct xs ≡ true
    → ((x : Text) → contains xs x ≡ true → contains ys x ≡ true)
    → length xs ≤ length ys
length-le_of_contains [] ys h sub = omega arith
length-le_of_contains (x ∷ xs) ys h sub = omega (
  arith,
  length-without-lt x ys (sub x (ground (arith, text_eq_refl x))),
  length-le_of_contains xs (without x ys) (ground arith)
      (λ z c. ground (arith, contains-without x ys z, sub z (ground arith), text_eq_iff x z)),
)

pub contains-keep :
    (p : Text → Bool) (xs : List Text) (x : Text) → contains (keep p xs) x ≡ (contains xs x && p x)
unfolding keep
contains-keep p [] x = refl
contains-keep p (y ∷ xs) x = ground (arith, contains-keep p xs x, text_eq_iff y x)

pub distinct-keep :
    (p : Text → Bool) (xs : List Text) → distinct xs ≡ true → distinct (keep p xs) ≡ true
unfolding keep
distinct-keep p [] h = refl
distinct-keep p (y ∷ xs) h = ground (arith, distinct-keep p xs, contains-keep p xs y)

-- Of the members of a list without repetitions, one at most is a given text.
pub length-keep_others :
    (m : Text) (xs : List Text)
    → distinct xs ≡ true
    → length xs ≤ length (keep (λ x. not (text_eq x m)) xs) + 1
unfolding keep
length-keep_others m [] h = omega arith
length-keep_others m (x ∷ xs) h =
    ground (arith, length-keep_others m xs, all_others m xs, text_eq_iff x m)
  where
    all_others :
        (m : Text) (xs : List Text)
        → contains xs m ≡ false
        → length (keep (λ x. not (text_eq x m)) xs) ≡ length xs
    all_others m [] h = refl
    all_others m (x ∷ xs) h = ground (arith, all_others m xs)

-- A list cut off at a place.
pub contains-slice_to :
    (n : ℕ) (xs : List Text) (x : Text) → contains (slice_to n xs) x ≡ true → contains xs x ≡ true
contains-slice_to zero xs x h = cc
contains-slice_to (suc n) [] x h = cc
contains-slice_to (suc n) (y ∷ xs) x h = ground (arith, contains-slice_to n xs x)

pub distinct-slice_to :
    (n : ℕ) (xs : List Text) → distinct xs ≡ true → distinct (slice_to n xs) ≡ true
distinct-slice_to zero xs h = refl
distinct-slice_to (suc n) [] h = refl
distinct-slice_to (suc n) (x ∷ xs) h =
    ground (arith, distinct-slice_to n xs, contains-slice_to n xs x)

pub length-slice_to : (n : ℕ) (xs : List Text) → n ≤ length xs → length (slice_to n xs) ≡ n
length-slice_to zero xs h = refl
length-slice_to (suc n) [] h = omega arith
length-slice_to (suc n) (x ∷ xs) h = omega (arith, length-slice_to n xs (omega arith))

-- Two tests that agree on the members keep the same ones.
pub keep-cong :
    (p q : Text → Bool) (xs : List Text)
    → ((x : Text) → contains xs x ≡ true → p x ≡ q x)
    → keep p xs ≡ keep q xs
unfolding keep
keep-cong p q [] same = refl
keep-cong p q (x ∷ xs) same =
    rw (same x (ground (arith, text_eq_refl x)), keep-cong p q xs (λ y c. same y (ground arith)))
      refl
