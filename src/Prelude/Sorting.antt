-- ===== src/Prelude/Sorting.antt =====
-- `Array.prototype.sort` of texts by a number, which is stable: as insertion.
use nest_auth.Prelude.Tests.{leb, if◌then◌else◌, Bool-cases}
use nest_auth.Prelude.Texts.{Text, text_eq, text_eq_iff, slice_to}
use nest_auth.Prelude.Lists.{length, contains, keep}
use nest_auth.Prelude.Distinct.{distinct, contains-keep}
use Prim.Native.Nat.{ℕ, suc, zero, ◌≤◌}
use mathlib.Core.Path.{◌≡◌, refl}
use mathlib.Core.Bool.{Bool, true, false, ◌||◌}
use mathlib.Core.Logic.{inl, inr}
use mathlib.Core.List.{List, [], ◌∷◌}
use native.Mathlib.Omega.{arith}

module _ (age : Text → ℕ) where
  unfoldable pub insert_by : Text → List Text → List Text
  insert_by x [] = x ∷ []
  insert_by x (y ∷ ys) =
      let later = y ∷ insert_by x ys in if leb (age x) (age y) then x ∷ y ∷ ys else later

  unfoldable pub sort_by : List Text → List Text
  unfolding insert_by
  sort_by [] = []
  sort_by (x ∷ xs) = insert_by x (sort_by xs)

  -- Every earlier one is at most as large as every later one.
  abbrev pub IsSortedBy : List Text → Type 0
  IsSortedBy [] = Unit {0}
  IsSortedBy (x ∷ xs) = ((y : Text) → contains xs y ≡ true → age x ≤ age y) × IsSortedBy xs

  contains-insert_by :
      (x : Text) (ys : List Text) (z : Text)
      → contains (insert_by x ys) z ≡ (text_eq x z || contains ys z)
  unfolding insert_by
  contains-insert_by x [] z = refl
  contains-insert_by x (y ∷ ys) z = ground (arith, contains-insert_by x ys z)

  pub contains-sort_by : (xs : List Text) (z : Text) → contains (sort_by xs) z ≡ contains xs z
  unfolding sort_by
  contains-sort_by [] z = refl
  contains-sort_by (x ∷ xs) z =
      ground (arith, contains-insert_by x (sort_by xs) z, contains-sort_by xs z)

  length-insert_by : (x : Text) (ys : List Text) → length (insert_by x ys) ≡ suc (length ys)
  unfolding insert_by
  length-insert_by x [] = refl
  length-insert_by x (y ∷ ys) = ground (arith, length-insert_by x ys)

  pub length-sort_by : (xs : List Text) → length (sort_by xs) ≡ length xs
  unfolding sort_by
  length-sort_by [] = refl
  length-sort_by (x ∷ xs) = omega (arith, length-insert_by x (sort_by xs), length-sort_by xs)

  distinct-insert_by :
      (x : Text) (ys : List Text)
      → contains ys x ≡ false
      → distinct ys ≡ true
      → distinct (insert_by x ys) ≡ true
  unfolding insert_by
  distinct-insert_by x [] a h = refl
  distinct-insert_by x (y ∷ ys) a h =
      ground (
        arith,
        distinct-insert_by x ys,
        contains-insert_by x ys y,
        text_eq_iff x y,
        text_eq_iff y x,
      )

  pub distinct-sort_by : (xs : List Text) → distinct xs ≡ true → distinct (sort_by xs) ≡ true
  unfolding sort_by
  distinct-sort_by [] h = refl
  distinct-sort_by (x ∷ xs) h =
      ground (arith, distinct-insert_by x (sort_by xs), distinct-sort_by xs, contains-sort_by xs x)

  insert_by-IsSortedBy : (x : Text) (ys : List Text) → IsSortedBy ys → IsSortedBy (insert_by x ys)
  unfolding insert_by
  insert_by-IsSortedBy x [] s = ((λ y c. cc), tt)
  insert_by-IsSortedBy x (y ∷ ys) s = elim (Bool-cases (leb (age x) (age y))) [
    | inl first ↦ rw first ((λ z c. ground (arith, s.0 z, text_eq_iff y z)), s)
    | inr later ↦ rw later (
      (λ z c. ground (arith, s.0 z, contains-insert_by x ys z, text_eq_iff x z)),
      insert_by-IsSortedBy x ys s.1,
    )
  ]

  pub sort_by-IsSortedBy : (xs : List Text) → IsSortedBy (sort_by xs)
  unfolding sort_by
  sort_by-IsSortedBy [] = tt
  sort_by-IsSortedBy (x ∷ xs) = insert_by-IsSortedBy x (sort_by xs) (sort_by-IsSortedBy xs)

  pub keep-IsSortedBy : (p : Text → Bool) (xs : List Text) → IsSortedBy xs → IsSortedBy (keep p xs)
  unfolding keep
  keep-IsSortedBy p [] s = tt
  keep-IsSortedBy p (x ∷ xs) s = elim (Bool-cases (p x)) [
    | inl kept ↦
        rw kept ((λ y c. s.0 y (ground (arith, contains-keep p xs y))), keep-IsSortedBy p xs s.1)
    | inr dropped ↦ rw dropped (keep-IsSortedBy p xs s.1)
  ]

  -- Those before the cut are at most as large as those behind it.
  pub age-slice_to-le :
      (n : ℕ) (xs : List Text) (x y : Text)
      → IsSortedBy xs
      → contains (slice_to n xs) x ≡ true
      → contains xs y ≡ true
      → contains (slice_to n xs) y ≡ false
      → age x ≤ age y
  age-slice_to-le zero xs x y s hx hy out = cc
  age-slice_to-le (suc n) [] x y s hx hy out = cc
  age-slice_to-le (suc n) (z ∷ xs) x y s hx hy out =
      ground (arith, s.0 y, age-slice_to-le n xs x y s.1, text_eq_iff z x)
