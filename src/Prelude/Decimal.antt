-- ===== src/Prelude/Decimal.antt =====
-- `String(n)` of a whole number and `parseInt(text, 10)` of a text that begins with its digits, as
-- the source uses them on counters and lengths.
use Prim.Native.Nat.{ℕ, zero, suc, ◌+◌, ◌-◌, ◌*◌, ◌/◌, ◌%◌, ◌^◌, ◌≤◌, ◌<◌}
use mathlib.Core.Path.{◌≡◌, refl, ap, ◌∙◌}
use mathlib.Core.Bool.{Bool, true, ◌&&◌}
use mathlib.Core.Logic.{inl, inr}
use mathlib.Core.Option.{Option, none, some}
use mathlib.Core.List.{[], ◌∷◌}
use native.Mathlib.Omega.{arith}
use native.Mathlib.Numerals.{unary_clauses}
use nest_auth.Prelude.Tests.{ltb, leb, if◌then◌else◌, Bool-cases}
use nest_auth.Prelude.Texts.{Text, Free, codes}
use nest_auth.Prelude.Lists.{length}

-- The digits of `n` before `out`; fuel above `n` is enough.
decimal_from : ℕ → ℕ → Text → Text
decimal_from zero n out = out
decimal_from (suc f) n out =
    let longer = decimal_from f (n / 10) ((b'0' + n % 10) ∷ out) in
    if ltb n 10 then (b'0' + n) ∷ out else longer

-- `String(n)`
unfoldable pub decimal : ℕ → Text
unfolding decimal_from
decimal n = decimal_from (suc n) n []

-- `/\d/`
abbrev pub is_digit : ℕ → Bool
is_digit c = leb b'0' c && leb c b'9'

-- The value of the leading digits, after those that gave `acc`.
read_digits : ℕ → Text → ℕ
read_digits acc [] = acc
read_digits acc (c ∷ t) =
    let longer = read_digits (acc * 10 + (c - b'0')) t in if is_digit c then longer else acc

-- `parseInt(text, 10)`; `none` is NaN. The source parses texts that begin with a digit.
unfoldable pub parse_int : Text → Option ℕ
unfolding read_digits
parse_int [] = none
parse_int (c ∷ t) = if is_digit c then some (read_digits 0 (c ∷ t)) else none

abbrev pub all_digits : Text → Bool
all_digits [] = true
all_digits (c ∷ t) = is_digit c && all_digits t

-- `Number(text)` of a text of digits; `Number('')` is 0, and the other texts, on which the source
-- falls back to 0, are read as 0.
unfoldable pub number_of : Text → ℕ
unfolding read_digits
number_of t = if all_digits t then read_digits 0 t else 0

read_digits-nil : (n : ℕ) → read_digits n [] ≡ n
unfolding read_digits
read_digits-nil n = refl

read_digits-decimal_from :
    (f n : ℕ) (out : Text) → n < f → read_digits 0 (decimal_from f n out) ≡ read_digits n out
unfolding read_digits decimal_from
read_digits-decimal_from zero n out h = elim h [ ]
read_digits-decimal_from (suc f) n out h = elim (Bool-cases (ltb n 10)) [
  | inl small ↦ ground arith
  | inr large ↦
      rw large (
        read_digits-decimal_from f (n / 10) ((b'0' + n % 10) ∷ out) (ground arith) ∙ (ground arith))
]

decimal_from-digit :
    (f n : ℕ) (out : Text)
    → n < f
    → (c : ℕ) × (t : Text) × (decimal_from f n out ≡ c ∷ t) × (is_digit c ≡ true)
unfolding decimal_from
decimal_from-digit zero n out h = elim h [ ]
decimal_from-digit (suc f) n out h = elim (Bool-cases (ltb n 10)) [
  | inl small ↦ (b'0' + n, out, ground arith, ground arith)
  | inr large ↦ rw large (decimal_from-digit f (n / 10) ((b'0' + n % 10) ∷ out) (ground arith))
]

parse_int-digit :
    (t : Text) (c : ℕ) (s : Text)
    → t ≡ c ∷ s
    → is_digit c ≡ true
    → parse_int t ≡ some (read_digits 0 t)
unfolding parse_int
parse_int-digit t c s e h = rw (e, h)

-- A printed number is read back.
pub parse_int-decimal : (n : ℕ) → parse_int (decimal n) ≡ some n
unfolding decimal
parse_int-decimal n =
    let (c, t, shape, digit) = decimal_from-digit (suc n) n [] (omega arith) in
    parse_int-digit (decimal n) c t shape digit
    ∙ ap some (read_digits-decimal_from (suc n) n [] (omega arith) ∙ read_digits-nil n)

all_digits-decimal_from :
    (f n : ℕ) (out : Text) → all_digits out ≡ true → all_digits (decimal_from f n out) ≡ true
unfolding decimal_from
all_digits-decimal_from zero n out h = h
all_digits-decimal_from (suc f) n out h = elim (Bool-cases (ltb n 10)) [
  | inl small ↦ rw small (ground arith)
  | inr large ↦ rw large (all_digits-decimal_from f (n / 10) ((b'0' + n % 10) ∷ out) (ground arith))
]

pub all_digits-decimal : (n : ℕ) → all_digits (decimal n) ≡ true
unfolding decimal
all_digits-decimal n = all_digits-decimal_from (suc n) n [] refl

length-decimal_from-le :
    (f n d : ℕ) (out : Text)
    → n < f
    → n < 10 ^ suc d
    → length (decimal_from f n out) ≤ suc d + length out
unfolding decimal_from
length-decimal_from-le zero n d out h small = elim h [ ]
length-decimal_from-le (suc f) n zero out h small =
    let short : ltb n 10 ≡ true = ground arith in rw short (omega arith)
length-decimal_from-le (suc f) n (suc d) out h small = elim (Bool-cases (ltb n 10)) [
  | inl short ↦ rw short (omega arith)
  | inr long ↦
      let tenth : n < 10 ^ d * 10 * 10 = simp unary_clauses at small in
      rw long (
        omega (
          arith,
          length-decimal_from-le f (n / 10) d ((b'0' + n % 10) ∷ out) (ground arith)
              (simp unary_clauses (omega (arith, tenth))),
        ))
]

-- A number below a power of ten has as many digits at most.
pub length-decimal-le : (n d : ℕ) → n < 10 ^ suc d → length (decimal n) ≤ suc d
unfolding decimal
length-decimal-le n d h = omega (arith, length-decimal_from-le (suc n) n d [] (omega arith) h)

-- A printed number is read back as a number.
pub number_of-decimal : (n : ℕ) → number_of (decimal n) ≡ n
unfolding number_of decimal
number_of-decimal n =
    rw (all_digits-decimal_from (suc n) n [] refl)
      (read_digits-decimal_from (suc n) n [] (omega arith) ∙ read_digits-nil n)

decimal_from-Free : (f n : ℕ) (out : Text) → Free b':' out → Free b':' (decimal_from f n out)
unfolding decimal_from
decimal_from-Free zero n out h = h
decimal_from-Free (suc f) n out h = elim (Bool-cases (ltb n 10)) [
  | inl small ↦ rw small (ground arith, h)
  | inr large ↦ rw large (decimal_from-Free f (n / 10) ((b'0' + n % 10) ∷ out) (ground arith, h))
]

-- No digit is a colon.
pub decimal-Free : (n : ℕ) → Free b':' (decimal n)
unfolding decimal
decimal-Free n = decimal_from-Free (suc n) n [] tt

pub decimal-injective : (m n : ℕ) → decimal m ≡ decimal n → m ≡ n
decimal-injective m n e = cc (parse_int-decimal m, parse_int-decimal n)

decimal_tests : (decimal 0 ≡ codes "0") × (decimal 1209 ≡ codes "1209")
unfolding decimal
decimal_tests = (refl, refl)
