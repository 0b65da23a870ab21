-- ===== src/Totp.antt =====
-- crypto/totp.ts: base32 and the one-time passwords that are computed from a counter.
pub mod Alphabet
pub mod RoundTrip
pub mod Codes
pub mod Uri
use nest_auth.Prelude.{
  ◌>>=◌, ℕ, zero, suc, ◌+◌, ◌*◌, ◌-◌, ◌/◌, ◌%◌, ◌^◌, Bool, true, false, ◌&&◌, ◌||◌, not, Option,
  none, some, List, [], ◌∷◌, ◌++◌, Text, codes, text_eq, length, keep, contains, leb, ltb, ◌==◌,
  min, max, if◌then◌else◌,
}
use nest_auth.Prelude.Decimal.{decimal, is_digit, all_digits}

-- BASE32_ALPHABET
abbrev pub base32_alphabet : Text
base32_alphabet = codes "ABCDEFGHIJKLMNOPQRSTUVWXYZ234567"

-- `text[i]`, where it is in range
abbrev pub at_index : Text → ℕ → ℕ
at_index [] i = 0
at_index (c ∷ t) zero = c
at_index (c ∷ t) (suc i) = at_index t i

-- `text.indexOf(char)`, where `none` is -1
abbrev pub index_of : ℕ → Text → Option ℕ
index_of c [] = none
index_of c (d ∷ t) =
    if d == c then some 0 else elim (index_of c t) [ none ↦ none | some i ↦ some (suc i) ]

abbrev pub letter : ℕ → ℕ
letter i = at_index base32_alphabet (i % 32)

-- `(value << 8) | byte` and `(value << 5) | idx` in 32 bits
abbrev pub pushed : ℕ → ℕ → ℕ → ℕ
pushed value width bits = value * 2 ^ width % 2 ^ 32 + bits

-- the inner loop of `toBase32`: what it puts out, and the bits that are left; as many rounds as
-- there are bits are enough
unfoldable pub emit : ℕ → ℕ → ℕ → Text × ℕ
emit zero bits value = ([], bits)
emit (suc rounds) bits value =
    let (output, left) = emit rounds (bits - 5) value in
    if leb 5 bits then (letter (value / 2 ^ (bits - 5)) ∷ output, left) else ([], bits)

-- the loop of `toBase32`, and what follows it
unfoldable pub encode_from : List ℕ → ℕ → ℕ → Text
unfolding emit
encode_from [] bits value = if ltb 0 bits then letter (value * 2 ^ (5 - bits)) ∷ [] else []
encode_from (byte ∷ input) bits value =
    let value' = pushed value 8 byte in
    let (output, left) = emit (bits + 8) (bits + 8) value' in
    output ++ encode_from input left value'

unfoldable pub to_base32 : List ℕ → Text
unfolding encode_from
to_base32 input = encode_from input 0 0

-- the text of `generateTotpSecret`, of the bytes that are drawn
abbrev pub generate_totp_secret : List ℕ → Text
generate_totp_secret raw = to_base32 raw

-- the loop of `fromBase32`; `none` is its error
unfoldable pub decode_from : Text → ℕ → ℕ → Option (List ℕ)
decode_from [] bits value = some []
decode_from (c ∷ t) bits value = elim (index_of c base32_alphabet) [
  | none ↦ none
  | some idx ↦
      let value' = pushed value 5 idx in
      let bits' = bits + 5 in
      let rest = decode_from t (if leb 8 bits' then bits' - 8 else bits') value' in
      if leb 8 bits'
      then elim rest [ none ↦ none | some output ↦ some (value' / 2 ^ (bits' - 8) % 256 ∷ output) ]
      else rest
]

-- `/[\s=-]/`: the white space and the line ends of ECMAScript, `=` and `-`
abbrev separators : List ℕ
separators =
    9 ∷ 10 ∷ 11 ∷ 12 ∷ 13 ∷ 32 ∷ 0xA0 ∷ 0x1680 ∷ 0x2028 ∷ 0x2029 ∷ 0x202F ∷ 0x205F ∷ 0x3000 ∷ 0xFEFF
    ∷ b'=' ∷ b'-' ∷ []

abbrev is_one_of : List ℕ → ℕ → Bool
is_one_of [] c = false
is_one_of (d ∷ l) c = d == c || is_one_of l c

abbrev pub is_separator : ℕ → Bool
is_separator c = is_one_of separators c || (leb 0x2000 c && leb c 0x200A)

-- `input.toUpperCase()` of Unicode is an argument.
unfoldable pub from_base32 : (Text → Text) → Text → Option (List ℕ)
unfolding decode_from
from_base32 to_upper_case input =
    decode_from (keep (λ c. not (is_separator c)) (to_upper_case input)) 0 0

-- The whole numbers that a counter can be.
pub data ℤ : Type 0 where
  pos : ℕ → ℤ
  negsuc : ℕ → ℤ

abbrev pub minus : ℕ → ℕ → ℤ
minus a zero = pos a
minus zero (suc b) = negsuc b
minus (suc a) (suc b) = minus a b

-- MIN_SECRET_BYTES, TOTP_DIGITS, TOTP_STEP_SECONDS, MAX_VERIFY_WINDOW, Number.MAX_SAFE_INTEGER
abbrev pub min_secret_bytes : ℕ
min_secret_bytes = 20

abbrev pub totp_digits : ℕ
totp_digits = 6

abbrev pub totp_step_seconds : ℕ
totp_step_seconds = 30

abbrev pub max_verify_window : ℕ
max_verify_window = 2

abbrev pub max_safe_integer : ℕ
max_safe_integer = 0x1FFFFFFFFFFFFF

-- `writeUInt32BE`
abbrev pub write_u_int32_be : ℕ → List ℕ
write_u_int32_be n = n / 2 ^ 24 % 256 ∷ n / 2 ^ 16 % 256 ∷ n / 2 ^ 8 % 256 ∷ n % 256 ∷ []

-- `readUInt8`, which throws out of range
abbrev pub read_u_int8 : List ℕ → ℕ → Option ℕ
read_u_int8 [] i = none
read_u_int8 (byte ∷ l) zero = some byte
read_u_int8 (byte ∷ l) (suc i) = read_u_int8 l i

-- the dynamic truncation of a digest
unfoldable pub truncate : List ℕ → Option ℕ
truncate digest = do
  last ← read_u_int8 digest (length digest - 1)
  b0 ← read_u_int8 digest (last % 16)
  b1 ← read_u_int8 digest (last % 16 + 1)
  b2 ← read_u_int8 digest (last % 16 + 2)
  b3 ← read_u_int8 digest (last % 16 + 3)
  some (b0 % 128 * 2 ^ 24 + (b1 % 256 * 2 ^ 16 + (b2 % 256 * 2 ^ 8 + b3)))

abbrev zeros : ℕ → Text
zeros zero = []
zeros (suc n) = b'0' ∷ zeros n

-- `text.padStart(width, '0')`
abbrev pub pad_start : ℕ → Text → Text
pad_start width t = zeros (width - length t) ++ t

-- `String(truncated % 10 ** TOTP_DIGITS).padStart(TOTP_DIGITS, '0')`
unfoldable pub digits_of : ℕ → Text
digits_of truncated = pad_start totp_digits (decimal (truncated % 10 ^ totp_digits))

-- `/^\d{6}$/`
abbrev pub is_code : Text → Bool
is_code code = length code == totp_digits && all_digits code

-- `effective`
unfoldable pub effective_window : ℤ → ℕ
effective_window (pos window) = min window max_verify_window
effective_window (negsuc window) = 0

-- HMAC-SHA1 of the key and the message is of `node:crypto`: an argument.
module _ (to_upper_case : Text → Text) (hmac_sha1 : List ℕ → List ℕ → List ℕ) where
  -- `generateHotp`; `none` is an error that it throws
  unfoldable pub generate_hotp : Text → ℤ → Option Text
  unfolding from_base32 truncate digits_of
  generate_hotp secret_base32 (negsuc counter) = none
  generate_hotp secret_base32 (pos counter) = do
    key ← from_base32 to_upper_case secret_base32
    truncated ←
        (if ltb (length key) min_secret_bytes || ltb max_safe_integer counter
          then none
          else truncate (
              hmac_sha1 key
                (write_u_int32_be (counter / 2 ^ 32) ++ write_u_int32_be (counter % 2 ^ 32))))
    some (digits_of truncated)

  -- `generateTotp`, at a time in milliseconds
  unfoldable pub generate_totp : ℕ → Text → Option Text
  unfolding generate_hotp
  generate_totp now secret_base32 =
      generate_hotp secret_base32 (pos (now / 1000 / totp_step_seconds))

  -- the loop of `verifyTotp` over the deltas that are left, the next of which is `k - effective`
  unfoldable pub check_steps : Text → Text → ℕ → ℕ → ℕ → ℕ → Option Bool
  unfolding generate_hotp
  check_steps secret_base32 code step effective k zero = some false
  check_steps secret_base32 code step effective k (suc left) =
      let later = check_steps secret_base32 code step effective (suc k) left in
      elim (generate_hotp secret_base32 (minus (step + k) effective)) [
        | none ↦ none
        | some expected ↦ if text_eq expected code then some true else later
      ]

  -- `verifyTotp`
  unfoldable pub verify_totp : ℕ → Text → Text → ℤ → Option Bool
  unfolding check_steps effective_window
  verify_totp now secret_base32 code window =
      let effective = effective_window window in
      let checked =
        check_steps secret_base32 code (now / 1000 / totp_step_seconds) effective 0
          (2 * effective + 1) in
      if is_code code then checked else some false
