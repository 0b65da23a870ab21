-- ===== src/Totp/RoundTrip.antt =====
-- Base32 is read back as the bytes that it was made of.
use nest_auth.Prelude.{
  ℕ, zero, suc, ◌+◌, ◌*◌, ◌-◌, ◌/◌, ◌%◌, ◌^◌, ◌<◌, ◌≤◌, ◌≡◌, refl, ap, ◌∙◌, true, false, ◌&&◌, some,
  List, [], ◌∷◌, ◌++◌, Text, All, keep, length, not, arith, inl, inr, Bool-cases, leb, ltb,
}
use nest_auth.Totp.{
  letter, pushed, emit, encode_from, decode_from, to_base32, from_base32, is_separator,
}
use nest_auth.Totp.Alphabet.{index_of-letter, letter-plain}

-- The bytes of a buffer.
abbrev pub AreBytes : List ℕ → Type 0
AreBytes l = All (λ byte. byte < 256) l

-- How many bits the encoder holds back between two bytes.
data Phase : Type 0 where
  held0 held1 held2 held3 held4 : Phase

held : Phase → ℕ
held held0 = 0
held held1 = 1
held held2 = 2
held held3 = 3
held held4 = 4

-- How many bits the decoder holds then.
behind : Phase → ℕ
behind held0 = 0
behind held1 = 7
behind held2 = 6
behind held3 = 5
behind held4 = 4

-- The bits that both hold are those of the last byte.
Agree : Phase → ℕ → ℕ → ℕ → Type 0
Agree held0 v w last = Unit
Agree held1 v w last = (w % 128 ≡ last / 2) × (v % 2 ≡ last % 2)
Agree held2 v w last = (w % 64 ≡ last / 4) × (v % 4 ≡ last % 4)
Agree held3 v w last = (w % 32 ≡ last / 8) × (v % 8 ≡ last % 8)
Agree held4 v w last = (w % 16 ≡ last / 16) × (v % 16 ≡ last % 16)

pending : Phase → ℕ → List ℕ → List ℕ
pending held0 last l = l
pending _ last l = last ∷ l

-- Given as many rounds as there are bits or more, the inner loop of toBase32 ends by its own
-- condition, with a letter for every five bits put out and the rest of the bits left.
pub emit-ends :
    (rounds bits value : ℕ)
    → bits ≤ rounds
    → (length (emit rounds bits value).0 ≡ bits / 5) × ((emit rounds bits value).1 ≡ bits % 5)
unfolding emit
emit-ends zero bits value enough = (omega (arith, enough), omega (arith, enough))
emit-ends (suc rounds) bits value enough = elim (Bool-cases (leb 5 bits)) [
  | inl more ↦
      let rest = emit-ends rounds (bits - 5) value (ground (arith, enough)) in
      rw more (ground (arith, rest.0), ground (arith, rest.1))
  | inr done ↦ rw done (ground arith, ground arith)
]

decode_from-empty : (d w : ℕ) → decode_from [] d w ≡ some []
unfolding decode_from
decode_from-empty d w = refl

-- One letter is decoded: it completes a byte, or not.
decode-whole :
    (i w d : ℕ) (t : Text) (l : List ℕ)
    → leb 8 (d + 5) ≡ true
    → decode_from t (d + 5 - 8) (pushed w 5 (i % 32)) ≡ some l
    → decode_from (letter i ∷ t) d w ≡ some (pushed w 5 (i % 32) / 2 ^ (d + 5 - 8) % 256 ∷ l)
unfolding decode_from
decode-whole i w d t l h e = rw (decode_from, index_of-letter i, h, e) refl

decode-part :
    (i w d : ℕ) (t : Text) (l : List ℕ)
    → leb 8 (d + 5) ≡ false
    → decode_from t (d + 5) (pushed w 5 (i % 32)) ≡ some l
    → decode_from (letter i ∷ t) d w ≡ some l
unfolding decode_from
decode-part i w d t l h e = rw (decode_from, index_of-letter i, h) e

decode-encode :
    (p : Phase) (l : List ℕ) (v w last : ℕ)
    → AreBytes l
    → last < 256
    → Agree p v w last
    → decode_from (encode_from l (held p) v) (behind p) w ≡ some (pending p last l)
unfolding encode_from emit held behind Agree pending
decode-encode held0 [] v w last bytes small agree = decode_from-empty 0 w
decode-encode held0 (b ∷ l) v w last bytes small agree =
    let v' = pushed v 8 b in
    let i = v' / 8 in
    decode-part i w 0 (encode_from l 3 v') (b ∷ l) refl
      (decode-encode held3 l v' (pushed w 5 (i % 32)) b bytes.1 bytes.0 (omega arith, omega arith))
decode-encode held3 [] v w last bytes small agree =
    decode-whole (v * 4) w 5 [] [] refl (decode_from-empty _ _)
    ∙ ap (λ (byte : ℕ). some (byte ∷ [])) (omega (arith, small, agree.0, agree.1))
decode-encode held3 (b ∷ l) v w last bytes small agree =
    let v' = pushed v 8 b in
    let i = v' / 64 in
    let j = v' / 2 in
    let w' = pushed w 5 (i % 32) in
    let w'' = pushed w' 5 (j % 32) in
    decode-whole i w 5 (letter j ∷ encode_from l 1 v') (b ∷ l) refl (
      decode-part j w' 2 (encode_from l 1 v') (b ∷ l) refl
        (decode-encode held1 l v' w'' b bytes.1 bytes.0 (omega arith, omega arith)))
    ∙ ap (λ (byte : ℕ). some (byte ∷ b ∷ l)) (omega (arith, small, agree.0, agree.1))
decode-encode held1 [] v w last bytes small agree =
    decode-whole (v * 16) w 7 [] [] refl (decode_from-empty _ _)
    ∙ ap (λ (byte : ℕ). some (byte ∷ [])) (omega (arith, small, agree.0, agree.1))
decode-encode held1 (b ∷ l) v w last bytes small agree =
    let v' = pushed v 8 b in
    let i = v' / 16 in
    let w' = pushed w 5 (i % 32) in
    decode-whole i w 7 (encode_from l 4 v') (b ∷ l) refl
      (decode-encode held4 l v' w' b bytes.1 bytes.0 (omega arith, omega arith))
    ∙ ap (λ (byte : ℕ). some (byte ∷ b ∷ l)) (omega (arith, small, agree.0, agree.1))
decode-encode held4 [] v w last bytes small agree =
    decode-whole (v * 2) w 4 [] [] refl (decode_from-empty _ _)
    ∙ ap (λ (byte : ℕ). some (byte ∷ [])) (omega (arith, small, agree.0, agree.1))
decode-encode held4 (b ∷ l) v w last bytes small agree =
    let v' = pushed v 8 b in
    let i = v' / 128 in
    let j = v' / 4 in
    let w' = pushed w 5 (i % 32) in
    let w'' = pushed w' 5 (j % 32) in
    decode-whole i w 4 (letter j ∷ encode_from l 2 v') (b ∷ l) refl (
      decode-part j w' 1 (encode_from l 2 v') (b ∷ l) refl
        (decode-encode held2 l v' w'' b bytes.1 bytes.0 (omega arith, omega arith)))
    ∙ ap (λ (byte : ℕ). some (byte ∷ b ∷ l)) (omega (arith, small, agree.0, agree.1))
decode-encode held2 [] v w last bytes small agree =
    decode-whole (v * 8) w 6 [] [] refl (decode_from-empty _ _)
    ∙ ap (λ (byte : ℕ). some (byte ∷ [])) (omega (arith, small, agree.0, agree.1))
decode-encode held2 (b ∷ l) v w last bytes small agree =
    let v' = pushed v 8 b in
    let i = v' / 32 in
    let j = v' / 1 in
    let w' = pushed w 5 (i % 32) in
    let w'' = pushed w' 5 (j % 32) in
    decode-whole i w 6 (letter j ∷ encode_from l 0 v') (b ∷ l) refl (
      decode-whole j w' 3 (encode_from l 0 v') l refl
        (decode-encode held0 l v' w'' b bytes.1 bytes.0 tt)
      ∙ ap (λ (byte : ℕ). some (byte ∷ l)) (omega (arith, bytes.0, agree.0, agree.1)))
    ∙ ap (λ (byte : ℕ). some (byte ∷ b ∷ l)) (omega (arith, small, agree.0, agree.1))

-- What base32 puts out: every code is that of a letter.
abbrev AreLetters : Text → Type 0
AreLetters t = All (λ c. not (is_separator c) && ltb c 97 ≡ true) t

keep-letters : (t : Text) → AreLetters t → keep (λ c. not (is_separator c)) t ≡ t
unfolding keep
keep-letters [] all = refl
keep-letters (c ∷ t) all = ground (arith, all.0, keep-letters t all.1)

letters-below : (t : Text) → AreLetters t → All (λ c. c < 97) t
letters-below [] all = tt
letters-below (c ∷ t) all = (ground (arith, all.0), letters-below t all.1)

letters-append : (a b : Text) → AreLetters a → AreLetters b → AreLetters (a ++ b)
letters-append [] b ha hb = hb
letters-append (c ∷ a) b ha hb = (ha.0, letters-append a b ha.1 hb)

emit-letters : (rounds bits value : ℕ) → AreLetters (emit rounds bits value).0
unfolding emit
emit-letters zero bits value = tt
emit-letters (suc rounds) bits value = elim (Bool-cases (leb 5 bits)) [
  | inl more ↦ rw more (letter-plain (value / 2 ^ (bits - 5)), emit-letters rounds (bits - 5) value)
  | inr done ↦ rw done tt
]

encode_from-letters : (l : List ℕ) (bits value : ℕ) → AreLetters (encode_from l bits value)
unfolding encode_from
encode_from-letters [] bits value = elim (Bool-cases (ltb 0 bits)) [
  | inl left ↦ rw left (letter-plain (value * 2 ^ (5 - bits)), tt)
  | inr none_left ↦ rw none_left tt
]
encode_from-letters (b ∷ l) bits value =
    letters-append (emit (bits + 8) (bits + 8) (pushed value 8 b)).0 _
      (emit-letters (bits + 8) (bits + 8) (pushed value 8 b))
      (encode_from-letters l _ (pushed value 8 b))

length-encode_from :
    (p : Phase) (l : List ℕ) (v : ℕ)
    → length (encode_from l (held p) v) ≡ (8 * length l + held p + 4) / 5
unfolding encode_from emit held
length-encode_from held0 [] v = refl
length-encode_from held0 (b ∷ l) v = omega (arith, length-encode_from held3 l (pushed v 8 b))
length-encode_from held1 [] v = refl
length-encode_from held1 (b ∷ l) v = omega (arith, length-encode_from held4 l (pushed v 8 b))
length-encode_from held2 [] v = refl
length-encode_from held2 (b ∷ l) v = omega (arith, length-encode_from held0 l (pushed v 8 b))
length-encode_from held3 [] v = refl
length-encode_from held3 (b ∷ l) v = omega (arith, length-encode_from held1 l (pushed v 8 b))
length-encode_from held4 [] v = refl
length-encode_from held4 (b ∷ l) v = omega (arith, length-encode_from held2 l (pushed v 8 b))

-- `toBase32` writes a letter for every five bits of its input, the last ones filled up.
pub length-to_base32 : (l : List ℕ) → length (to_base32 l) ≡ (8 * length l + 4) / 5
unfolding to_base32 held
length-to_base32 l = length-encode_from held0 l 0 ∙ ap (λ n. n / 5) (omega arith)

-- Where toUpperCase leaves texts of codes below those of the small letters as they are,
-- fromBase32 reads the bytes back that toBase32 wrote, in arithmetic of 32 bits.
pub from_base32-to_base32 :
    (to_upper_case : Text → Text)
    → ((t : Text) → All (λ c. c < 97) t → to_upper_case t ≡ t)
    → (l : List ℕ) → AreBytes l
    → from_base32 to_upper_case (to_base32 l) ≡ some l
unfolding from_base32 to_base32 held behind Agree pending
from_base32-to_base32 to_upper_case upper l bytes =
    let letters = encode_from-letters l 0 0 in
    rw (upper (to_base32 l) (letters-below _ letters), keep-letters (to_base32 l) letters)
      (decode-encode held0 l 0 0 0 bytes (omega arith) tt)
