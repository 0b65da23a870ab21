-- ===== src/Tests/Codec.antt =====
-- A codec for JSON values, to give the parameters `stringify` and `parse` at a concrete run. It is
-- not the notation of JSON: texts stand behind their lengths, values behind a tag.
use nest_auth.Prelude.{
  ℕ, zero, suc, ◌+◌, ◌≤◌, ◌<◌, ◌≡◌, refl, Bool, true, false, Option, none, some, [], ◌∷◌, ◌++◌,
  Text, arith, length, length-append, ◌==◌, if◌then◌else◌,
}
use nest_auth.Json.{Json, null, bool, num, str, obj, arr, Fields, end, field, Items, nil, item}

abbrev text_out : Text → Text
text_out t = length t ∷ t

abbrev cut : ℕ → Text → Option (Text × Text)
cut zero t = some ([], t)
cut (suc n) [] = none
cut (suc n) (c ∷ t) = elim (cut n t) [ none ↦ none | some (a, b) ↦ some (c ∷ a, b) ]

cut-append : (t rest : Text) → cut (length t) (t ++ rest) ≡ some (t, rest)
cut-append [] rest = refl
cut-append (c ∷ t) rest = rw (cut-append t rest)

abbrev pub bool_out : Bool → ℕ
bool_out true = 1
bool_out false = 0

mutual
  pub encode : Json → Text → Text
  encode null rest = 1 ∷ rest
  encode (bool b) rest = 2 ∷ bool_out b ∷ rest
  encode (num n) rest = 3 ∷ n ∷ rest
  encode (str t) rest = 4 ∷ length t ∷ (t ++ rest)
  encode (obj fs) rest = b'{' ∷ encode_fields fs rest
  encode (arr items) rest = b'[' ∷ encode_items items rest

  pub encode_fields : Fields → Text → Text
  encode_fields end rest = 0 ∷ rest
  encode_fields (field k v fs) rest = 1 ∷ length k ∷ (k ++ encode v (encode_fields fs rest))

  pub encode_items : Items → Text → Text
  encode_items nil rest = 0 ∷ rest
  encode_items (item v items) rest = 1 ∷ encode v (encode_items items rest)

infixl 5 ◌>>=◌
abbrev ◌>>=◌ {ℓ κ} : {A : Type ℓ} {B : Type κ} → Option A → (A → Option B) → Option B
none >>= k = none
some a >>= k = k a

decode_flat : ℕ → Text → Option (Json × Text)
decode_flat tag [] = if tag == 1 then some (null, []) else none
decode_flat tag (n ∷ t) =
    if tag == 1
    then some (null, n ∷ t)
    else if tag == 2
    then some (bool (n == 1), t)
    else if tag == 3
    then some (num n, t)
    else if tag == 4
    then (cut n t >>= λ p. some (str p.0, p.1))
    else none

mutual
  pub decode : ℕ → Text → Option (Json × Text)
  decode zero t = none
  decode (suc f) [] = none
  decode (suc f) (tag ∷ t) =
      let fields = decode_fields f t in
      let items = decode_items f t in
      if tag == b'{'
      then (fields >>= λ p. some (obj p.0, p.1))
      else if tag == b'['
      then (items >>= λ p. some (arr p.0, p.1))
      else decode_flat tag t

  pub decode_items : ℕ → Text → Option (Items × Text)
  decode_items zero t = none
  decode_items (suc f) [] = none
  decode_items (suc f) (more ∷ t) =
      let items = decode f t >>= λ v. decode_items f v.1 >>= λ vs. some (item v.0 vs.0, vs.1) in
      if more == 0 then some (nil, t) else items

  pub decode_fields : ℕ → Text → Option (Fields × Text)
  decode_fields zero t = none
  decode_fields (suc f) [] = none
  decode_fields (suc f) (more ∷ []) = if more == 0 then some (end, []) else none
  decode_fields (suc f) (more ∷ n ∷ t) =
      let fields = cut n t >>= λ k.
      decode f k.1 >>= λ v. decode_fields f v.1 >>= λ fs. some (field k.0 v.0 fs.0, fs.1) in
      if more == 0 then some (end, n ∷ t) else fields

abbrev mutual
  -- The rounds of `decode` that a value takes.
  rounds : Json → ℕ
  rounds null = 1
  rounds (bool b) = 1
  rounds (num n) = 1
  rounds (str t) = 1
  rounds (obj fs) = suc (rounds_fields fs)
  rounds (arr items) = suc (rounds_items items)

  rounds_fields : Fields → ℕ
  rounds_fields end = 1
  rounds_fields (field k v fs) = suc (rounds v + rounds_fields fs)

  rounds_items : Items → ℕ
  rounds_items nil = 1
  rounds_items (item v items) = suc (rounds v + rounds_items items)

mutual
  unfolding encode

  rounds-le : (v : Json) (rest : Text) → rounds v + length rest ≤ length (encode v rest)
  rounds-le null rest = omega arith
  rounds-le (bool b) rest = omega arith
  rounds-le (num n) rest = omega arith
  rounds-le (str t) rest = omega (arith, length-append t rest)
  rounds-le (obj fs) rest = omega (arith, rounds_fields-le fs rest)
  rounds-le (arr items) rest = omega (arith, rounds_items-le items rest)

  rounds_items-le :
      (items : Items) (rest : Text)
      → rounds_items items + length rest ≤ length (encode_items items rest)
  rounds_items-le nil rest = omega arith
  rounds_items-le (item v items) rest =
      omega (arith, rounds_items-le items rest, rounds-le v (encode_items items rest))

  rounds_fields-le :
      (fs : Fields) (rest : Text) → rounds_fields fs + length rest ≤ length (encode_fields fs rest)
  rounds_fields-le end rest = omega arith
  rounds_fields-le (field k v fs) rest = omega (
    arith,
    rounds_fields-le fs rest,
    rounds-le v (encode_fields fs rest),
    length-append k (encode v (encode_fields fs rest)),
  )

rounds-pos : (v : Json) → 0 < rounds v
rounds-pos (obj fs) = omega arith
rounds-pos (arr items) = omega arith
rounds-pos _ = omega arith

rounds_fields-pos : (fs : Fields) → 0 < rounds_fields fs
rounds_fields-pos end = omega arith
rounds_fields-pos (field k v fs) = omega arith

rounds_items-pos : (items : Items) → 0 < rounds_items items
rounds_items-pos nil = omega arith
rounds_items-pos (item v items) = omega arith

decode_flat-null : (rest : Text) → decode_flat 1 rest ≡ some (null, rest)
unfolding decode_flat
decode_flat-null [] = refl
decode_flat-null (c ∷ t) = refl

bool_out_lem : (b : Bool) → bool_out b == 1 ≡ b
bool_out_lem true = refl
bool_out_lem false = refl

mutual
  unfolding encode decode decode_flat

  decode-encode :
      (v : Json) (f : ℕ) (rest : Text) → rounds v ≤ f → decode f (encode v rest) ≡ some (v, rest)
  decode-encode v zero rest h = absurd (omega (arith, rounds-pos v))
  decode-encode null (suc f) rest h = decode_flat-null rest
  decode-encode (bool b) (suc f) rest h = rw (bool_out_lem b)
  decode-encode (num n) (suc f) rest h = refl
  decode-encode (str t) (suc f) rest h = rw (cut-append t rest)
  decode-encode (obj fs) (suc f) rest h = rw (decode_fields-encode fs f rest (omega arith))
  decode-encode (arr items) (suc f) rest h = rw (decode_items-encode items f rest (omega arith))

  decode_items-encode :
      (items : Items) (f : ℕ) (rest : Text)
      → rounds_items items ≤ f
      → decode_items f (encode_items items rest) ≡ some (items, rest)
  decode_items-encode items zero rest h = absurd (omega (arith, rounds_items-pos items))
  decode_items-encode nil (suc f) rest h = refl
  decode_items-encode (item v items) (suc f) rest h = rw (
    decode-encode v f (encode_items items rest) (omega arith),
    decode_items-encode items f rest (omega arith),
  )

  decode_fields-encode :
      (fs : Fields) (f : ℕ) (rest : Text)
      → rounds_fields fs ≤ f
      → decode_fields f (encode_fields fs rest) ≡ some (fs, rest)
  decode_fields-encode fs zero rest h = absurd (omega (arith, rounds_fields-pos fs))
  decode_fields-encode end (suc f) [] h = refl
  decode_fields-encode end (suc f) (c ∷ t) h = refl
  decode_fields-encode (field k v fs) (suc f) rest h = rw (
    cut-append k (encode v (encode_fields fs rest)),
    decode-encode v f (encode_fields fs rest) (omega arith),
    decode_fields-encode fs f rest (omega arith),
  )

unfoldable pub sample_stringify : Json → Text
unfolding encode
sample_stringify v = encode v []

unfoldable pub sample_parse : Text → Option Json
unfolding decode decode_flat
sample_parse t = elim (decode (length t) t) [ none ↦ none | some (v, rest) ↦ some v ]

pub sample_parse-stringify : (v : Json) → sample_parse (sample_stringify v) ≡ some v
unfolding sample_parse sample_stringify
sample_parse-stringify v =
    rw (decode-encode v (length (encode v [])) [] (omega (arith, rounds-le v [])), sample_parse)

pub sample_object_brace : (fs : Fields) → (t : Text) × (sample_stringify (obj fs) ≡ b'{' ∷ t)
unfolding sample_stringify
sample_object_brace fs = (encode_fields fs [], refl)
