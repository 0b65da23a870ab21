-- ===== src/Crypto/AesGcm.antt =====
-- crypto/aes-gcm.ts: the text form of a value that is encrypted with AES-256-GCM. The cipher, base64
-- and UTF-8 are of Node; the initial vector that `randomBytes` draws is an argument.
pub mod RoundTrip
use nest_auth.Prelude.{
  ℕ, ◌≡◌, Bool, true, false, ◌&&◌, Option, none, some, List, [], ◌∷◌, ◌++◌, Text, Free, length,
  ◌==◌, if◌then◌else◌,
}

-- What Node answers: a text of base64 has no colon in it and decodes to what was encoded, the tag has
-- its length, and what was sealed under a key and a vector is opened with them and with its tag.
pub record Node : Type 0 where
  pub from_base64 : Text → List ℕ
  pub to_base64 : List ℕ → Text
  pub from_utf8 : Text → List ℕ
  pub to_utf8 : List ℕ → Text
  pub seal : List ℕ → List ℕ → List ℕ → List ℕ × List ℕ
  pub open_sealed : List ℕ → List ℕ → List ℕ → List ℕ → Option (List ℕ)
  pub from_base64-to_base64 : (bytes : List ℕ) → from_base64 (to_base64 bytes) ≡ bytes
  pub to_base64-Free : (bytes : List ℕ) → Free b':' (to_base64 bytes)
  pub length-tag : (key iv plain : List ℕ) → length (seal key iv plain).1 ≡ 16
  pub open_sealed-seal :
      (key iv plain : List ℕ)
      → open_sealed key iv (seal key iv plain).1 (seal key iv plain).0 ≡ some plain

-- `text.split(c)` for one character
abbrev head_part : ℕ → List Text → List Text
head_part x [] = (x ∷ []) ∷ []
head_part x (part ∷ parts) = (x ∷ part) ∷ parts

unfoldable pub split : ℕ → Text → List Text
split c [] = [] ∷ []
split c (x ∷ t) = let rest = split c t in if x == c then [] ∷ rest else head_part x rest

-- IV_LENGTH and AUTH_TAG_BYTE_LENGTH
abbrev pub iv_length : ℕ
iv_length = 12

abbrev pub auth_tag_byte_length : ℕ
auth_tag_byte_length = 16

module _ (node : Node) where
  open node use {from_base64, to_base64, from_utf8, to_utf8, seal, open_sealed}

  -- `none` is the error of a key that has another length.
  unfoldable pub encrypt : List ℕ → Text → Text → Option Text
  encrypt iv plaintext key_base64 =
      let key = from_base64 key_base64 in
      let (encrypted, auth_tag) = seal key iv (from_utf8 plaintext) in
      if length key == 32
      then some (to_base64 iv ++ b':' ∷ (to_base64 auth_tag ++ b':' ∷ to_base64 encrypted))
      else none

  abbrev pub opened : List ℕ → List ℕ → List ℕ → List ℕ → Option Text
  opened key iv auth_tag encrypted = elim (open_sealed key iv auth_tag encrypted) [
    | none ↦ none
    | some plain ↦ some (to_utf8 plain)
  ]

  abbrev pub decrypt_parts : Text → List Text → Option Text
  decrypt_parts key_base64 (iv_base64 ∷ auth_tag_base64 ∷ encrypted_base64 ∷ []) =
      let key = from_base64 key_base64 in
      let iv = from_base64 iv_base64 in
      let auth_tag = from_base64 auth_tag_base64 in
      if length key == 32 && (length iv == iv_length && length auth_tag == auth_tag_byte_length)
      then opened key iv auth_tag (from_base64 encrypted_base64)
      else none
  decrypt_parts key_base64 _ = none

  -- `none` is an error that it throws, also that of a tag which does not fit.
  unfoldable pub decrypt : Text → Text → Option Text
  unfolding split
  decrypt ciphertext key_base64 = decrypt_parts key_base64 (split b':' ciphertext)
