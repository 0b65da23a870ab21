-- ===== src/Crypto/AesGcm/RoundTrip.antt =====
-- crypto/aes-gcm.ts: what is encrypted is decrypted.
use nest_auth.Prelude.{ℕ, ◌≡◌, refl, some, List, [], ◌∷◌, ◌++◌, Text, Free, length, arith}
use nest_auth.Crypto.AesGcm.{Node, split, iv_length, encrypt, opened, decrypt_parts, decrypt}

split-Free : (c : ℕ) (a : Text) → Free c a → split c a ≡ a ∷ []
unfolding split
split-Free c [] h = refl
split-Free c (x ∷ a) h = rw (h.0, split-Free c a h.1) refl

split-append : (c : ℕ) (a b : Text) → Free c a → split c (a ++ c ∷ b) ≡ a ∷ split c b
unfolding split
split-append c [] b h = ground arith
split-append c (x ∷ a) b h = rw (h.0, split-append c a b h.1) refl

module _ (node : Node) where
  open node use {from_base64, to_base64, from_utf8, to_utf8, seal}

  opened-sealed :
      (key iv : List ℕ) (plaintext : Text)
      → to_utf8 (from_utf8 plaintext) ≡ plaintext
      → let sealed = seal key iv (from_utf8 plaintext) in
        opened node key iv sealed.1 sealed.0 ≡ some plaintext
  opened-sealed key iv plaintext encoded =
      rw (opened, node.open_sealed-seal key iv (from_utf8 plaintext), encoded) refl

  decrypt_parts-sealed :
      (iv : List ℕ) (plaintext key : Text)
      → length iv ≡ iv_length
      → length (from_base64 key) ≡ 32
      → to_utf8 (from_utf8 plaintext) ≡ plaintext
      → let sealed = seal (from_base64 key) iv (from_utf8 plaintext) in
        decrypt_parts node key (to_base64 iv ∷ to_base64 sealed.1 ∷ to_base64 sealed.0 ∷ [])
        ≡ some plaintext
  decrypt_parts-sealed iv plaintext key vector long encoded =
      let bytes = from_utf8 plaintext in
      let sealed = seal (from_base64 key) iv bytes in
      rw
        (
          node.from_base64-to_base64 iv,
          node.from_base64-to_base64 sealed.1,
          node.from_base64-to_base64 sealed.0,
          vector,
          long,
          node.length-tag (from_base64 key) iv bytes,
        )
        (opened-sealed (from_base64 key) iv plaintext encoded)

  -- With a vector of 12 bytes and a key that decodes to 32 bytes, encrypt does not throw, and
  -- decrypt with the same key gives the plaintext back, where the plaintext is a text that UTF-8
  -- encodes.
  pub decrypt-encrypt :
      (iv : List ℕ) (plaintext key : Text)
      → length iv ≡ iv_length
      → length (from_base64 key) ≡ 32
      → to_utf8 (from_utf8 plaintext) ≡ plaintext
      → (ciphertext : Text) × (encrypt node iv plaintext key ≡ some ciphertext)
        × (decrypt node ciphertext key ≡ some plaintext)
  unfolding encrypt decrypt
  decrypt-encrypt iv plaintext key vector long encoded =
      let sealed = seal (from_base64 key) iv (from_utf8 plaintext) in
      (
        to_base64 iv ++ b':' ∷ (to_base64 sealed.1 ++ b':' ∷ to_base64 sealed.0),
        rw long refl,
        rw
            (
              split-append b':' (to_base64 iv) (to_base64 sealed.1 ++ b':' ∷ to_base64 sealed.0)
                  (node.to_base64-Free iv),
              split-append b':' (to_base64 sealed.1) (to_base64 sealed.0)
                  (node.to_base64-Free sealed.1),
              split-Free b':' (to_base64 sealed.0) (node.to_base64-Free sealed.0),
            )
            (decrypt_parts-sealed iv plaintext key vector long encoded),
      )
