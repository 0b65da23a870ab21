-- ===== src/Tests/Passwords.antt =====
-- One-time passwords of a secret of twenty bytes, with a digest of twenty bytes that shows the key.
use nest_auth.Prelude.{
  ℕ, ◌+◌, ◌-◌, ◌*◌, ◌/◌, ◌%◌, ◌≡◌, ◌≤◌, ◌↔◌, refl, Bool, true, some, List, [], ◌∷◌, Text, codes,
  keep, length, arith, zero, suc,
}
use nest_auth.Totp.{pos, to_base32, from_base32, emit, generate_hotp, verify_totp, effective_window}
use nest_auth.Totp.RoundTrip.{from_base32-to_base32, emit-ends}
use nest_auth.Totp.Codes.{verify_totp_iff}

abbrev repeated : ℕ → ℕ → List ℕ
repeated zero byte = []
repeated (suc n) byte = byte ∷ repeated n byte

abbrev secret_bytes : List ℕ
secret_bytes = repeated 20 0xA7

abbrev secret : Text
secret = codes "U6T2PJ5HU6T2PJ5HU6T2PJ5HU6T2PJ5H"

abbrev digest_of : List ℕ → List ℕ → List ℕ
digest_of key message = repeated 20 (length key)

abbrev as_is : Text → Text
as_is t = t

to_base32_test : to_base32 secret_bytes ≡ secret
unfolding to_base32
to_base32_test = refl

from_base32-to_base32_example :
    from_base32 as_is (to_base32 (0xFF ∷ 0 ∷ 0x7E ∷ [])) ≡ some (0xFF ∷ 0 ∷ 0x7E ∷ [])
from_base32-to_base32_example =
    from_base32-to_base32 as_is (λ t h. refl) (0xFF ∷ 0 ∷ 0x7E ∷ [])
      (omega arith, (omega arith, (omega arith, tt)))

verify_totp_iff_example :
    (found : Bool) × (verify_totp as_is digest_of 1700000000000 secret (codes "123456") (pos 1)
      ≡ some found)
    × ((found ≡ true) ↔ (
        (d : ℕ) × (d ≤ 2 * effective_window (pos 1))
        × (generate_hotp as_is digest_of secret
              (pos (1700000000000 / 1000 / 30 + d - effective_window (pos 1)))
            ≡ some (codes "123456"))))
unfolding from_base32 keep effective_window
verify_totp_iff_example =
    verify_totp_iff as_is digest_of secret secret_bytes refl (omega arith) (λ k m. refl)
      1700000000000 (codes "123456") (pos 1) (omega arith) (omega arith)

emit-ends_example : (length (emit 13 13 0x1FFF).0 ≡ 13 / 5) × ((emit 13 13 0x1FFF).1 ≡ 13 % 5)
emit-ends_example = emit-ends 13 13 0x1FFF (omega arith)
