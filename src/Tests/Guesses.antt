-- ===== src/Tests/Guesses.antt =====
-- The bound on the guesses of a one-time password at two wrong guesses.
use nest_auth.Prelude.{◌≡◌, refl, none, ok, true, [], ◌∷◌, ◌++◌, Text, codes}
use nest_auth.Redis.HashMemory.{HashMemory, hash_memory}
use nest_auth.Otp.{otp_key, store, verify, fingerprint}
use nest_auth.Otp.Attempts.{verify_all, verify-limits}

abbrev joined : Text → Text → Text
joined text digest_key = text ++ digest_key

abbrev no_hashes : HashMemory
no_hashes = λ k f. none

abbrev after_two : HashMemory
after_two =
    verify_all hash_memory joined (codes "k") (codes "reset") (codes "id")
      (codes "111" ∷ codes "222" ∷ [])
      (store hash_memory joined (codes "k") (codes "reset") (codes "id") (codes "123") 600
        no_hashes)

verify-limits_example :
    ((verify hash_memory joined (codes "k") (codes "reset") (codes "id") (codes "123") after_two).0
      ≡ ok true)
    × ((verify hash_memory joined
            (codes "k")
            (codes "reset")
            (codes "id")
            (codes "123")
            after_two).1
          (otp_key (codes "reset") (codes "id"))
          (codes "code")
        ≡ none)
unfolding fingerprint
verify-limits_example =
    verify-limits hash_memory joined (codes "k") (codes "reset") (codes "id") (codes "123")
      (codes "111" ∷ codes "222" ∷ []) 599 no_hashes refl (refl, (refl, tt))
