-- ===== src/Otp/Attempts.antt =====
-- services/otp.service.ts: a one-time password under wrong guesses.
use nest_auth.Prelude.{
  ℕ, suc, ◌+◌, ◌≡◌, refl, ◌∙◌, ap, sym, subst, Bool, true, false, Option, none, some, List, [], ◌∷◌,
  Text, codes, text_eq, text_eq_refl, leb, ltb, if◌then◌else◌, ok, raise, otp_invalid, length, All,
  arith, Bool-cases, inl, inr,
}
use nest_auth.Prelude.Decimal.{decimal, number_of-decimal}
use nest_auth.Redis.Hashes.{Hashes}
use nest_auth.Otp.{
  max_attempts, parse_otp_verify_reply, otp_key, fingerprint, otp_verify_script, store,
  verify_reply, verify, Reply, expired, maxed, present, otp_store_script,
}

when_true :
    {b : Bool} {o : Option Text} (x : Text)
    → b ≡ true
    → o ≡ (if b then some x else none)
    → o ≡ some x
when_true x h e = e ∙ ap (λ b. if b then some x else none) h

when_false :
    {b : Bool} {o : Option Text} (x : Text)
    → b ≡ false
    → o ≡ (if b then some x else none)
    → o ≡ none
when_false x h e = e ∙ ap (λ b. if b then some x else none) h

module _ (redis : Hashes) (hmac : Text → Text → Text) (hmac_key : Text)
    (purpose identifier : Text) where
  open redis use {Store, hget, hset, hincr, del, expire}

  -- One verification after the other, in their order.
  unfoldable pub verify_all : List Text → Store → Store
  verify_all [] s = s
  verify_all (guess ∷ later) s =
      verify_all later (verify redis hmac hmac_key purpose identifier guess s).1

  -- The record of a code after `n` wrong attempts; the attempt beyond the limit deletes it.
  IsAt : Text → ℕ → Store → Type 0
  IsAt code n s =
      (hget s (otp_key purpose identifier) (codes "code") ≡ (
        if leb n max_attempts
        then some (fingerprint redis hmac hmac_key identifier code)
        else none))
      × (hget s (otp_key purpose identifier) (codes "attempts")
          ≡ (if leb n max_attempts then some (decimal n) else none))

  abbrev record_key : Text
  record_key = otp_key purpose identifier

  abbrev mark : Text → Text
  mark code = fingerprint redis hmac hmac_key identifier code

  abbrev after : Text → Store → Store
  after guess s = (verify redis hmac hmac_key purpose identifier guess s).1

  IsAt-store :
      (code : Text) (t : ℕ) (s : Store)
      → IsAt code 0 (store redis hmac hmac_key purpose identifier code (suc t) s)
  unfolding IsAt store otp_store_script
  IsAt-store code t s = (
    rw (redis.hget-expire, redis.hget-hset)
        (rw (text_eq_refl, redis.hget-hset) (rw text_eq_refl refl)),
    rw (redis.hget-expire, redis.hget-hset) (rw text_eq_refl refl),
  )

  script : Text → Store → Reply × Store
  script guess s = otp_verify_script redis hmac hmac_key record_key (mark guess) max_attempts s

  script_missing :
      (guess : Text) (s : Store)
      → hget s record_key (codes "code") ≡ none
      → script guess s ≡ (expired, s)
  unfolding script otp_verify_script
  script_missing guess s gone = rw (gone, otp_verify_script) refl

  script_limit :
      (code guess : Text) (n : ℕ) (s : Store)
      → hget s record_key (codes "code") ≡ some (mark code)
      → hget s record_key (codes "attempts") ≡ some (decimal n)
      → leb max_attempts n ≡ true
      → script guess s ≡ (maxed, del s record_key)
  unfolding script otp_verify_script
  script_limit code guess n s there count reached =
      rw (there, otp_verify_script, count, number_of-decimal n, reached) refl

  script_below :
      (code guess : Text) (n : ℕ) (s : Store)
      → hget s record_key (codes "code") ≡ some (mark code)
      → hget s record_key (codes "attempts") ≡ some (decimal n)
      → leb max_attempts n ≡ false
      → script guess s ≡ (
        present (mark code),
        if text_eq (mark code) (mark guess)
            then del s record_key
            else hincr s record_key (codes "attempts"),
      )
  unfolding script otp_verify_script
  script_below code guess n s there count below =
      rw (there, otp_verify_script, count, number_of-decimal n, below) refl

  verify-script :
      (guess : Text) (s : Store)
      → verify redis hmac hmac_key purpose identifier guess s ≡ (
        verify_reply redis hmac hmac_key (mark guess) (parse_otp_verify_reply (script guess s).0),
        (script guess s).1,
      )
  unfolding verify script
  verify-script guess s = refl

  IsAt-script :
      (code guess : Text) (m : ℕ) (s s' : Store) (reply : Reply)
      → script guess s ≡ (reply, s')
      → IsAt code m s'
      → IsAt code m (after guess s)
  unfolding verify script
  IsAt-script code guess m s s' reply e h = subst (λ v. IsAt code m v.1) (sym e) h

  IsAt-gone :
      (code : Text) (m : ℕ) (s : Store)
      → leb m max_attempts ≡ false
      → hget s record_key (codes "code") ≡ none
      → hget s record_key (codes "attempts") ≡ none
      → IsAt code m s
  unfolding IsAt
  IsAt-gone code m s over a b = rw (over, a, b) (refl, refl)

  IsAt-hincr :
      (code : Text) (n : ℕ) (s : Store)
      → leb (suc n) max_attempts ≡ true
      → hget s record_key (codes "code") ≡ some (mark code)
      → hget s record_key (codes "attempts") ≡ some (decimal n)
      → IsAt code (suc n) (hincr s record_key (codes "attempts"))
  unfolding IsAt
  IsAt-hincr code n s below there count = (
    redis.hget-hincr s record_key (codes "attempts") n record_key (codes "code") count
        ∙ rw (text_eq_refl, below) there,
    redis.hget-hincr s record_key (codes "attempts") n record_key (codes "attempts") count
        ∙ rw (text_eq_refl, below) (ap (λ m. some (decimal m)) (omega arith)),
  )

  IsAt-verify :
      (code guess : Text) (n : ℕ) (s : Store)
      → text_eq (mark code) (mark guess) ≡ false
      → IsAt code n s
      → IsAt code (suc n) (after guess s)
  unfolding IsAt
  IsAt-verify code guess n s wrong at = elim (Bool-cases (leb n max_attempts)) [
    | inl stands ↦
        let there = when_true (mark code) stands at.0 in
        let count = when_true (decimal n) stands at.1 in
        elim (Bool-cases (leb max_attempts n)) [
          | inl reached ↦
              IsAt-script code guess (suc n) s (del s record_key) maxed
                (script_limit code guess n s there count reached)
                (IsAt-gone code (suc n) (del s record_key) (ground arith)
                  (redis.hget-del s record_key record_key (codes "code") ∙ rw text_eq_refl refl)
                  (redis.hget-del s record_key record_key (codes "attempts")
                    ∙ rw text_eq_refl refl))
          | inr below ↦
              IsAt-script code guess (suc n) s (hincr s record_key (codes "attempts"))
                (present (mark code))
                (script_below code guess n s there count below ∙ rw wrong refl)
                (IsAt-hincr code n s (ground arith) there count)
        ]
    | inr over ↦
        IsAt-script code guess (suc n) s s expired
          (script_missing guess s (when_false (mark code) over at.0))
          (IsAt-gone code (suc n) s (ground arith) (when_false (mark code) over at.0)
            (when_false (decimal n) over at.1))
  ]

  IsAt-verify_all :
      (code : Text) (guesses : List Text) (n : ℕ) (s : Store)
      → All (λ guess. text_eq (mark code) (mark guess) ≡ false) guesses
      → IsAt code n s
      → IsAt code (n + length guesses) (verify_all guesses s)
  unfolding verify_all
  IsAt-verify_all code [] n s wrong at = subst (λ m. IsAt code m s) (omega arith) at
  IsAt-verify_all code (guess ∷ later) n s wrong at =
      subst (λ m. IsAt code m (verify_all later (after guess s))) (omega arith)
        (IsAt-verify_all code later (suc n) (after guess s) wrong.1
          (IsAt-verify code guess n s wrong.0 at))

  -- What the presentation of the code itself replies, and whether it consumes the record.
  IsVerified : Text → ℕ → Store → Type 0
  IsVerified code n s =
      ((verify redis hmac hmac_key purpose identifier code s).0
        ≡ (if ltb n max_attempts then ok true else raise otp_invalid))
      × (hget (after code s) record_key (codes "code") ≡ none)

  IsVerified-script :
      (code : Text) (n : ℕ) (s s' : Store) (reply : Reply)
      → script code s ≡ (reply, s')
      → verify_reply redis hmac hmac_key (mark code) (parse_otp_verify_reply reply)
        ≡ (if ltb n max_attempts then ok true else raise otp_invalid)
      → hget s' record_key (codes "code") ≡ none
      → IsVerified code n s
  unfolding IsVerified verify script
  IsVerified-script code n s s' reply e h g = (
    ap (λ v. verify_reply redis hmac hmac_key (mark code) (parse_otp_verify_reply v.0)) e ∙ h,
    ap (λ v. hget v.1 record_key (codes "code")) e ∙ g,
  )

  accepted :
      (stored : Text)
      → text_eq stored [] ≡ false
      → verify_reply redis hmac hmac_key stored (parse_otp_verify_reply (present stored)) ≡ ok true
  unfolding parse_otp_verify_reply verify_reply
  accepted [] written = cc
  accepted (c ∷ stored) written = rw (text_eq_refl (c ∷ stored)) refl

  IsAt-IsVerified :
      (code : Text) (n : ℕ) (s : Store)
      → text_eq (mark code) [] ≡ false
      → IsAt code n s
      → IsVerified code n s
  unfolding IsAt verify_reply parse_otp_verify_reply
  IsAt-IsVerified code n s written at = elim (Bool-cases (leb n max_attempts)) [
    | inl stands ↦
        let there = when_true (mark code) stands at.0 in
        let count = when_true (decimal n) stands at.1 in
        elim (Bool-cases (leb max_attempts n)) [
          | inl reached ↦
              IsVerified-script code n s (del s record_key) maxed
                (script_limit code code n s there count reached) (ground arith)
                (redis.hget-del s record_key record_key (codes "code") ∙ rw text_eq_refl refl)
          | inr below ↦
              IsVerified-script code n s (del s record_key) (present (mark code))
                (script_below code code n s there count below ∙ rw text_eq_refl refl)
                (accepted (mark code) written ∙ (ground arith))
                (redis.hget-del s record_key record_key (codes "code") ∙ rw text_eq_refl refl)
        ]
    | inr over ↦
        let gone = when_false (mark code) over at.0 in
        IsVerified-script code n s s expired (script_missing code s gone) (ground arith) gone
  ]

  -- A stored code is accepted after fewer wrong guesses than the limit, and is refused like a wrong one
  -- after as many or more; either way its presentation leaves no record. (The fingerprint of the code is
  -- not the empty text, and a guess is wrong if its fingerprint is another.)
  pub verify-limits :
      (code : Text) (guesses : List Text) (t : ℕ) (s : Store)
      → text_eq (mark code) [] ≡ false
      → All (λ guess. text_eq (mark code) (mark guess) ≡ false) guesses
      → let guessed =
          verify_all guesses (store redis hmac hmac_key purpose identifier code (suc t) s) in
        ((verify redis hmac hmac_key purpose identifier code guessed).0
          ≡ (if ltb (length guesses) max_attempts then ok true else raise otp_invalid))
        × (hget
              (verify redis hmac hmac_key purpose identifier code guessed).1
              (otp_key purpose identifier)
              (codes "code")
            ≡ none)
  unfolding IsVerified
  verify-limits code guesses t s written wrong =
      let stored = store redis hmac hmac_key purpose identifier code (suc t) s in
      let at = IsAt-verify_all code guesses 0 stored wrong (IsAt-store code t s) in
      IsAt-IsVerified code (length guesses) (verify_all guesses stored) written
        (subst (λ m. IsAt code m (verify_all guesses stored)) (omega arith) at)
