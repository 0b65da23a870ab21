-- ===== src/Otp.antt =====
-- services/otp.service.ts: one-time passwords, stored as a hash of a keyed fingerprint and a count of
-- attempts. HMAC-SHA256 is an argument, and the constant-time comparison is equality. The waiting that
-- levels the response times is left out.
pub mod Attempts
use nest_auth.Prelude.{
  ℕ, suc, Bool, true, false, Option, none, some, [], ◌∷◌, ◌++◌, Text, codes, text_eq, leb,
  if◌then◌else◌, Result, ok, raise, otp_invalid,
}
use nest_auth.Prelude.Decimal.{decimal, number_of}
use nest_auth.Totp.{pad_start}
use nest_auth.Redis.Hashes.{Hashes}

-- MAX_ATTEMPTS
abbrev pub max_attempts : ℕ
max_attempts = 5

-- `generate`, of the number below `10 ** length` that `randomInt` draws
abbrev pub generate : ℕ → ℕ → Text
generate length drawn = pad_start length (decimal drawn)

-- The reply of the script: its tag, and the stored code under `PRESENT`.
pub data Reply : Type 0 where
  expired maxed : Reply
  present : Text → Reply

-- `tonumber(count) or 0`
abbrev pub attempts_of : Option Text → ℕ
attempts_of none = 0
attempts_of (some count) = number_of count

-- `parseOtpVerifyReply` takes an empty code as expired.
unfoldable pub parse_otp_verify_reply : Reply → Reply
parse_otp_verify_reply (present []) = expired
parse_otp_verify_reply (present (c ∷ code)) = present (c ∷ code)
parse_otp_verify_reply reply = reply

unfoldable pub otp_key : Text → Text → Text
otp_key purpose identifier = codes "otp:" ++ purpose ++ b':' ∷ identifier

module _ (redis : Hashes) (hmac : Text → Text → Text) (hmac_key : Text) where
  open redis use {Store, hget, hset, hincr, del, expire}

  unfoldable pub fingerprint : Text → Text → Text
  fingerprint identifier code = hmac (identifier ++ b':' ∷ code) hmac_key

  -- OTP_STORE_LUA
  unfoldable pub otp_store_script : Text → Text → ℕ → Store → Store
  otp_store_script key code ttl s =
      expire (hset (hset s key (codes "code") code) key (codes "attempts") (decimal 0)) key ttl

  -- OTP_VERIFY_LUA
  unfoldable pub otp_verify_script : Text → Text → ℕ → Store → Reply × Store
  otp_verify_script key submitted limit s = elim (hget s key (codes "code")) [
    | none ↦ (expired, s)
    | some code ↦
        if leb limit (attempts_of (hget s key (codes "attempts"))) then (maxed, del s key) else (
          present code,
          if text_eq code submitted then del s key else hincr s key (codes "attempts"),
        )
  ]

  unfoldable pub store : Text → Text → Text → ℕ → Store → Store
  unfolding otp_store_script fingerprint
  store purpose identifier code ttl_seconds s =
      otp_store_script (otp_key purpose identifier) (fingerprint identifier code) ttl_seconds s

  -- what `verify` does with the reply that it has parsed
  unfoldable pub verify_reply : Text → Reply → Result Bool
  verify_reply submitted expired = raise otp_invalid
  verify_reply submitted maxed = raise otp_invalid
  verify_reply submitted (present code) =
      if text_eq submitted code then ok true else raise otp_invalid

  -- `ok true` is the return of `verify`.
  unfoldable pub verify : Text → Text → Text → Store → Result Bool × Store
  unfolding fingerprint verify_reply
  verify purpose identifier code s =
      let (reply, s') =
        otp_verify_script (otp_key purpose identifier) (fingerprint identifier code) max_attempts
          s in
      (verify_reply (fingerprint identifier code) (parse_otp_verify_reply reply), s')
