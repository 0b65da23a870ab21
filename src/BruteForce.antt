-- ===== src/BruteForce.antt =====
-- services/brute-force.service.ts: the lockout counters of the login routes.
pub mod Lockout
use nest_auth.Prelude.{
  ℕ, ◌≡◌, Bool, true, false, ◌||◌, Option, none, some, [], ◌∷◌, ◌++◌, Text, ltb, leb, ◌==◌, codes,
  if◌then◌else◌, Result, ok, raise, forbidden,
}
use nest_auth.Prelude.Decimal.{parse_int}
use nest_auth.Redis.{Redis}
use nest_auth.Keys.{byte_length}
use nest_auth.AuthRedis.Counters.{incr_with_fixed_ttl}

-- LOCKOUT_PREFIX with the identifier after it
unfoldable pub lockout_key : Text → Text
lockout_key identifier = codes "lf:" ++ identifier

abbrev pub max_identifier_length : ℕ
max_identifier_length = 512

-- `identifier.includes(c)` for one character
unfoldable pub includes : ℕ → Text → Bool
includes c [] = false
includes c (d ∷ t) = c == d || includes c t

-- `validateIdentifier` throws where this is false.
unfoldable pub is_valid_identifier : Text → Bool
is_valid_identifier identifier =
    if includes b':' identifier || includes 10 identifier || includes 13 identifier
    then false
    else leb (byte_length identifier) max_identifier_length

abbrev pub count_reaches : ℕ → Option ℕ → Bool
count_reaches max_attempts none = false
count_reaches max_attempts (some count) = leb max_attempts count

abbrev pub raw_reaches : ℕ → Option Text → Bool
raw_reaches max_attempts none = false
raw_reaches max_attempts (some raw) = count_reaches max_attempts (parse_int raw)

-- A key without expiry and a missing key answer a negative number, which reads as 0.
abbrev pub seconds_left : Option ℕ → ℕ
seconds_left none = 0
seconds_left (some n) = n

module _ (redis : Redis) (max_attempts window_seconds : ℕ) where
  open redis use {Store, get, ttl, del}

  unfoldable pub is_locked_out : Text → Store → Result Bool
  is_locked_out identifier s =
      if is_valid_identifier identifier
      then ok (raw_reaches max_attempts (get s (lockout_key identifier)))
      else raise forbidden

  unfoldable pub record_failure : Text → Store → Result Store
  record_failure identifier s =
      if is_valid_identifier identifier
      then ok (incr_with_fixed_ttl redis (lockout_key identifier) window_seconds s).1
      else raise forbidden

  unfoldable pub reset_failures : Text → Store → Result Store
  reset_failures identifier s =
      if is_valid_identifier identifier
      then ok (del s (lockout_key identifier))
      else raise forbidden

  unfoldable pub get_remaining_lockout_seconds : Text → Store → Result ℕ
  get_remaining_lockout_seconds identifier s =
      if is_valid_identifier identifier
      then ok (seconds_left (ttl s (lockout_key identifier)))
      else raise forbidden
