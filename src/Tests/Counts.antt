-- ===== src/Tests/Counts.antt =====
-- The theorems on counters at the empty store and at a counter that stands there.
use nest_auth.Prelude.{◌≡◌, refl, true, some, codes, Text, text_eq, ok, if◌then◌else◌, arith}
use nest_auth.Redis.Memory.{Memory}
use nest_auth.Keys.{dashboard, token_epoch_key}
use nest_auth.AuthRedis.Counters.{bump_user_token_epoch}
use nest_auth.Keys.{byte_length}
use nest_auth.BruteForce.{
  lockout_key, record_failure, is_valid_identifier, includes, is_locked_out,
  get_remaining_lockout_seconds,
}
use nest_auth.BruteForce.Lockout.{record_failures, record_failures-locks}
use nest_auth.Prelude.Decimal.{decimal}
use nest_auth.Tests.Given.{given, nothing}
open given.redis use {get, ttl}

abbrev epoch_of_u : Text
epoch_of_u = token_epoch_key given.hmac dashboard (codes "u") given.hmac_key (some (codes "t"))

abbrev bumped : Memory
bumped = (bump_user_token_epoch given (codes "u") (some (codes "t")) dashboard nothing).1

record_failures-locks_example :
    (s' : Memory) × (record_failures given.redis 3 59 4 (codes "abc") nothing ≡ ok s')
    × ((other : Text)
        → is_locked_out given.redis 3 60 other s' ≡ (
            if text_eq (codes "abc") other
            then ok true
            else is_locked_out given.redis 3 60 other nothing))
    × (get_remaining_lockout_seconds given.redis 3 60 (codes "abc") s' ≡ ok 60)
    × ((later : Memory)
        → given.redis.get later (lockout_key (codes "abc"))
          ≡ given.redis.get s' (lockout_key (codes "abc"))
        → (s'' : Memory) × (record_failure given.redis 3 60 (codes "abc") later ≡ ok s'')
          × (given.redis.get s'' (lockout_key (codes "abc")) ≡ some (decimal 5))
          × (get_remaining_lockout_seconds given.redis 3 60 (codes "abc") s''
              ≡ get_remaining_lockout_seconds given.redis 3 60 (codes "abc") later))
unfolding is_valid_identifier includes byte_length get_remaining_lockout_seconds
record_failures-locks_example =
    record_failures-locks given.redis 3 59 4 (codes "abc") nothing (omega arith) refl refl
