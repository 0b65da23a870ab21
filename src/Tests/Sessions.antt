-- ===== src/Tests/Sessions.antt =====
-- A user with three sessions, of whom two are allowed.
use nest_auth.Prelude.{ℕ, ◌≡◌, ◌≤◌, refl, Text, codes, length, min, keep, arith, sort_by}
use nest_auth.Prelude.Decimal.{decimal}
use nest_auth.Redis.Memory.{Memory}
use nest_auth.Redis.Namespace.{prefix}
use nest_auth.Json.{num, obj, end, field, member}
use nest_auth.Keys.{dashboard, live, detail, key, session_index_key, user_subject, byte_length}
use nest_auth.AuthRedis.Sweeps.{prune_expired_grace_members}
use nest_auth.SessionService.{hash_of, read_created_at, enforce_session_limit}
use nest_auth.SessionService.Limit.{index_of, sessions_of, enforced, enforce_session_limit-bounded}
use nest_auth.SessionService.Evicted.{enforce_session_limit-oldest}
use nest_auth.Tests.Codec.{sample_parse, sample_stringify}
use nest_auth.Tests.Given.{given, nothing}
open given.redis use {get, smembers, set, sadd}

abbrev created : ℕ → Text
created n = given.stringify (obj (field (codes "createdAt") (num n) end))

abbrev index_here : Text
index_here = index_of given (codes "u") (codes "t")

abbrev three : Memory
three =
    sadd
      (sadd
        (sadd
          (set
            (set (set nothing (key dashboard detail (codes "a")) (created 5) 100)
              (key dashboard detail (codes "b")) (created 3) 100)
            (key dashboard detail (codes "c")) (created 7) 100)
          index_here (key dashboard live (codes "a")))
        index_here (key dashboard live (codes "b")))
      index_here (key dashboard live (codes "c"))

enforce_session_limit-bounded_example :
    length (
      sessions_of given
        (codes "u")
        (codes "t")
        (enforced given (codes "u") (codes "t") (codes "c") 2 three).1)
    ≡ min 2 (length (sessions_of given (codes "u") (codes "t") three))
enforce_session_limit-bounded_example =
    enforce_session_limit-bounded given (codes "u") (codes "t") (codes "c") 2 three (omega arith)

enforce_session_limit-oldest_example :
    read_created_at given (hash_of (key dashboard live (codes "b"))) three
    ≤ read_created_at given (hash_of (key dashboard live (codes "a"))) three
unfolding enforce_session_limit keep prune_expired_grace_members prefix session_index_key key
    user_subject decimal byte_length sort_by read_created_at sample_parse sample_stringify member
enforce_session_limit-oldest_example =
    enforce_session_limit-oldest given (codes "u") (codes "t") (codes "c") 2 three
      (key dashboard live (codes "b")) (key dashboard live (codes "a")) refl refl refl
