-- ===== src/Tests/Rotation.antt =====
-- The theorems on sessions at a store with one login.
use nest_auth.Prelude.{
  ◌≡◌, ◌≢◌, ◌⊎◌, refl, true, false, some, none, [], Text, codes, contains, text_eq, text_eq_iff,
  length,
}
use mathlib.Core.Bool.{false≢true}
use nest_auth.Redis.Memory.{Memory}
use nest_auth.Redis.Namespace.{prefix}
use nest_auth.Json.{member, Json, end, field, str, obj}
use nest_auth.Keys.{
  Slot, live, grace, family, index, dashboard, key, session_index_key, user_subject, byte_length,
}
use nest_auth.AuthRedis.Scripts.{create_session}
use nest_auth.AuthRedis.Sessions.{
  RotationParams, NewSession, write_new_session, rotate_refresh_session, rotated, recovered, reused,
  family_of, revoke_family, invalidate_user_sessions,
}
use nest_auth.AuthRedis.Sessions.Rotated.{
  string_after, in_family_after, in_index_after, rotate_refresh_session-live,
}
use nest_auth.AuthRedis.Sessions.Replayed.{retry}
use nest_auth.AuthRedis.Sessions.Reuse.{rotate_refresh_session-thrice}
use nest_auth.AuthRedis.Sessions.Coverage.{IsIndexed}
use nest_auth.AuthRedis.Sessions.Steps.{Reach, here, next, login, digest}
use nest_auth.AuthRedis.Sessions.Everywhere.{
  Reach-IsIndexed, IsIndexed-empty, invalidate_user_sessions-ends,
}
use nest_auth.AuthRedis.Sessions.FamilyRevoked.{revoke_family-ends}
use nest_auth.Tests.Codec.{sample_stringify, sample_parse}
use nest_auth.Tests.Given.{given, nothing}

abbrev record_of : Text → Json
record_of token =
    obj (field (codes "familyId") (str (codes "f")) (field (codes "t") (str token) end))

abbrev stored : Text → Text
stored token = sample_stringify (record_of token)

abbrev first_login : NewSession
first_login = record {
  kind = dashboard;
  tenant_id = some (codes "t");
  token_hash = codes "a1";
  session_json = codes "{1}";
  family_id = codes "f";
  user_id = codes "u";
  refresh_ttl = 100;
}

abbrev logged_in : Memory
logged_in = write_new_session given first_login nothing

abbrev first_rotation : RotationParams
first_rotation = record {
  kind = dashboard;
  tenant_id = some (codes "t");
  old_hash = codes "a1";
  new_hash = codes "b2";
  new_session_json = stored (codes "b2");
  family_id = codes "f";
  user_id = codes "u";
  refresh_ttl = 100;
  grace_ttl = 30;
}

was_live : given.redis.get logged_in (key dashboard live (codes "a1")) ≡ some (codes "{1}")
unfolding write_new_session create_session key session_index_key user_subject byte_length prefix
was_live = refl

family_named : family_of given (stored (codes "b2")) ≡ codes "f"
unfolding family_of sample_parse sample_stringify member
family_named = refl

rotate_refresh_session-live_example :
    ((rotate_refresh_session given first_rotation logged_in).0 ≡ rotated (codes "{1}"))
    × ((a : Slot) (x : Text)
        → given.redis.get
            (rotate_refresh_session given first_rotation logged_in).1
            (key dashboard a x)
          ≡ string_after given first_rotation logged_in a x)
    × ((f m : Text)
        → contains
            (given.redis.smembers
              (rotate_refresh_session given first_rotation logged_in).1
              (key dashboard family f))
            m
          ≡ in_family_after given first_rotation logged_in f m)
    × ((u m : Text)
        → contains
            (given.redis.smembers
              (rotate_refresh_session given first_rotation logged_in).1
              (key dashboard index u))
            m
          ≡ in_index_after given first_rotation logged_in u m)
rotate_refresh_session-live_example =
    rotate_refresh_session-live given first_rotation 99 refl logged_in (codes "1}") was_live

fresh_hash : ◌≢◌ {A = Text} (codes "a1") (codes "b2")
fresh_hash e = false≢true ((text_eq_iff (codes "a1") (codes "b2")).1 e)

no_pointer : given.redis.get logged_in (key dashboard grace (codes "a1")) ≡ none
unfolding write_new_session create_session key session_index_key user_subject byte_length prefix
no_pointer = refl

rotate_refresh_session-thrice_example :
    ((rotate_refresh_session given
        (retry first_rotation (codes "c3") (codes "{}"))
        (rotate_refresh_session given first_rotation logged_in).1).0
      ≡ recovered (stored (codes "b2")))
    × ((rotate_refresh_session given
          (retry first_rotation (codes "d4") (codes "{}"))
          (rotate_refresh_session given
            (retry first_rotation (codes "c3") (codes "{}"))
            (rotate_refresh_session given first_rotation logged_in).1).1).0
        ≡ reused (codes "f"))
rotate_refresh_session-thrice_example =
    rotate_refresh_session-thrice given first_rotation 99 refl logged_in fresh_hash refl
      (refl, (refl, tt)) family_named no_pointer (codes "1}") (codes "c3") (codes "{}") (codes "d4")
      (codes "{}") was_live

abbrev own_of : Text → Text
own_of h = digest given dashboard (λ x. x) (codes "u") (some (codes "t"))

past : Reach given dashboard own_of nothing logged_in
past = next here (login first_login 99 refl refl refl)

Reach-IsIndexed_example : IsIndexed given.redis dashboard own_of logged_in
Reach-IsIndexed_example =
    Reach-IsIndexed given dashboard own_of past
      (IsIndexed-empty given dashboard own_of nothing (λ j. refl) (λ j x. refl))

invalidate_user_sessions-ends_example :
    (own_of (codes "a1") ≡ digest given dashboard own_of (codes "u") (some (codes "t"))
      → given.redis.get
          (invalidate_user_sessions given (codes "u") (some (codes "t")) dashboard logged_in)
          (key dashboard live (codes "a1"))
        ≡ none)
    × (own_of (codes "a1") ≢ digest given dashboard own_of (codes "u") (some (codes "t"))
        → given.redis.get
            (invalidate_user_sessions given (codes "u") (some (codes "t")) dashboard logged_in)
            (key dashboard live (codes "a1"))
          ≡ given.redis.get logged_in (key dashboard live (codes "a1")))
invalidate_user_sessions-ends_example =
    invalidate_user_sessions-ends given dashboard own_of nothing logged_in (λ j. refl) (λ j x. refl)
      past (codes "u") (some (codes "t")) live (codes "a1") refl

revoke_family-ends_example :
    (text_eq (codes "f") [] ≡ false
      → ((h : Text)
          → contains (given.redis.smembers logged_in (key dashboard family (codes "f"))) h ≡ true
          → given.redis.get
              (revoke_family given dashboard (codes "f") logged_in).1
              (key dashboard live h)
            ≡ none)
        × ((j : Text)
            → (given.redis.get (revoke_family given dashboard (codes "f") logged_in).1 j ≡ none)
              ⊎ (given.redis.get (revoke_family given dashboard (codes "f") logged_in).1 j
                  ≡ given.redis.get logged_in j))
        × ((revoke_family given dashboard (codes "f") logged_in).0.0
            ≡ length (given.redis.smembers logged_in (key dashboard family (codes "f")))))
    × (text_eq (codes "f") [] ≡ true
        → revoke_family given dashboard (codes "f") logged_in ≡ ((0, []), logged_in))
revoke_family-ends_example = revoke_family-ends given dashboard (codes "f") logged_in
