-- ===== src/Tests/Removals.antt =====
-- The removal of the second factor of one account, by itself and by its administrator.
use nest_auth.Prelude.{
  ◌+◌, ◌≡◌, refl, true, false, none, some, Text, codes, ok, keep, inl, contains, if◌then◌else◌,
}
use nest_auth.Redis.Memory.{Memory}
use nest_auth.Redis.Namespace.{prefix}
use nest_auth.Keys.{dashboard, live, grace, key, session_index_key}
use nest_auth.Totp.{verify_totp}
use nest_auth.AuthRedis.Counters.{get_user_token_epoch}
use nest_auth.Users.{Account, with_mfa}
use nest_auth.Users.Memory.{Directory}
use nest_auth.Mfa.{
  World, disable, Decrypted, stored_secret, assert_plane_tenant, is_mfa_flow_locked_out,
  fetch_user_for_context, decrypt_with_rotation,
}
use nest_auth.Mfa.Codes.{scoped_replay_key, legacy_replay_key}
use nest_auth.Mfa.Replay.{unmarked}
use nest_auth.Mfa.Removal.{Removal, cleared_mfa, remove_factor, reset_mfa, disable_mfa}
use nest_auth.Mfa.Removed.{reset_mfa-ends}
use nest_auth.Mfa.Disabled.{disable_mfa-requires}
use nest_auth.Prelude.Decimal.{decimal}
use nest_auth.Prelude.Action.{continue}
use nest_auth.Access.Status.{assert_not_blocked}
use nest_auth.AuthRedis.Claims.{setnx, set_if_absent, release_lock}
use nest_auth.BruteForce.{is_locked_out, is_valid_identifier, includes, lockout_key, reset_failures}
use nest_auth.Crypto.AesGcm.{decrypt}
use nest_auth.Keys.{token_epoch_key, user_subject, byte_length}
use nest_auth.Mfa.{legacy_counter, scoped_counter, reset_mfa_flow_failures, assert_dashboard_tenant}
use nest_auth.Mfa.Codes.{mark_code, verify_totp_with_anti_replay}
use nest_auth.Mfa.Transition.{
  transition_mfa_record, scoped_lock_key, legacy_lock_key, rewrite_account,
}
use nest_auth.Mfa.Challenge.{settle_code}
use nest_auth.Tests.Given.{nothing}
use nest_auth.Tests.Server.{paired, plain_env, user, people, server}
open plain_env.redis use {get, set, sadd, smembers}

abbrev index_here : Text
index_here = session_index_key plain_env.hmac dashboard (codes "u") (codes "k") (some (codes "t"))

abbrev signed_in : World Memory Directory
signed_in = record {
  store =
      sadd (set nothing (key dashboard live (codes "h")) (codes "{}") 60) index_here
        (key dashboard live (codes "h"));
  users = people;
}

reset_world : World Memory Directory
reset_world = (reset_mfa server dashboard (codes "u") (some (codes "t")) (codes "n") signed_in).1

reset_replies :
    (reset_mfa server dashboard (codes "u") (some (codes "t")) (codes "n") signed_in).0 ≡ ok tt
unfolding reset_mfa continue remove_factor assert_plane_tenant assert_dashboard_tenant
    fetch_user_for_context assert_not_blocked transition_mfa_record scoped_lock_key legacy_lock_key
    set_if_absent release_lock rewrite_account prefix key keep user_subject decimal byte_length
reset_replies = refl

resets :
    reset_mfa server dashboard (codes "u") (some (codes "t")) (codes "n") signed_in
    ≡ (ok tt, reset_world)
unfolding reset_world
resets = paired _ (ok tt) reset_replies

reset_mfa-ends_example :
    (fetch_user_for_context server dashboard (codes "u") (some (codes "t")) reset_world.users
      ≡ ok (with_mfa cleared_mfa user))
    × (get_user_token_epoch plain_env (codes "u") (some (codes "t")) dashboard reset_world.store
        ≡ get_user_token_epoch plain_env (codes "u") (some (codes "t")) dashboard signed_in.store
          + 1)
    × ((x : Text)
        → (get reset_world.store (key dashboard live x) ≡ (
            if contains (smembers signed_in.store index_here) (key dashboard live x)
            then none
            else get signed_in.store (key dashboard live x)))
          × (get reset_world.store (key dashboard grace x) ≡ (
              if contains (smembers signed_in.store index_here) (key dashboard grace x)
              then none
              else get signed_in.store (key dashboard grace x))))
unfolding session_index_key fetch_user_for_context assert_not_blocked prefix key token_epoch_key
    keep user_subject decimal byte_length
reset_mfa-ends_example =
    reset_mfa-ends server dashboard (codes "u") (some (codes "t")) (codes "n") signed_in reset_world
      user resets refl refl (inl refl)

abbrev removal : Removal
removal = record {
  user_id = codes "u";
  code = codes "000000";
  context = dashboard;
  tenant_id = some (codes "t");
  lock_token = codes "n";
}

disabled_world : World Memory Directory
disabled_world = (disable_mfa server removal signed_in).1

disable_replies : (disable_mfa server removal signed_in).0 ≡ ok tt
unfolding disable_mfa continue remove_factor assert_plane_tenant assert_dashboard_tenant
    fetch_user_for_context assert_not_blocked transition_mfa_record scoped_lock_key legacy_lock_key
    set_if_absent release_lock rewrite_account prefix key keep user_subject decimal byte_length
    is_mfa_flow_locked_out is_locked_out is_valid_identifier includes lockout_key legacy_counter
    scoped_counter decrypt_with_rotation decrypt verify_totp_with_anti_replay verify_totp mark_code
    setnx scoped_replay_key legacy_replay_key settle_code reset_mfa_flow_failures reset_failures
disable_replies = refl

disables : disable_mfa server removal signed_in ≡ (ok tt, disabled_world)
unfolding disabled_world
disables = paired _ (ok tt) disable_replies

disable_mfa-requires_example :
    (user : Account) × (encrypted : Text) × (d : Decrypted) × (assert_plane_tenant server dashboard
        (some (codes "t"))
      ≡ ok tt)
    × (fetch_user_for_context server dashboard (codes "u") (some (codes "t")) signed_in.users
        ≡ ok user)
    × (user.safe.mfa_enabled ≡ true)
    × (is_mfa_flow_locked_out server disable dashboard
          (codes "u")
          (some (codes "t"))
          signed_in.store
        ≡ ok false)
    × (stored_secret user.mfa_secret ≡ some encrypted)
    × (decrypt_with_rotation server encrypted ≡ some d)
    × (verify_totp server.to_upper_case server.hmac_sha1 server.clock.now d.secret
          (codes "000000")
          server.totp_window
        ≡ some true)
    × (unmarked plain_env.redis
          (scoped_replay_key server dashboard (codes "u") (some (codes "t")) (codes "000000"))
          (legacy_replay_key server dashboard (codes "u") (codes "000000"))
          signed_in.store
        ≡ true)
    × (fetch_user_for_context server dashboard (codes "u") (some (codes "t")) disabled_world.users
        ≡ ok (with_mfa cleared_mfa user))
disable_mfa-requires_example = disable_mfa-requires server removal signed_in disabled_world disables
