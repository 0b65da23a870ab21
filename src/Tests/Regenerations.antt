-- ===== src/Tests/Regenerations.antt =====
-- The recovery codes of one account are replaced.
use nest_auth.Prelude.{
  All, ◌≡◌, refl, true, false, some, List, [], ◌∷◌, map, is_some, length, Text, codes, ok, keep,
}
use nest_auth.Prelude.Action.{continue}
use nest_auth.Prelude.Decimal.{decimal}
use nest_auth.Redis.Memory.{Memory}
use nest_auth.Redis.Namespace.{prefix}
use nest_auth.Access.Status.{assert_not_blocked}
use nest_auth.AuthRedis.Claims.{setnx, set_if_absent, release_lock}
use nest_auth.BruteForce.{is_locked_out, is_valid_identifier, includes, lockout_key, reset_failures}
use nest_auth.Crypto.AesGcm.{decrypt}
use nest_auth.Keys.{dashboard, key, user_subject, byte_length}
use nest_auth.Totp.{verify_totp}
use nest_auth.Users.{Account}
use nest_auth.Users.Memory.{Directory}
use nest_auth.Mfa.{
  World, disable, Decrypted, stored_secret, assert_plane_tenant, assert_dashboard_tenant,
  is_mfa_flow_locked_out, fetch_user_for_context, decrypt_with_rotation, legacy_counter,
  scoped_counter, reset_mfa_flow_failures,
}
use nest_auth.Mfa.Codes.{
  verify_recovery_code, scoped_replay_key, legacy_replay_key, mark_code,
  verify_totp_with_anti_replay,
}
use nest_auth.Mfa.Replay.{unmarked}
use nest_auth.Mfa.Transition.{
  transition_mfa_record, scoped_lock_key, legacy_lock_key, rewrite_account,
}
use nest_auth.Mfa.Challenge.{codes_of, settle_code}
use nest_auth.Mfa.RecoveryCodes.{
  Regeneration, hex, groups, join, shown_code, hash_recovery_codes, write_codes,
  regenerate_recovery_codes,
}
use nest_auth.Mfa.Regenerated.{regenerate_recovery_codes-replaces}
use nest_auth.Tests.Given.{nothing}
use nest_auth.Tests.Server.{paired, repeated, plain_env, people, server}

shown : shown_code server (254 ∷ (220 ∷ (7 ∷ []))) ≡ codes "fedc-07"
unfolding shown_code hex groups join
shown = refl

abbrev request : Regeneration
request = record {
  user_id = codes "u";
  totp_code = codes "000000";
  context = dashboard;
  tenant_id = some (codes "t");
  lock_token = codes "n";
  draws = λ i. repeated 12 i;
}

abbrev before : World Memory Directory
before = record { store = nothing; users = people }

abbrev new_codes : List Text
new_codes = codes "0000-0000-0000-0000-0000-0000" ∷ (codes "0101-0101-0101-0101-0101-0101" ∷ [])

after : World Memory Directory
after = (regenerate_recovery_codes server request before).1

regenerate_replies : (regenerate_recovery_codes server request before).0 ≡ ok new_codes
unfolding regenerate_recovery_codes continue assert_plane_tenant assert_dashboard_tenant
    fetch_user_for_context assert_not_blocked transition_mfa_record scoped_lock_key legacy_lock_key
    set_if_absent release_lock rewrite_account prefix key keep user_subject decimal byte_length
    is_mfa_flow_locked_out is_locked_out is_valid_identifier includes lockout_key legacy_counter
    scoped_counter decrypt_with_rotation decrypt verify_totp_with_anti_replay verify_totp mark_code
    setnx scoped_replay_key legacy_replay_key settle_code reset_mfa_flow_failures reset_failures
    write_codes hash_recovery_codes shown_code hex groups join
regenerate_replies = refl

regenerates : regenerate_recovery_codes server request before ≡ (ok new_codes, after)
unfolding after
regenerates = paired _ (ok new_codes) regenerate_replies

regenerate_recovery_codes-replaces_example :
    (user : Account) × (encrypted : Text) × (d : Decrypted) × (user' : Account)
    × (fetch_user_for_context server dashboard (codes "u") (some (codes "t")) before.users
        ≡ ok user)
    × (user.safe.mfa_enabled ≡ true)
    × (is_mfa_flow_locked_out server disable dashboard (codes "u") (some (codes "t")) before.store
        ≡ ok false)
    × (stored_secret user.mfa_secret ≡ some encrypted)
    × (decrypt_with_rotation server encrypted ≡ some d)
    × (verify_totp server.to_upper_case server.hmac_sha1 server.clock.now d.secret
          (codes "000000")
          server.totp_window
        ≡ some true)
    × (unmarked plain_env.redis
          (scoped_replay_key server dashboard (codes "u") (some (codes "t")) (codes "000000"))
          (legacy_replay_key server dashboard (codes "u") (codes "000000"))
          before.store
        ≡ true)
    × (length new_codes ≡ 2)
    × (fetch_user_for_context server dashboard (codes "u") (some (codes "t")) after.users
        ≡ ok user')
    × (user'.safe.mfa_enabled ≡ true)
    × (user'.mfa_secret ≡ user.mfa_secret)
    × (user'.mfa_recovery_codes ≡ some (map (λ c. plain_env.hmac c plain_env.hmac_key) new_codes))
    × All
        (λ code.
          is_some (verify_recovery_code server code (codes_of user'.mfa_recovery_codes)) ≡ true)
        new_codes
regenerate_recovery_codes-replaces_example =
    regenerate_recovery_codes-replaces server request before after new_codes regenerates
