-- ===== src/Tests/Enrolments.antt =====
-- One account begins a setup, sees it again, and finishes it.
use nest_auth.Prelude.{
  ◌≡◌, refl, ◌∷◌, [], ℕ, true, false, none, some, if◌then◌else◌, Text, codes, ok, keep, text_eq,
  map,
}
use nest_auth.Prelude.Action.{continue}
use nest_auth.Prelude.Decimal.{decimal}
use nest_auth.Json.{find, member, texts_in}
use nest_auth.Redis.Memory.{Memory}
use nest_auth.Redis.Namespace.{prefix}
use nest_auth.Access.Status.{assert_not_blocked}
use nest_auth.AuthRedis.Claims.{set_if_absent}
use nest_auth.BruteForce.{is_locked_out, is_valid_identifier, includes, lockout_key, reset_failures}
use nest_auth.Crypto.AesGcm.{encrypt, decrypt, split}
use nest_auth.Keys.{dashboard, key, user_subject, byte_length}
use nest_auth.Totp.{verify_totp, to_base32, encode_from, emit}
use nest_auth.Totp.Uri.{build_totp_uri}
use nest_auth.Users.{Account, with_mfa}
use nest_auth.Users.Memory.{Directory}
use nest_auth.Mfa.{
  World, Decrypted, assert_plane_tenant, assert_dashboard_tenant, fetch_user_for_context,
  decrypt_with_rotation, is_mfa_flow_locked_out, legacy_counter, scoped_counter,
  reset_mfa_flow_failures,
}
use nest_auth.Mfa.Codes.{scoped_replay_key, legacy_replay_key}
use nest_auth.Mfa.Replay.{unmarked}
use nest_auth.Mfa.Transition.{scoped_lock_key, legacy_lock_key}
use nest_auth.Mfa.Locking.{is_held}
use nest_auth.Mfa.Removal.{cleared_mfa, assert_reauthenticated}
use nest_auth.Mfa.RecoveryCodes.{hex, groups, join, shown_code, hash_recovery_codes}
use nest_auth.Mfa.SetupData.{parse_setup_data, parse_plain_recovery_codes, texts_out, setup_json}
use nest_auth.Mfa.Enabling.{setup_key, verify_and_enable}
use nest_auth.Mfa.Setup.{
  MfaSetupResult, SetupRequest, show_again, show_new, first_setup, setup, key_of,
}
use nest_auth.Mfa.Drawn.{CanEncrypt}
use nest_auth.Mfa.SetupKept.{setup-repeats}
use nest_auth.Mfa.Enrolled.{confirmation, setup-enrols}
use nest_auth.Tests.Codec.{sample_parse, sample_stringify}
use nest_auth.Tests.Given.{nothing}
use nest_auth.Tests.Server.{paired, repeated, totp_secret, plain_env, user, server}
open plain_env.redis use {get}

abbrev newcomer : Account
newcomer = record (with_mfa cleared_mfa user) { password_hash = some (codes "pw") }

abbrev start : World Memory Directory
start = record {
  store = nothing;
  users = record {
    users = λ tenant id. if text_eq id (codes "u") then some newcomer else none;
    admins = λ id. none;
  };
}

-- A request of the account, by what is drawn for its recovery codes.
abbrev request : ℕ → SetupRequest
request n = record {
  user_id = codes "u";
  context = dashboard;
  password = some (codes "pw");
  tenant_id = some (codes "t");
  raw_secret = repeated 20 n;
  secret_iv = repeated 12 1;
  codes_iv = repeated 12 2;
  draws = λ i. repeated 12 n;
}

abbrev one_code : Text
one_code = codes "0000-0000-0000-0000-0000-0000"

abbrev shown : MfaSetupResult
shown = record {
  secret = totp_secret;
  qr_code_uri =
      codes
        "otpauth://totp/Example:u@example.com?secret=AAAAAAAAAAAAAAAAAAAAAAAAAAAAAAAA&issuer=Example&algorithm=SHA1&digits=6&period=30";
  recovery_codes = one_code ∷ (one_code ∷ []);
}

after : World Memory Directory
after = (setup server (request 0) start).1

setup_replies : (setup server (request 0) start).0 ≡ ok shown
unfolding setup continue assert_plane_tenant assert_dashboard_tenant fetch_user_for_context
    assert_not_blocked assert_reauthenticated is_mfa_flow_locked_out is_locked_out
    is_valid_identifier includes lockout_key legacy_counter scoped_counter reset_mfa_flow_failures
    reset_failures first_setup show_again show_new set_if_absent encrypt to_base32 encode_from emit
    build_totp_uri hash_recovery_codes shown_code hex groups join setup_key prefix key keep
    user_subject decimal byte_length
setup_replies = refl

begins : setup server (request 0) start ≡ (ok shown, after)
unfolding after
begins = paired _ (ok shown) setup_replies

again_after : World Memory Directory
again_after = (setup server (request 5) after).1

again_replies : (setup server (request 5) after).0 ≡ ok shown
unfolding setup continue assert_plane_tenant assert_dashboard_tenant fetch_user_for_context
    assert_not_blocked assert_reauthenticated is_mfa_flow_locked_out is_locked_out
    is_valid_identifier includes lockout_key legacy_counter scoped_counter reset_mfa_flow_failures
    reset_failures first_setup show_again show_new set_if_absent encrypt to_base32 encode_from emit
    build_totp_uri hash_recovery_codes shown_code hex groups join setup_key prefix key keep
    user_subject decimal byte_length after decrypt_with_rotation decrypt split parse_setup_data
    parse_plain_recovery_codes texts_out setup_json sample_parse sample_stringify find member
    texts_in
again_replies = refl

repeats : setup server (request 5) after ≡ (ok shown, again_after)
unfolding again_after
repeats = paired _ (ok shown) again_replies

can : CanEncrypt server (request 0)
can = record {
  secret_vector = refl;
  codes_vector = refl;
  long = refl;
  secret_encoded = refl;
  codes_encoded = refl;
}

setup-repeats_example :
    (shown.secret ≡ shown.secret)
    × (shown.recovery_codes ≡ shown.recovery_codes)
    × (get again_after.store (key_of server (request 0))
        ≡ get after.store (key_of server (request 0)))
setup-repeats_example =
    setup-repeats server (request 0) (request 5) start after after again_after shown shown can
      begins repeats refl refl

found_after :
    fetch_user_for_context server dashboard (codes "u") (some (codes "t")) after.users ≡ ok newcomer
unfolding setup continue assert_plane_tenant assert_dashboard_tenant fetch_user_for_context
    assert_not_blocked assert_reauthenticated is_mfa_flow_locked_out is_locked_out
    is_valid_identifier includes lockout_key legacy_counter scoped_counter reset_mfa_flow_failures
    reset_failures first_setup show_again show_new set_if_absent encrypt to_base32 encode_from emit
    build_totp_uri hash_recovery_codes shown_code hex groups join setup_key prefix key keep
    user_subject decimal byte_length after
found_after = refl

code_fits :
    verify_totp server.to_upper_case server.hmac_sha1 server.clock.now totp_secret
      (codes "000000")
      server.totp_window
    ≡ some true
unfolding verify_totp keep decimal
code_fits = refl

code_is_new :
    unmarked plain_env.redis
      (scoped_replay_key server dashboard (codes "u") (some (codes "t")) (codes "000000"))
      (legacy_replay_key server dashboard (codes "u") (codes "000000"))
      after.store
    ≡ true
unfolding scoped_replay_key legacy_replay_key setup continue assert_plane_tenant
    assert_dashboard_tenant fetch_user_for_context assert_not_blocked assert_reauthenticated
    is_mfa_flow_locked_out is_locked_out is_valid_identifier includes lockout_key legacy_counter
    scoped_counter reset_mfa_flow_failures reset_failures first_setup show_again show_new
    set_if_absent encrypt to_base32 encode_from emit build_totp_uri hash_recovery_codes shown_code
    hex groups join setup_key prefix key keep user_subject decimal byte_length after
code_is_new = refl

no_lock : is_held server dashboard (codes "u") (some (codes "t")) after.store ≡ false
unfolding scoped_lock_key legacy_lock_key setup continue assert_plane_tenant assert_dashboard_tenant
    fetch_user_for_context assert_not_blocked assert_reauthenticated is_mfa_flow_locked_out
    is_locked_out is_valid_identifier includes lockout_key legacy_counter scoped_counter
    reset_mfa_flow_failures reset_failures first_setup show_again show_new set_if_absent encrypt
    to_base32 encode_from emit build_totp_uri hash_recovery_codes shown_code hex groups join
    setup_key prefix key keep user_subject decimal byte_length after
no_lock = refl

setup-enrols_example :
    let run =
      verify_and_enable server (confirmation (request 0) (codes "000000") (codes "n")) after in
    (run.0 ≡ ok tt)
    × (user' : Account) × (encrypted : Text) × (d : Decrypted) × (fetch_user_for_context server
          dashboard
          (codes "u")
          (some (codes "t"))
          run.1.users
        ≡ ok user')
    × (user'.safe.mfa_enabled ≡ true)
    × (user'.mfa_secret ≡ some encrypted)
    × (decrypt_with_rotation server encrypted ≡ some d)
    × (d.secret ≡ totp_secret)
    × (user'.mfa_recovery_codes
        ≡ some (map (λ c. plain_env.hmac c plain_env.hmac_key) shown.recovery_codes))
    × (get run.1.store (key_of server (request 0)) ≡ none)
setup-enrols_example =
    setup-enrols server (request 0) start after after shown newcomer (codes "000000") (codes "n")
      can begins refl refl found_after refl code_fits code_is_new no_lock
