-- ===== src/Tests/Enablements.antt =====
-- A pending setup of one account is turned into a second factor.
use nest_auth.Prelude.{
  ◌≡◌, refl, ◌++◌, ◌∷◌, true, false, none, some, if◌then◌else◌, Text, codes, ok, keep, text_eq,
}
use nest_auth.Prelude.Action.{continue}
use nest_auth.Prelude.Decimal.{decimal}
use nest_auth.Json.{Json, str, obj, arr, field, end, item, nil, find, member, texts_in}
use nest_auth.Redis.Memory.{Memory}
use nest_auth.Redis.Namespace.{prefix}
use nest_auth.Access.Status.{assert_not_blocked}
use nest_auth.AuthRedis.Claims.{setnx, set_if_absent, release_lock}
use nest_auth.AuthRedis.Tickets.{getdel}
use nest_auth.Crypto.AesGcm.{decrypt}
use nest_auth.Keys.{dashboard, key, user_subject, byte_length}
use nest_auth.Totp.{verify_totp}
use nest_auth.Users.{Account, with_mfa}
use nest_auth.Users.Memory.{Directory}
use nest_auth.Mfa.{
  World, Decrypted, assert_plane_tenant, assert_dashboard_tenant, fetch_user_for_context,
  decrypt_with_rotation,
}
use nest_auth.Mfa.Codes.{
  scoped_replay_key, legacy_replay_key, mark_code, verify_totp_with_anti_replay,
}
use nest_auth.Mfa.Replay.{unmarked}
use nest_auth.Mfa.Transition.{
  transition_mfa_record, scoped_lock_key, legacy_lock_key, rewrite_account,
}
use nest_auth.Mfa.Removal.{cleared_mfa}
use nest_auth.Mfa.SetupData.{MfaSetupData, parse_setup_data}
use nest_auth.Mfa.Enabling.{Enablement, enabling_write, setup_key, enable_factor, verify_and_enable}
use nest_auth.Mfa.Enabled.{verify_and_enable-requires}
use nest_auth.Tests.Codec.{sample_parse, sample_stringify}
use nest_auth.Tests.Given.{nothing}
use nest_auth.Tests.Server.{paired, repeated, shifted, totp_secret, plain_env, user, server}
open plain_env.redis use {get, set}

abbrev sealed_secret : Text
sealed_secret =
    shifted (repeated 12 1) ++ b':' ∷ (shifted (repeated 16 0) ++ b':' ∷ shifted totp_secret)

abbrev pending_setup : Json
pending_setup = obj (
    field (codes "encryptedSecret") (str sealed_secret) (
      field (codes "hashedCodes") (arr (item (str (codes "digest")) nil))
        (field (codes "encryptedPlainCodes") (str (codes "sealed")) end)))

abbrev setup_here : Text
setup_here = setup_key server dashboard (codes "u") (some (codes "t"))

abbrev begun : World Memory Directory
begun = record {
  store = set nothing setup_here (plain_env.stringify pending_setup) 600;
  users = record {
    users = λ tenant id. if text_eq id (codes "u") then some (with_mfa cleared_mfa user) else none;
    admins = λ id. none;
  };
}

abbrev request : Enablement
request = record {
  user_id = codes "u";
  code = codes "000000";
  context = dashboard;
  tenant_id = some (codes "t");
  lock_token = codes "n";
}

after : World Memory Directory
after = (verify_and_enable server request begun).1

enable_replies : (verify_and_enable server request begun).0 ≡ ok tt
unfolding verify_and_enable continue assert_plane_tenant assert_dashboard_tenant
    fetch_user_for_context assert_not_blocked transition_mfa_record scoped_lock_key legacy_lock_key
    set_if_absent release_lock rewrite_account prefix key keep user_subject decimal byte_length
    decrypt_with_rotation decrypt verify_totp_with_anti_replay verify_totp mark_code setnx
    scoped_replay_key legacy_replay_key enable_factor getdel setup_key parse_setup_data sample_parse
    sample_stringify find member texts_in
enable_replies = refl

enables : verify_and_enable server request begun ≡ (ok tt, after)
unfolding after
enables = paired _ (ok tt) enable_replies

verify_and_enable-requires_example :
    (user : Account) × (raw : Text) × (setup : MfaSetupData) × (d : Decrypted)
    × (assert_plane_tenant server dashboard (some (codes "t")) ≡ ok tt)
    × (fetch_user_for_context server dashboard (codes "u") (some (codes "t")) begun.users ≡ ok user)
    × (user.safe.mfa_enabled ≡ false)
    × (get begun.store (setup_key server dashboard (codes "u") (some (codes "t"))) ≡ some raw)
    × (parse_setup_data plain_env raw ≡ some setup)
    × (decrypt_with_rotation server setup.encrypted_secret ≡ some d)
    × (verify_totp server.to_upper_case server.hmac_sha1 server.clock.now d.secret
          (codes "000000")
          server.totp_window
        ≡ some true)
    × (unmarked plain_env.redis
          (scoped_replay_key server dashboard (codes "u") (some (codes "t")) (codes "000000"))
          (legacy_replay_key server dashboard (codes "u") (codes "000000"))
          begun.store
        ≡ true)
    × (fetch_user_for_context server dashboard (codes "u") (some (codes "t")) after.users
        ≡ ok (with_mfa (enabling_write setup) user))
    × (get after.store (setup_key server dashboard (codes "u") (some (codes "t"))) ≡ none)
verify_and_enable-requires_example = verify_and_enable-requires server request begun after enables
