-- ===== src/Tests/Factors.antt =====
-- The second factor of one account: its temporary token, its codes, its lock, its removal.
use nest_auth.Prelude.{
  ◌≡◌, refl, true, false, Option, some, Text, codes, text_eq, is_some, ok, raise, Result, keep,
  if◌then◌else◌, mfa_temp_token_invalid, mfa_state_conflict, inl,
}
use nest_auth.Prelude.Decimal.{decimal}
use nest_auth.Redis.Namespace.{prefix}
use nest_auth.Totp.{verify_totp}
use nest_auth.Keys.{dashboard, byte_length, user_subject}
use nest_auth.Access.{verify_with_rotation}
use nest_auth.AuthRedis.Counters.{bump_user_token_epoch, get_user_token_epoch}
use nest_auth.Crypto.AesGcm.{encrypt, decrypt}
use nest_auth.Crypto.AesGcm.RoundTrip.{decrypt-encrypt}
use nest_auth.TokenManager.MfaTemp.{
  issue_mfa_temp_token, consume_mfa_temp_token, verify_mfa_temp_token, fits_plane,
}
use nest_auth.TokenManager.MfaTemp.Lifecycle.{issue_mfa_temp_token-lifecycle}
use nest_auth.Users.{Account, MfaWrite}
use nest_auth.Mfa.Codes.{scoped_replay_key, legacy_replay_key, verify_totp_with_anti_replay}
use nest_auth.Mfa.Replay.{unmarked, verify_totp_with_anti_replay-once}
use nest_auth.Mfa.Removal.{cleared_mfa}
use nest_auth.Mfa.Transition.{rewrite_account, transition_mfa_record}
use nest_auth.Mfa.Locking.{is_held, transition_mfa_record-exclusive}
use nest_auth.Tests.Given.{nothing}
use nest_auth.Tests.Server.{
  plain_env, plain_node, shifted, repeated, token, verification, totp_secret, server, begun,
}
open plain_env.redis use {get}

issue_mfa_temp_token-lifecycle_example :
    let s1 = (issue_mfa_temp_token plain_env token nothing).1 in
    let s2 = (consume_mfa_temp_token plain_env (codes "j") s1).1 in
    (verify_mfa_temp_token plain_env verification (codes "jwt") s1 ≡ ok token)
    × ((consume_mfa_temp_token plain_env (codes "j") s1).0 ≡ true)
    × (verify_mfa_temp_token plain_env verification (codes "jwt") s2 ≡ raise mfa_temp_token_invalid)
    × ((consume_mfa_temp_token plain_env (codes "j") s2).0 ≡ false)
    × (verify_mfa_temp_token plain_env verification
          (codes "jwt")
          (bump_user_token_epoch plain_env (codes "u") (some (codes "t")) dashboard s1).1
        ≡ raise mfa_temp_token_invalid)
unfolding issue_mfa_temp_token verify_with_rotation fits_plane get_user_token_epoch
issue_mfa_temp_token-lifecycle_example =
    issue_mfa_temp_token-lifecycle plain_env verification token nothing (codes "jwt") refl refl
      (inl refl)

decrypt-encrypt_example :
    (ciphertext : Text) × (encrypt plain_node (repeated 12 1) (codes "s") (shifted (repeated 32 7))
      ≡ some ciphertext)
    × (decrypt plain_node ciphertext (shifted (repeated 32 7)) ≡ some (codes "s"))
decrypt-encrypt_example =
    decrypt-encrypt plain_node (repeated 12 1) (codes "s") (shifted (repeated 32 7)) refl refl refl

verify_totp_with_anti_replay-once_example :
    let check =
      verify_totp_with_anti_replay server dashboard
        (codes "u")
        totp_secret
        (codes "000000")
        (some (codes "t")) in
    let scoped =
      scoped_replay_key server dashboard (codes "u") (some (codes "t")) (codes "000000") in
    let legacy = legacy_replay_key server dashboard (codes "u") (codes "000000") in
    ((check nothing).0 ≡ ok (unmarked plain_env.redis scoped legacy nothing))
    × ((j : Text)
        → is_some (get (check nothing).1 j) ≡ (
            if text_eq scoped j
            then true
            else if text_eq legacy j
            then true
            else is_some (get nothing j)))
    × ((check (check nothing).1).0 ≡ ok false)
    × ((check (plain_env.redis.set nothing legacy (codes "1") 90)).0 ≡ ok false)
unfolding verify_totp_with_anti_replay scoped_replay_key legacy_replay_key verify_totp keep decimal
    prefix user_subject byte_length
verify_totp_with_anti_replay-once_example =
    verify_totp_with_anti_replay-once server dashboard (codes "u") totp_secret (codes "000000")
      (some (codes "t")) nothing
      (plain_env.redis.set nothing (legacy_replay_key server dashboard (codes "u") (codes "000000"))
        (codes "1") 90)
      refl refl

transition_mfa_record-exclusive_example :
    let clear : Account → Result (Option MfaWrite) = λ current. ok (some cleared_mfa) in
    let ran =
      transition_mfa_record server dashboard
        (codes "u")
        (some (codes "t"))
        clear
        (codes "n")
        begun in
    let alone = rewrite_account server dashboard (codes "u") (some (codes "t")) clear begun.users in
    let held = is_held server dashboard (codes "u") (some (codes "t")) begun.store in
    ((j : Text) → get ran.1.store j ≡ get begun.store j)
    × (ran.0 ≡ (if held then raise mfa_state_conflict else alone.0))
    × (ran.1.users ≡ (if held then begun.users else alone.1))
transition_mfa_record-exclusive_example =
    transition_mfa_record-exclusive server dashboard (codes "u") (some (codes "t"))
      (λ current. ok (some cleared_mfa)) (codes "n") begun
