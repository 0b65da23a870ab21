-- ===== src/Tests/Challenges.antt =====
-- Challenges of one account, passed and refused, and the removal of its second factor.
use nest_auth.Prelude.{
  ℕ, suc, ◌∷◌, inl, inr, mfa_invalid_code, ◌≡◌, refl, true, false, none, some, List, [], Text,
  codes, length, ok, raise, keep, mfa_temp_token_invalid, account_locked, arith,
}
use nest_auth.Prelude.Decimal.{decimal}
use nest_auth.Redis.Memory.{Memory}
use nest_auth.Redis.Namespace.{prefix}
use nest_auth.Json.{str}
use nest_auth.Keys.{dashboard, byte_length, user_subject}
use nest_auth.TokenManager.MfaTemp.{MfaTempToken, verify_mfa_temp_token}
use nest_auth.TokenManager.Refresh.{Claims}
use nest_auth.Users.{Account}
use nest_auth.Users.Memory.{Directory}
use nest_auth.Mfa.{World, fetch_user_for_context, is_mfa_flow_locked_out}
use nest_auth.Mfa.Codes.{verify_recovery_code, recovery_claim_key}
use nest_auth.Mfa.Challenge.{Attempt, codes_of, digest_at, remove_first, challenge_mfa}
use nest_auth.Mfa.Challenge.SingleUse.{challenge_mfa-once}
use nest_auth.Mfa.Challenge.Recovery.{challenge_mfa-spends_code}
use nest_auth.Mfa.Challenge.Locked.{IsGuess, after_challenges, challenge_mfa-locks}
use nest_auth.Prelude.Action.{continue}
use nest_auth.Access.{verify_with_rotation, read_stamped_epoch}
use nest_auth.Access.Status.{assert_not_blocked}
use nest_auth.AuthRedis.Claims.{setnx, set_if_absent, release_lock}
use nest_auth.AuthRedis.Counters.{get_user_token_epoch}
use nest_auth.BruteForce.{is_locked_out, is_valid_identifier, includes, lockout_key, reset_failures}
use nest_auth.Crypto.AesGcm.{decrypt}
use nest_auth.Keys.{token_epoch_key}
use nest_auth.SessionService.{create_session_detail}
use nest_auth.Totp.{verify_totp}
use nest_auth.TokenManager.Issue.{issue_tokens}
use nest_auth.TokenManager.MfaTemp.{
  temp_token_in, admit_temp_token, fits_plane, issue_mfa_temp_token, mfa_key,
  consume_mfa_temp_token,
}
use nest_auth.Mfa.{
  legacy_counter, scoped_counter, decrypt_with_rotation, Decrypted, assert_dashboard_tenant,
  holds_secret, reset_mfa_flow_failures,
}
use nest_auth.Mfa.Codes.{claim_recovery_code}
use nest_auth.Mfa.Transition.{
  transition_mfa_record, scoped_lock_key, legacy_lock_key, rewrite_account,
}
use nest_auth.Mfa.Challenge.{
  pass_challenge, check_code, settle_code, spend_code, issue_for, track_session,
}
use nest_auth.Tests.Server.{
  paired, plain_env, token, verification, recovery_code, server, begun, user, totp_secret,
}
open plain_env.redis use {get}

abbrev attempt : Text → Attempt
attempt code = record {
  mfa_temp_token = codes "jwt";
  code = code;
  ip = codes "::1";
  user_agent = codes "curl";
  lock_token = codes "n";
  iv = [];
  raw_refresh_token = codes "r";
  family_id = codes "f";
  session_limit = 5;
}

abbrev issued : Claims
issued = record {
  sub = codes "u";
  tenant_id = some (str (codes "t"));
  role = codes "ADMIN";
  status = some (codes "active");
  plane = dashboard;
  mfa_enabled = true;
  mfa_verified = true;
  epoch = 0;
}

passed : World Memory Directory
passed = (challenge_mfa server (attempt recovery_code) begun).1

replies : (challenge_mfa server (attempt recovery_code) begun).0 ≡ ok issued
unfolding challenge_mfa continue pass_challenge verify_mfa_temp_token verify_with_rotation
    temp_token_in admit_temp_token fits_plane issue_mfa_temp_token prefix mfa_key read_stamped_epoch
    get_user_token_epoch token_epoch_key is_mfa_flow_locked_out is_locked_out is_valid_identifier
    includes legacy_counter scoped_counter user_subject byte_length keep lockout_key
    fetch_user_for_context assert_not_blocked decrypt_with_rotation decrypt check_code
    claim_recovery_code recovery_claim_key setnx settle_code reset_mfa_flow_failures reset_failures
    consume_mfa_temp_token verify_recovery_code digest_at transition_mfa_record scoped_lock_key
    legacy_lock_key set_if_absent release_lock rewrite_account spend_code holds_secret issue_for
    track_session issue_tokens create_session_detail decimal
replies = refl

passes : challenge_mfa server (attempt recovery_code) begun ≡ (ok issued, passed)
unfolding passed
passes = paired (challenge_mfa server (attempt recovery_code) begun) (ok issued) replies

challenge_mfa-once_example :
    challenge_mfa server (attempt (codes "000000")) passed ≡ (raise mfa_temp_token_invalid, passed)
challenge_mfa-once_example =
    challenge_mfa-once server 0 refl (attempt recovery_code) (attempt (codes "000000")) begun passed
      issued passes refl

challenge_mfa-spends_code_example :
    (t : MfaTempToken) × (user : Account) × (index : ℕ) × (rest : List Text) × (user' : Account)
    × (verify_mfa_temp_token plain_env verification (codes "jwt") begun.store ≡ ok t)
    × (fetch_user_for_context server t.context t.user_id t.tenant_id begun.users ≡ ok user)
    × (verify_recovery_code server recovery_code (codes_of user.mfa_recovery_codes) ≡ some index)
    × (get begun.store (recovery_claim_key server t.context t.user_id t.tenant_id recovery_code)
        ≡ none)
    × (remove_first
          (digest_at index (codes_of user.mfa_recovery_codes))
          (codes_of user.mfa_recovery_codes)
        ≡ some rest)
    × (length (codes_of user.mfa_recovery_codes) ≡ suc (length rest))
    × (fetch_user_for_context server t.context t.user_id t.tenant_id passed.users ≡ ok user')
    × (user'.mfa_recovery_codes ≡ some rest)
challenge_mfa-spends_code_example =
    challenge_mfa-spends_code server (attempt recovery_code) begun passed issued passes refl

-- Three wrong codes: six digits that do not fit, and a text that is no recovery code.
abbrev guesses : List Attempt
guesses = attempt (codes "111111") ∷ (attempt (codes "222222") ∷ (attempt (codes "guess") ∷ []))

token_stands : verify_mfa_temp_token plain_env verification (codes "jwt") begun.store ≡ ok token
unfolding verify_mfa_temp_token verify_with_rotation temp_token_in admit_temp_token fits_plane
    issue_mfa_temp_token prefix mfa_key read_stamped_epoch get_user_token_epoch token_epoch_key
    user_subject byte_length keep decimal
token_stands = refl

user_found :
    fetch_user_for_context server dashboard (codes "u") (some (codes "t")) begun.users ≡ ok user
unfolding fetch_user_for_context assert_dashboard_tenant assert_not_blocked
user_found = refl

abbrev opened_secret : Decrypted
opened_secret = record { secret = totp_secret; stale = false }

one_wrong : IsGuess server (codes "jwt") user totp_secret (attempt (codes "111111"))
unfolding verify_totp keep decimal
one_wrong = (refl, inl (refl, refl))

two_wrong : IsGuess server (codes "jwt") user totp_secret (attempt (codes "222222"))
unfolding verify_totp keep decimal
two_wrong = (refl, inl (refl, refl))

text_wrong : IsGuess server (codes "jwt") user totp_secret (attempt (codes "guess"))
unfolding verify_recovery_code keep
text_wrong = (refl, inr (refl, refl))

challenge_mfa-locks_example :
    ((challenge_mfa server (attempt (codes "111111")) (
        after_challenges server
          (attempt (codes "222222") ∷ (attempt (codes "guess") ∷ []))
          begun)).0
      ≡ raise mfa_invalid_code)
    × (challenge_mfa server (attempt (codes "000000")) (after_challenges server guesses begun)
        ≡ (raise account_locked, after_challenges server guesses begun))
unfolding verify_mfa_temp_token verify_with_rotation temp_token_in admit_temp_token fits_plane
    issue_mfa_temp_token prefix mfa_key read_stamped_epoch get_user_token_epoch token_epoch_key
    is_valid_identifier includes legacy_counter scoped_counter user_subject byte_length keep
    lockout_key decimal decrypt_with_rotation decrypt
challenge_mfa-locks_example =
    challenge_mfa-locks server token (codes "jwt") _ user opened_secret begun 899 token_stands
      user_found refl refl refl refl refl refl refl (omega arith)
      (attempt (codes "222222") ∷ (attempt (codes "guess") ∷ [])) guesses (attempt (codes "111111"))
      (attempt (codes "000000")) (two_wrong, (text_wrong, tt))
      (one_wrong, (two_wrong, (text_wrong, tt))) one_wrong refl (omega arith) (omega arith)
