-- ===== src/Mfa/Challenge/Wrong.antt =====
-- services/mfa.service.ts: a challenge with a wrong code counts a failure, and does nothing else.
use nest_auth.Prelude.{
  ◌≡◌, refl, true, false, ◌⊎◌, inl, inr, none, some, Text, ok, raise, mfa_invalid_code,
}
use nest_auth.Prelude.Action.{proceed, stop}
use nest_auth.Totp.{is_code, verify_totp}
use nest_auth.TokenManager.MfaTemp.{MfaTempToken, verify_mfa_temp_token}
use nest_auth.Users.{Account}
use nest_auth.Mfa.{
  Server, State, challenge, Decrypted, is_mfa_flow_locked_out, record_mfa_flow_failure,
  fetch_user_for_context, decrypt_with_rotation,
}
use nest_auth.Mfa.Codes.{verify_totp_with_anti_replay, verify_recovery_code}
use nest_auth.Mfa.Challenge.{
  Attempt, codes_of, enabled_secret, used_recovery_index, check_code, settle_code, pass_challenge,
  challenge_mfa,
}

module _ (server : Server) where
  open server use {env, verification, clock, to_upper_case, hmac_sha1, totp_window}

  -- Six digits that do not fit, or a text whose digest is not among those of the account.
  abbrev pub IsWrong : Account → Text → Text → Type 0
  IsWrong user secret code =
      ((is_code code ≡ true)
        × (verify_totp to_upper_case hmac_sha1 clock.now secret code totp_window ≡ some false))
      ⊎ ((is_code code ≡ false)
          × (verify_recovery_code server code (codes_of user.mfa_recovery_codes) ≡ none))

  check_code-IsWrong :
      (t : MfaTempToken) (user : Account) (secret code : Text) (w : State server)
      → IsWrong user secret code
      → check_code server t secret code (used_recovery_index server user code) w ≡ (ok false, w)
  unfolding check_code verify_totp_with_anti_replay
  check_code-IsWrong t user secret code w (inl (digits, misfits)) = rw (digits, misfits) refl
  check_code-IsWrong t user secret code w (inr (other, unknown)) = rw (other, unknown) refl

  settle_code-false :
      (t : MfaTempToken) (w w' : State server)
      → record_mfa_flow_failure server challenge t.context t.user_id t.tenant_id w ≡ (ok tt, w')
      → settle_code server challenge t.context t.user_id t.tenant_id false w
        ≡ (raise mfa_invalid_code, w')
  unfolding settle_code
  settle_code-false t w w' recorded = proceed _ tt w' recorded refl

  pub challenge_mfa-counts :
      (a : Attempt) (t : MfaTempToken) (user : Account) (encrypted : Text) (d : Decrypted)
      (w w' : State server)
      → verify_mfa_temp_token env verification a.mfa_temp_token w.store ≡ ok t
      → is_mfa_flow_locked_out server challenge t.context t.user_id t.tenant_id w.store ≡ ok false
      → fetch_user_for_context server t.context t.user_id t.tenant_id w.users ≡ ok user
      → enabled_secret server user ≡ some encrypted
      → decrypt_with_rotation server encrypted ≡ some d
      → IsWrong user d.secret a.code
      → record_mfa_flow_failure server challenge t.context t.user_id t.tenant_id w ≡ (ok tt, w')
      → challenge_mfa server a w ≡ (raise mfa_invalid_code, w')
  unfolding challenge_mfa pass_challenge
  challenge_mfa-counts a t user encrypted d w w' verified free fetched enabled opened wrong
        recorded =
      stop _ mfa_invalid_code w' (
        proceed _ t w (rw verified refl) (
          proceed _ false w (rw free refl) (
            proceed _ tt w refl (
              proceed _ user w (rw fetched refl) (
                proceed _ encrypted w (rw enabled refl) (
                  proceed _ d w (rw opened refl) (
                    proceed _ false w (check_code-IsWrong t user d.secret a.code w wrong)
                      (stop _ mfa_invalid_code w' (settle_code-false t w w' recorded)))))))))
