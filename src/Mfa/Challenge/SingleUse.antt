-- ===== src/Mfa/Challenge/SingleUse.antt =====
-- services/mfa.service.ts: a temporary token passes one challenge.
use nest_auth.Prelude.{
  ℕ, suc, ◌+◌, ◌*◌, ◌≡◌, refl, ◌∙◌, subst, Bool-cases, Option, none, some, List, Text, text_eq_refl,
  Result, ok, raise, mfa_temp_token_invalid, arith, Option-cases, inl, inr,
}
use nest_auth.Prelude.Action.{continue, through, reply_inv, pure_inv}
use nest_auth.Keys.{Plane, dashboard, platform}
use nest_auth.Access.{verify_with_rotation}
use nest_auth.TokenManager.MfaTemp.{
  MfaTempToken, mfa_key, temp_token_in, admit_temp_token, verify_mfa_temp_token,
}
use nest_auth.TokenManager.MfaTemp.Lifecycle.{admit_temp_token-absent}
use nest_auth.TokenManager.Refresh.{Claims}
use nest_auth.Users.{Account}
use nest_auth.Mfa.{Server, State, Decrypted}
use nest_auth.Mfa.Locking.{transition_mfa_record-exclusive}
use nest_auth.Mfa.Challenge.{
  Attempt, spend, reencrypt_secret, pass_challenge, track_session, issue_for, challenge_mfa,
}
use nest_auth.Mfa.Challenge.Passes.{pass_challenge-Passes}
use nest_auth.Mfa.Challenge.Frame.{
  IsApart, mfa_key-IsApart, get-issue_tokens_apart, get-issue_platform_tokens_apart,
  get-create_session_detail_apart,
}

module _ (server : Server) where
  open server use {env, verification, settings, clock, sessions_enabled}
  open server.env use {redis}
  open server.env.redis use {Store, get}

  get-reencrypt_secret :
      (t : MfaTempToken) (iv : List ℕ) (d : Decrypted) (lock_token : Text) (w : State server)
      (j : Text)
      → get (reencrypt_secret server t iv d lock_token w).1.store j ≡ get w.store j
  unfolding reencrypt_secret
  get-reencrypt_secret t iv d lock_token w j =
      (transition_mfa_record-exclusive server t.context t.user_id t.tenant_id _ lock_token w).0 j

  -- The account is rewritten under locks that are given back.
  pub get-spend :
      (a : Attempt) (t : MfaTempToken) (user : Account) (d : Decrypted) (used : Option ℕ)
      (w w' : State server) (j : Text)
      → spend server a t user d used w ≡ (ok tt, w')
      → get w'.store j ≡ get w.store j
  unfolding reencrypt_secret
  get-spend a t user d (some index) w w' j h = through h λ written v e k.
      let run : (x : Text) → get v.store x ≡ get w.store x =
        subst (λ r. (x : Text) → get r.1.store x ≡ get w.store x) e
          (transition_mfa_record-exclusive server t.context t.user_id t.tenant_id _ a.lock_token
            w).0 in
      rw (pure_inv _ _ k).1 (run j)
  get-spend a t user d none w w' j h = elim (Bool-cases d.stale) [
    | inl stale ↦
        subst (λ r. get r.1.store j ≡ get w.store j) (rw stale at h)
          (get-reencrypt_secret t a.iv d a.lock_token w j)
    | inr current ↦
        let kept : ◌≡◌ {A = Result (Unit {0}) × State server} (ok tt, w) (ok tt, w') =
          rw current at h in
        subst (λ r. get r.1.store j ≡ get w.store j) kept refl
  ]

  admit_inv :
      (stamped : ℕ) (t t' : MfaTempToken) (s : Store)
      → admit_temp_token env stamped t s ≡ ok t'
      → t ≡ t'
  unfolding admit_temp_token
  admit_inv stamped t t' s h = ground arith

  -- A token whose id is gone is refused, whoever presented it before.
  refused_later :
      (token : Text) (t : MfaTempToken) (s s' : Store)
      → verify_mfa_temp_token env verification token s ≡ ok t
      → get s' (mfa_key env t.jti) ≡ none
      → verify_mfa_temp_token env verification token s' ≡ raise mfa_temp_token_invalid
  unfolding verify_mfa_temp_token
  refused_later token t s s' h gone =
      elim (Option-cases (verify_with_rotation verification token)) [
        | inl bad ↦ rw (verify_mfa_temp_token, bad) refl
        | inr (payload, signed) ↦ elim (Option-cases (temp_token_in payload)) [
          | inl bad ↦ rw (verify_mfa_temp_token, signed, bad) refl
          | inr (t', reads) ↦
              let admitted = rw (verify_mfa_temp_token, signed, reads) at h in
              let same = admit_inv _ t' t s admitted in
              rw (verify_mfa_temp_token, signed, reads)
                (admit_temp_token-absent env _ t' s' (rw same gone))
        ]
      ]

  module _ (n : ℕ) (days : settings.refresh_expires_in_days ≡ suc n) where
    lasts : settings.refresh_expires_in_days * 86400 ≡ suc (n * 86400 + 86399)
    lasts = rw days (omega arith)

    get-track_session :
        (a : Attempt) (user : Account) (w w' : State server) (j : Text)
        → IsApart env j
        → track_session server a user w ≡ (ok tt, w')
        → get w'.store j ≡ get w.store j
    unfolding track_session
    get-track_session a user w w' j apart h = elim (Bool-cases sessions_enabled) [
      | inl kept ↦ through (rw kept at h) λ session v e k.
          let run = reply_inv _ _ e in
          rw ((pure_inv _ _ k).1, run.1, lasts)
            (get-create_session_detail_apart env j apart user.safe.id user.safe.tenant_id
              a.raw_refresh_token a.ip a.user_agent clock.now (n * 86400 + 86399) a.session_limit
              w.store)
      | inr untracked ↦
          let kept : ◌≡◌ {A = Result (Unit {0}) × State server} (ok tt, w) (ok tt, w') =
            rw untracked at h in
          subst (λ r. get r.1.store j ≡ get w.store j) kept refl
    ]

    get-issue_for :
        (plane : Plane) (a : Attempt) (user : Account) (w w' : State server) (c : Claims) (j : Text)
        → IsApart env j
        → issue_for server plane a user w ≡ (ok c, w')
        → get w'.store j ≡ get w.store j
    unfolding issue_for
    get-issue_for dashboard a user w w' c j apart h = through h λ claims v e k.
        through k λ done v' e' k'.
          let issued = reply_inv (ok _) _ e in
          rw (pure_inv _ _ k').1 (
            get-track_session a user v v' j apart e'
            ∙ rw issued.1 (get-issue_tokens_apart env j apart settings clock _ w.store n days))
    get-issue_for platform a user w w' c j apart h =
        let issued = reply_inv (ok _) _ h in
        rw issued.1 (get-issue_platform_tokens_apart env j apart settings clock _ w.store n days)

    unverified :
        (b : Attempt) (w : State server)
        → verify_mfa_temp_token env verification b.mfa_temp_token w.store
          ≡ raise mfa_temp_token_invalid
        → challenge_mfa server b w ≡ (raise mfa_temp_token_invalid, w)
    unfolding challenge_mfa pass_challenge continue
    unverified b w refused = rw refused refl

    -- Where refresh sessions last at least a day, after a challenge that has given tokens every
    -- challenge with the same temporary token, whatever its code, is refused with
    -- MFA_TEMP_TOKEN_INVALID and changes neither the store nor the accounts.
    pub challenge_mfa-once :
        (a b : Attempt) (w w' : State server) (c : Claims)
        → challenge_mfa server a w ≡ (ok c, w')
        → b.mfa_temp_token ≡ a.mfa_temp_token
        → challenge_mfa server b w' ≡ (raise mfa_temp_token_invalid, w')
    unfolding challenge_mfa
    challenge_mfa-once a b w w' c h same = through h λ p v e k.
        let steps = pass_challenge-Passes server a w e in
        let key_ = mfa_key env p.token.jti in
        let gone : get v.store key_ ≡ none =
          get-spend a p.token p.user steps.d _ _ v key_ steps.spent
          ∙ redis.get-del steps.cleared.store key_ key_
          ∙ rw (text_eq_refl key_) refl in
        let gone' : get w'.store key_ ≡ none =
          get-issue_for p.token.context a p.user v w' c key_ (mfa_key-IsApart env p.token.jti) k
          ∙ gone in
        unverified b w'
          (rw same (refused_later a.mfa_temp_token p.token w.store w'.store steps.verified gone'))
