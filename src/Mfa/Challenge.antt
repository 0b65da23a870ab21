-- ===== src/Mfa/Challenge.antt =====
-- services/mfa.service.ts: `challenge`, the second step of a login, and `challengePlatformOnly`.
pub mod Passes
pub mod Frame
pub mod SingleUse
pub mod Recovery
pub mod Wrong
pub mod Locked
use nest_auth.Prelude.{
  ℕ, zero, suc, ◌*◌, ◌&&◌, Bool, true, false, not, Option, none, some, List, [], ◌∷◌, Text, codes,
  text_eq, is_some, if◌then◌else◌, Result, ok, raise, internal, account_locked, mfa_not_enabled,
  mfa_invalid_code, mfa_temp_token_invalid, platform_auth_required, token_invalid,
}
use nest_auth.Prelude.Action.{
  Action, pure, throw, or_throw, from_result, reads, throw_if, ◌>>=◌, ◌>>◌,
}
use nest_auth.Json.{Platform}
use nest_auth.Keys.{Plane, dashboard, platform}
use nest_auth.SessionService.{create_session_detail}
use nest_auth.TokenManager.Refresh.{Claims}
use nest_auth.TokenManager.Issue.{Login, issue_tokens, issue_platform_tokens}
use nest_auth.TokenManager.MfaTemp.{MfaTempToken, verify_mfa_temp_token, consume_mfa_temp_token}
use nest_auth.Totp.{is_code}
use nest_auth.Users.{Account, MfaWrite}
use nest_auth.Mfa.{
  Server, World, State, on_store, from_store, Flow, challenge, Decrypted, is_mfa_flow_locked_out,
  record_mfa_flow_failure, reset_mfa_flow_failures, fetch_user_for_context, encrypt_secret,
  decrypt_with_rotation, stored_secret, holds_secret,
}
use nest_auth.Mfa.Codes.{verify_totp_with_anti_replay, verify_recovery_code, claim_recovery_code}
use nest_auth.Mfa.Transition.{transition_mfa_record}

-- What the client presents, and what is drawn for it; the session limit of the user is resolved
-- before.
pub record Attempt : Type 0 where
  pub mfa_temp_token : Text
  pub code : Text
  pub ip : Text
  pub user_agent : Text
  pub lock_token : Text
  pub iv : List ℕ
  pub raw_refresh_token : Text
  pub family_id : Text
  pub session_limit : ℕ

abbrev pub codes_of : Option (List Text) → List Text
codes_of none = []
codes_of (some l) = l

-- `existingCodes[index] ?? ''`
unfoldable pub digest_at : ℕ → List Text → Text
digest_at index [] = []
digest_at zero (digest ∷ rest) = digest
digest_at (suc index) (digest ∷ rest) = digest_at index rest

-- `indexOf` and `splice` of one element; `none` where it is not there
unfoldable pub remove_first : Text → List Text → Option (List Text)
remove_first spent [] = none
remove_first spent (digest ∷ rest) =
    if text_eq digest spent
    then some rest
    else elim (remove_first spent rest) [ none ↦ none | some left ↦ some (digest ∷ left) ]

-- What the steps before the tokens have found out.
pub record Passed : Type 0 where
  pub token : MfaTempToken
  pub user : Account

abbrev is_platform : Plane → Bool
is_platform dashboard = false
is_platform platform = true

module _ (server : Server) where
  open server use {env, verification, settings, clock, sessions_enabled}
  open server.env.redis use {Store}
  open server.repositories use {Users}

  abbrev pub on_result_store : {A : Type 0} → (Store → Result A × Store) → Action (State server) A
  on_result_store f w = let (reply, s) = f w.store in (reply, record w { store = s })

  abbrev pub enabled_secret : Account → Option Text
  enabled_secret user = if user.safe.mfa_enabled then stored_secret user.mfa_secret else none

  -- the index of the recovery code that is presented, where a code is not of six digits
  abbrev pub used_recovery_index : Account → Text → Option ℕ
  used_recovery_index user code =
      if is_code code
      then none
      else verify_recovery_code server code (codes_of user.mfa_recovery_codes)

  abbrev pub claimed : MfaTempToken → Text → Option ℕ → Action (State server) Bool
  claimed token code none = pure false
  claimed token code (some index) =
      on_store server (claim_recovery_code server token.context token.user_id token.tenant_id code)

  -- `codeValid`
  unfoldable pub check_code : MfaTempToken → Text → Text → Option ℕ → Action (State server) Bool
  check_code token secret code used =
      if is_code code
      then on_result_store (
          verify_totp_with_anti_replay server token.context token.user_id secret code
            token.tenant_id)
      else claimed token code used

  -- a code that is not valid is counted, one that is valid clears the count
  unfoldable pub settle_code :
      Flow → Plane → Text → Option Text → Bool → Action (State server) (Unit {0})
  settle_code flow context user_id tenant_id true =
      reset_mfa_flow_failures server flow context user_id tenant_id
  settle_code flow context user_id tenant_id false = do
    record_mfa_flow_failure server flow context user_id tenant_id
    throw mfa_invalid_code

  -- the secret that is written: encrypted anew where its key was retired
  abbrev pub kept_secret : List ℕ → Decrypted → Option Text → Result (Option Text)
  kept_secret iv d current =
      if d.stale
      then elim (encrypt_secret server iv d.secret) [
        | none ↦ raise internal
        | some encrypted ↦ ok (some encrypted)
      ]
      else ok current

  abbrev pub with_codes : List Text → Result (Option Text) → Result (Option MfaWrite)
  with_codes updated (raise code) = raise code
  with_codes updated (ok secret) =
      ok (
        some
          (record { mfa_enabled = true; mfa_secret = secret; mfa_recovery_codes = some updated }))

  -- the account without the digest that is spent; `none` leaves it alone
  unfoldable pub spend_code : List ℕ → Decrypted → Text → Account → Result (Option MfaWrite)
  unfolding remove_first
  spend_code iv d spent current =
      if current.safe.mfa_enabled && holds_secret server current.mfa_secret d.secret
      then elim (remove_first spent (codes_of current.mfa_recovery_codes)) [
        | none ↦ ok none
        | some updated ↦ with_codes updated (kept_secret iv d current.mfa_secret)
      ]
      else ok none

  -- `reencryptSecret`, which swallows what it catches
  unfoldable pub reencrypt_secret :
      MfaTempToken → List ℕ → Decrypted → Text → Action (State server) (Unit {0})
  reencrypt_secret token iv d lock_token w =
      let (reply, w') =
        transition_mfa_record server token.context token.user_id token.tenant_id
          (λ current.
            if current.safe.mfa_enabled && holds_secret server current.mfa_secret d.secret
            then with_codes (codes_of current.mfa_recovery_codes)
                (kept_secret iv (record d { stale = true }) current.mfa_secret)
            else ok none)
          lock_token w in
      (ok tt, w')

  -- The re-encryption is detached; it stands here where it is started.
  abbrev pub spend :
      Attempt → MfaTempToken → Account → Decrypted → Option ℕ → Action (State server) (Unit {0})
  spend a token user d (some index) = do
    written ←
        transition_mfa_record server token.context token.user_id token.tenant_id
          (spend_code a.iv d (digest_at index (codes_of user.mfa_recovery_codes))) a.lock_token
    pure tt
  spend a token user d none =
      if d.stale then reencrypt_secret token a.iv d a.lock_token else pure tt

  -- `challenge` up to the tokens
  unfoldable pub pass_challenge : Attempt → Action (State server) Passed
  pass_challenge a = do
    token ← from_store server (verify_mfa_temp_token env verification a.mfa_temp_token)
    locked ←
        from_store server
          (is_mfa_flow_locked_out server challenge token.context token.user_id token.tenant_id)
    throw_if locked account_locked
    user ← (λ w.
        (fetch_user_for_context server token.context token.user_id token.tenant_id w.users, w))
    encrypted ← or_throw mfa_not_enabled (enabled_secret user)
    d ← or_throw token_invalid (decrypt_with_rotation server encrypted)
    valid ← check_code token d.secret a.code (used_recovery_index user a.code)
    settle_code challenge token.context token.user_id token.tenant_id valid
    consumed ← on_store server (consume_mfa_temp_token env token.jti)
    throw_if (not consumed) mfa_temp_token_invalid
    spend a token user d (used_recovery_index user a.code)
    pure (record { token = token; user = user })

  abbrev login_of : Attempt → Account → Login
  login_of a user = record {
    user = user.safe;
    ip = a.ip;
    user_agent = a.user_agent;
    mfa_verified = true;
    raw_refresh_token = a.raw_refresh_token;
    family_id = a.family_id;
  }

  -- `createSession`, where sessions are kept
  unfoldable pub track_session : Attempt → Account → Action (State server) (Unit {0})
  track_session a user =
      if sessions_enabled
      then (do
        session ← on_result_store (
            create_session_detail env user.safe.id user.safe.tenant_id a.raw_refresh_token a.ip
              a.user_agent clock.now (settings.refresh_expires_in_days * 86400) a.session_limit)
        pure tt)
      else pure tt

  -- the tokens of the plane
  unfoldable pub issue_for : Plane → Attempt → Account → Action (State server) Claims
  issue_for dashboard a user = do
    claims ← on_store server (issue_tokens env settings clock (login_of a user))
    track_session a user
    pure claims
  issue_for platform a user =
      on_store server (issue_platform_tokens env settings clock (login_of a user))

  unfoldable pub challenge_mfa : Attempt → Action (State server) Claims
  challenge_mfa a = do p ← pass_challenge a; issue_for p.token.context a p.user

  unfoldable pub challenge_platform_only : Attempt → Action (State server) Claims
  unfolding challenge_mfa
  challenge_platform_only a = do
    token ← from_store server (verify_mfa_temp_token env verification a.mfa_temp_token)
    throw_if (not (is_platform token.context)) platform_auth_required
    claims ← challenge_mfa a
    throw_if (not (is_platform claims.plane)) platform_auth_required
    pure claims
