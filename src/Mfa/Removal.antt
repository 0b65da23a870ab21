-- ===== src/Mfa/Removal.antt =====
-- services/mfa.service.ts: `disable` and `resetMfa`, which take the second factor away and end what
-- was issued under it, and `assertReauthenticated`.
use nest_auth.Prelude.{
  Bool, true, false, not, Option, none, some, [], Text, is_some, if◌then◌else◌, ok, raise,
  account_locked, mfa_not_enabled, token_invalid, invalid_credentials, reauthentication_required,
}
use nest_auth.Prelude.Action.{Action, pure, throw, or_throw, from_result, throw_if, ◌>>=◌, ◌>>◌}
use nest_auth.Keys.{Plane, recent_auth_key}
use nest_auth.AuthRedis.Counters.{bump_user_token_epoch}
use nest_auth.AuthRedis.Sessions.{invalidate_user_sessions}
use nest_auth.Users.{Account, MfaWrite}
use nest_auth.Mfa.{
  Server, State, on_store, from_store, disable, reauth, stored_secret, is_mfa_flow_locked_out,
  record_mfa_flow_failure, reset_mfa_flow_failures, assert_plane_tenant, fetch_user_for_context,
  decrypt_with_rotation,
}
use nest_auth.Mfa.Codes.{verify_totp_with_anti_replay}
use nest_auth.Mfa.Transition.{transition_mfa_record}
use nest_auth.Mfa.Challenge.{on_result_store, settle_code}

-- the request of `disable`, with the token that is drawn for the lock
pub record Removal : Type 0 where
  pub user_id : Text
  pub code : Text
  pub context : Plane
  pub tenant_id : Option Text
  pub lock_token : Text

-- the account without a second factor
abbrev pub cleared_mfa : MfaWrite
cleared_mfa = record { mfa_enabled = false; mfa_secret = none; mfa_recovery_codes = none }

module _ (server : Server) where
  open server use {env}
  open server.env use {redis, hmac, hmac_key}
  open server.env.redis use {Store, get}

  abbrev pub fetch : Plane → Text → Option Text → Action (State server) Account
  fetch context user_id tenant_id w =
      (fetch_user_for_context server context user_id tenant_id w.users, w)

  abbrev pub revoked : Plane → Text → Option Text → Store → Store
  revoked context user_id tenant_id s =
      (bump_user_token_epoch env user_id tenant_id context
        (invalidate_user_sessions env user_id tenant_id context s)).1

  -- the record is cleared, then every session is ended and the epoch is moved
  unfoldable pub remove_factor :
      Plane → Text → Option Text → Text → Action (State server) (Unit {0})
  remove_factor context user_id tenant_id lock_token = do
    done ←
        transition_mfa_record server context user_id tenant_id (λ current. ok (some cleared_mfa))
          lock_token
    on_store server (λ s. (tt, revoked context user_id tenant_id s))

  unfoldable pub disable_mfa : Removal → Action (State server) (Unit {0})
  disable_mfa r = do
    from_result (assert_plane_tenant server r.context r.tenant_id)
    user ← fetch r.context r.user_id r.tenant_id
    throw_if (not user.safe.mfa_enabled) mfa_not_enabled
    locked ←
        from_store server (is_mfa_flow_locked_out server disable r.context r.user_id r.tenant_id)
    throw_if locked account_locked
    encrypted ← or_throw token_invalid (stored_secret user.mfa_secret)
    d ← or_throw token_invalid (decrypt_with_rotation server encrypted)
    valid ←
        on_result_store server
          (verify_totp_with_anti_replay server r.context r.user_id d.secret r.code r.tenant_id)
    settle_code server disable r.context r.user_id r.tenant_id valid
    remove_factor r.context r.user_id r.tenant_id r.lock_token

  -- Nothing is removed where nothing is there.
  unfoldable pub reset_mfa : Plane → Text → Option Text → Text → Action (State server) (Unit {0})
  unfolding remove_factor
  reset_mfa context user_id tenant_id lock_token = do
    from_result (assert_plane_tenant server context tenant_id)
    user ← fetch context user_id tenant_id
    let removal : Action (State server) (Unit {0}) =
        if user.safe.mfa_enabled
        then remove_factor context user_id tenant_id lock_token
        else pure tt
    removal

  abbrev pub password_or_empty : Option Text → Text
  password_or_empty none = []
  password_or_empty (some password) = password

  abbrev pub matched : Plane → Text → Option Text → Bool → Action (State server) (Unit {0})
  matched context user_id tenant_id true =
      reset_mfa_flow_failures server reauth context user_id tenant_id
  matched context user_id tenant_id false = do
    record_mfa_flow_failure server reauth context user_id tenant_id
    throw invalid_credentials

  abbrev pub by_password : Plane → Text → Option Text → Bool → Action (State server) (Unit {0})
  by_password context user_id tenant_id matches = do
    locked ← from_store server (is_mfa_flow_locked_out server reauth context user_id tenant_id)
    throw_if locked account_locked
    matched context user_id tenant_id matches

  -- `passwordService.compare` is an argument.
  unfoldable pub assert_reauthenticated :
      (Text → Text → Bool)
      → Plane
      → Text
      → Option Text
      → Option Text
      → Option Text
      → Action (State server) (Unit {0})
  assert_reauthenticated compare context user_id none password tenant_id w = (
    (if is_some (get w.store (recent_auth_key hmac context user_id hmac_key tenant_id))
        then ok tt
        else raise reauthentication_required),
    w,
  )
  assert_reauthenticated compare context user_id (some password_hash) password tenant_id w =
      by_password context user_id tenant_id (compare (password_or_empty password) password_hash) w
