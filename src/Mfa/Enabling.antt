-- ===== src/Mfa/Enabling.antt =====
-- services/mfa.service.ts: `verifyAndEnable`, which turns a pending setup into a second factor.
use nest_auth.Prelude.{
  true, not, Option, none, some, Text, codes, ◌++◌, is_some, Result, ok, raise, mfa_already_enabled,
  mfa_invalid_code, mfa_not_enabled, mfa_setup_required, token_invalid,
}
use nest_auth.Prelude.Action.{Action, or_throw, from_result, throw_if, ◌>>=◌, ◌>>◌}
use nest_auth.Keys.{Plane, user_subject}
use nest_auth.AuthRedis.Tickets.{getdel}
use nest_auth.Users.{MfaWrite}
use nest_auth.Mfa.{Server, State, on_store, from_store, assert_plane_tenant, decrypt_with_rotation}
use nest_auth.Mfa.Codes.{verify_totp_with_anti_replay}
use nest_auth.Mfa.Transition.{transition_mfa_record}
use nest_auth.Mfa.Challenge.{on_result_store}
use nest_auth.Mfa.Removal.{fetch, revoked}
use nest_auth.Mfa.RecoveryCodes.{lacks_repository}
use nest_auth.Mfa.SetupData.{MfaSetupData, parse_setup_data}

-- the request, with the token that is drawn for the lock
pub record Enablement : Type 0 where
  pub user_id : Text
  pub code : Text
  pub context : Plane
  pub tenant_id : Option Text
  pub lock_token : Text

abbrev pub enabling_write : MfaSetupData → MfaWrite
enabling_write setup = record {
  mfa_enabled = true;
  mfa_secret = some setup.encrypted_secret;
  mfa_recovery_codes = some setup.hashed_codes;
}

module _ (server : Server) where
  open server use {env}
  open server.env use {redis, hmac, hmac_key}
  open server.env.redis use {Store, get}

  unfoldable pub setup_key : Plane → Text → Option Text → Text
  setup_key context user_id tenant_id =
      codes "mfa_setup:" ++ hmac (user_subject context user_id tenant_id) hmac_key

  abbrev pub pending : Text → Store → Result Text
  pending key s = elim (get s key) [ none ↦ raise mfa_setup_required | some raw ↦ ok raw ]

  -- the account is rewritten under the locks, then every session is ended and the epoch is moved
  unfoldable pub enable_factor : Enablement → MfaSetupData → Action (State server) (Unit {0})
  enable_factor r setup = do
    done ←
        transition_mfa_record server r.context r.user_id r.tenant_id
          (λ current. ok (some (enabling_write setup))) r.lock_token
    on_store server (λ s. (tt, revoked server r.context r.user_id r.tenant_id s))

  unfoldable pub verify_and_enable : Enablement → Action (State server) (Unit {0})
  verify_and_enable r = do
    from_result (assert_plane_tenant server r.context r.tenant_id)
    throw_if (lacks_repository server r.context) mfa_not_enabled
    user ← fetch server r.context r.user_id r.tenant_id
    throw_if user.safe.mfa_enabled mfa_already_enabled
    raw ← from_store server (pending (setup_key r.context r.user_id r.tenant_id))
    setup ← or_throw mfa_setup_required (parse_setup_data env raw)
    d ← or_throw token_invalid (decrypt_with_rotation server setup.encrypted_secret)
    valid ←
        on_result_store server
          (verify_totp_with_anti_replay server r.context r.user_id d.secret r.code r.tenant_id)
    throw_if (not valid) mfa_invalid_code
    consumed ← on_store server (getdel env (setup_key r.context r.user_id r.tenant_id))
    throw_if (not (is_some consumed)) mfa_setup_required
    enable_factor r setup
