-- ===== src/Mfa/Transition.antt =====
-- services/mfa.service.ts: `transitionMfaRecord`, the one place that rewrites the second factor of an
-- account, under a lock per account.
use nest_auth.Prelude.{
  ℕ, Bool, true, false, Option, none, some, [], ◌∷◌, ◌++◌, Text, codes, text_eq, if◌then◌else◌,
  Result, ok, raise, mfa_state_conflict,
}
use nest_auth.Prelude.Action.{Action}
use nest_auth.Keys.{Plane, dashboard, platform, user_subject}
use nest_auth.AuthRedis.Claims.{set_if_absent, release_lock}
use nest_auth.TokenManager.MfaTemp.{plane_text}
use nest_auth.Users.{Account, MfaWrite, Repositories}
use nest_auth.Mfa.{Server, State, assert_dashboard_tenant, fetch_user_for_context}

-- MFA_TRANSITION_LOCK_TTL_SECONDS
abbrev pub mfa_transition_lock_ttl_seconds : ℕ
mfa_transition_lock_ttl_seconds = 10

-- `updateMfa` of the repository of the plane
abbrev pub update_mfa : (r : Repositories) → Plane → Text → Text → MfaWrite → r.Users → r.Users
update_mfa r dashboard user_id tenant write u = r.update_user_mfa u tenant user_id write
update_mfa r platform user_id tenant write u = r.update_admin_mfa u user_id write

module _ (server : Server) where
  open server use {env, repositories}
  open server.env use {redis, hmac, hmac_key}
  open server.env.redis use {Store}
  open server.repositories use {Users}

  unfoldable pub scoped_lock_key : Plane → Text → Option Text → Text
  scoped_lock_key context user_id tenant_id =
      codes "mfalock:" ++ hmac (user_subject context user_id tenant_id) hmac_key

  unfoldable pub legacy_lock_key : Plane → Text → Text
  legacy_lock_key context user_id =
      codes "mfalock:" ++ hmac (plane_text context ++ b':' ∷ user_id) hmac_key

  -- what the `try` writes for an account: a platform account is found only where the repository is
  -- given, a dashboard account only with a tenant
  abbrev pub committed :
      Plane → Text → Option Text → Users → Result (Option MfaWrite) → Result Bool × Users
  committed context user_id tenant_id u (raise code) = (raise code, u)
  committed context user_id tenant_id u (ok none) = (ok false, u)
  committed platform user_id tenant_id u (ok (some write)) =
      (ok true, update_mfa repositories platform user_id [] write u)
  committed dashboard user_id tenant_id u (ok (some write)) =
      elim (assert_dashboard_tenant server tenant_id) [
        | raise code ↦ (raise code, u)
        | ok tenant ↦ (ok true, update_mfa repositories dashboard user_id tenant write u)
      ]

  -- the body of the `try`, which leaves the store alone
  unfoldable pub rewrite_account :
      Plane
      → Text
      → Option Text
      → (Account → Result (Option MfaWrite))
      → Users
      → Result Bool × Users
  rewrite_account context user_id tenant_id mutate u =
      elim (fetch_user_for_context server context user_id tenant_id u) [
        | raise code ↦ (raise code, u)
        | ok current ↦ committed context user_id tenant_id u (mutate current)
      ]

  unfoldable pub transition_mfa_record :
      Plane
      → Text
      → Option Text
      → (Account → Result (Option MfaWrite))
      → Text
      → Action (State server) Bool
  transition_mfa_record context user_id tenant_id mutate lock_token w =
      let scoped = scoped_lock_key context user_id tenant_id in
      let legacy = legacy_lock_key context user_id in
      let ttl = mfa_transition_lock_ttl_seconds in
      let (took_scoped, s1) = set_if_absent redis scoped lock_token ttl w.store in
      let (took_legacy, s2) = set_if_absent redis legacy lock_token ttl s1 in
      let (reply, u) = rewrite_account context user_id tenant_id mutate w.users in
      if took_scoped
      then (if text_eq legacy scoped
          then (reply, record { store = release_lock redis scoped lock_token s1; users = u })
          else if took_legacy
          then (
            reply,
            record {
              store =
                  release_lock redis legacy lock_token (release_lock redis scoped lock_token s2);
              users = u;
            },
          )
          else (
            raise mfa_state_conflict,
            record w { store = release_lock redis scoped lock_token s2 },
          ))
      else (raise mfa_state_conflict, record w { store = s1 })
