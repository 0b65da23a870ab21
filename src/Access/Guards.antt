-- ===== src/Access/Guards.antt =====
-- guards/jwt-auth.guard.ts, guards/user-status.guard.ts and guards/mfa-required.guard.ts: the guards of
-- a request on the dashboard plane. The metadata, the token of the request and the tenant that
-- `tenantIdResolver` makes of it are arguments.
use nest_auth.Prelude.{
  Bool, true, false, ◌&&◌, not, Option, none, some, Text, codes, text_eq, [], if◌then◌else◌, Result,
  ok, raise, token_invalid, mfa_required,
}
use nest_auth.Json.{Json, Platform}
use nest_auth.Keys.{dashboard}
use nest_auth.Access.Status.{StatusOptions, assert_dashboard_account_usable}
use nest_auth.Access.{
  claim, or_empty, is_claim, has_mfa_shape, lacks_mfa, is_valid_jti, is_valid_subject, is_bound,
  resolved, Verification, verify_with_rotation, is_revoked,
}

-- `MfaRequiredGuard.canActivate`; `none` is a request without a user
unfoldable pub mfa_required_guard : Bool → Option Json → Result Bool
mfa_required_guard true user = ok true
mfa_required_guard false none = ok true
mfa_required_guard false (some user) =
    if not (has_mfa_shape user)
    then raise token_invalid
    else if lacks_mfa user
    then raise mfa_required
    else ok true

module _ (env : Platform) where
  open env use {redis}
  open redis use {Store}

  -- `UserStatusGuard.canActivate`
  unfoldable pub user_status_guard : StatusOptions → Option Json → Store → Result (Unit {0}) × Store
  user_status_guard status none s = (ok tt, s)
  user_status_guard status (some user) s =
      assert_dashboard_account_usable env status (or_empty (claim (codes "sub") user))
        (or_empty (claim (codes "tenantId") user)) s

  module _ (v : Verification) where
    -- `JwtAuthGuard.canActivate` on the payload
    unfoldable pub admit : Json → Text → Store → Result (Option Json)
    admit payload request_tenant s =
        if not (
          is_valid_jti (claim (codes "jti") payload)
          && (is_valid_subject (claim (codes "sub") payload)
              && (is_valid_subject (claim (codes "tenantId") payload)
                  && is_claim (codes "type") (codes "dashboard") payload)))
        then raise token_invalid
        else if is_revoked env payload dashboard s
        then raise token_invalid
        else if not (
            is_bound v.tenant_binding_enforced (or_empty (claim (codes "tenantId") payload))
              (resolved request_tenant))
        then raise token_invalid
        else ok (some payload)

    -- `JwtAuthGuard.canActivate`: the user that it leaves on the request
    unfoldable pub jwt_auth_guard : Bool → Option Text → Text → Store → Result (Option Json)
    unfolding admit
    jwt_auth_guard true token request_tenant s = ok none
    jwt_auth_guard false none request_tenant s = raise token_invalid
    jwt_auth_guard false (some token) request_tenant s =
        if text_eq token [] then raise token_invalid else elim (verify_with_rotation v token) [
          | none ↦ raise token_invalid
          | some payload ↦ admit payload request_tenant s
        ]

  -- The end of the row: the reply on the status, then the second factor.
  unfoldable pub settled : Option Json → Result (Unit {0}) × Store → Result (Option Json) × Store
  unfolding mfa_required_guard
  settled user (raise code, s) = (raise code, s)
  settled user (ok done, s) = elim (mfa_required_guard false user) [
    | raise code ↦ (raise code, s)
    | ok passed ↦ (ok user, s)
  ]

  -- The three guards in a row, on a route that is not public and does not skip the second factor:
  -- the user of the request.
  unfoldable pub guarded :
      Verification → StatusOptions → Option Text → Text → Store → Result (Option Json) × Store
  unfolding jwt_auth_guard user_status_guard settled
  guarded v status token request_tenant s = elim (jwt_auth_guard v false token request_tenant s) [
    | raise code ↦ (raise code, s)
    | ok user ↦ settled user (user_status_guard status user s)
  ]
