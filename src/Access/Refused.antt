-- ===== src/Access/Refused.antt =====
-- Access tokens from before a revocation are refused.
use nest_auth.Prelude.{
  ◌≡◌, ◌≤◌, ◌<◌, refl, true, ◌&&◌, some, Text, codes, lt→ltb, ok, raise, token_invalid, arith,
  Bool-cases, inl, inr, keep,
}
use nest_auth.Json.{Json, member, Platform}
use nest_auth.Keys.{dashboard}
use nest_auth.AuthRedis.Counters.{get_user_token_epoch}
use nest_auth.SessionService.{is_session, index_key, resolve_live_member, revoke_all_except_current}
use nest_auth.SessionService.Revocation.{accepted, AllAccepted}
use nest_auth.SessionService.Revoked.{revoke_all_except_current-revokes, EpochIsCounter, epoch_of}
use nest_auth.Access.Status.{StatusOptions}
use nest_auth.Access.{
  claim, is_claim, read_stamped_epoch, is_valid_jti, is_valid_subject, VerifyAccessTokenOptions,
  Verification, verify_with_rotation, is_revoked, check_dashboard, verify_access_token,
}

module _ (env : Platform) (v : Verification) (status : StatusOptions) where
  open env use {redis}
  open redis use {Store, get, smembers}

  revoked-refused :
      (payload : Json) (options : VerifyAccessTokenOptions) (s : Store)
      → is_revoked env payload dashboard s ≡ true
      → (check_dashboard env v status payload options s).0 ≡ raise token_invalid
  unfolding check_dashboard
  revoked-refused payload options s revoked =
      elim (Bool-cases (
        is_valid_jti (claim (codes "jti") payload)
        && (is_valid_subject (claim (codes "sub") payload)
            && (is_valid_subject (claim (codes "tenantId") payload)
                && is_claim (codes "type") (codes "dashboard") payload)))) [
                  | inl formed ↦ rw (formed, revoked) refl
                  | inr malformed ↦ rw malformed refl
                ]

  -- A token that was stamped before the present epoch is refused.
  pub outdated-refused :
      (token : Text) (options : VerifyAccessTokenOptions) (payload : Json)
      (user_id tenant_id : Text) (s : Store)
      → options.plane ≡ dashboard
      → verify_with_rotation v token ≡ some payload
      → claim (codes "sub") payload ≡ some user_id
      → claim (codes "tenantId") payload ≡ some tenant_id
      → read_stamped_epoch (member (codes "epoch") payload)
        < get_user_token_epoch env user_id (some tenant_id) dashboard s
      → (verify_access_token env v status token options s).0 ≡ raise token_invalid
  unfolding verify_access_token
  outdated-refused token options payload user_id tenant_id s plane verified sub tenant older =
      rw (verify_access_token, verified, plane) (revoked-refused payload options s revoked)
    where
      revoked : is_revoked env payload dashboard s ≡ true
      revoked = let late = lt→ltb _ _ older in rw (sub, tenant, late) (ground arith)

  -- After revokeAllExceptCurrent, called with an accepted tenant and hash that resolve to a live
  -- session, on an index whose sessions have accepted hashes, verifyAccessToken refuses every
  -- dashboard token of that user and tenant that was stamped with the epoch of before or an
  -- earlier one, whatever its options, its signature being good.
  pub revoke_all_except_current-refuses :
      (user_id tenant_id current kept : Text) (s : Store)
      → accepted tenant_id current ≡ true
      → resolve_live_member env (smembers s (index_key env user_id tenant_id)) current s ≡ ok kept
      → AllAccepted tenant_id (keep is_session (smembers s (index_key env user_id tenant_id)))
      → EpochIsCounter env user_id tenant_id s
      → (token : Text) (options : VerifyAccessTokenOptions) (payload : Json)
      → options.plane ≡ dashboard
      → verify_with_rotation v token ≡ some payload
      → claim (codes "sub") payload ≡ some user_id
      → claim (codes "tenantId") payload ≡ some tenant_id
      → read_stamped_epoch (member (codes "epoch") payload) ≤ epoch_of env user_id tenant_id s
      → (verify_access_token env v status token options
          (revoke_all_except_current env user_id tenant_id current s).1).0
        ≡ raise token_invalid
  revoke_all_except_current-refuses user_id tenant_id current kept s a r all counter token options
        payload plane verified sub tenant before =
      let revoked =
        revoke_all_except_current-revokes env user_id tenant_id current kept s a r all counter in
      outdated-refused token options payload user_id tenant_id
        (revoke_all_except_current env user_id tenant_id current s).1 plane verified sub tenant
        (omega (arith, before, revoked.5))
