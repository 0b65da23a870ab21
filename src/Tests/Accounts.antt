-- ===== src/Tests/Accounts.antt =====
-- An access token, before and after a revocation, an account and its roles.
use nest_auth.Prelude.{
  ◌≡◌, ◌↔◌, refl, true, false, none, some, [], ◌∷◌, codes, text_eq, ok, raise, token_invalid,
  if◌then◌else◌, inl, arith,
}
use nest_auth.Prelude.Decimal.{decimal}
use nest_auth.Redis.Memory.{Memory}
use nest_auth.Redis.Namespace.{prefix}
use nest_auth.AuthRedis.Counters.{get_user_token_epoch}
use nest_auth.SessionService.Records.{is_valid_session_hash}
use nest_auth.Json.{Json, num, str, bool, obj, end, field, member}
use nest_auth.Keys.{dashboard, key, session_index_key, user_subject, byte_length, token_epoch_key}
use nest_auth.SessionService.{resolve_live_member, revoke_all_except_current}
use nest_auth.Access.Status.{
  UserRecord, StatusOptions, flag, decide, status_key, verified_key, invalidate, is_blank,
  assert_dashboard_account_usable,
}
use nest_auth.Access.Cached.{invalidate-refreshes}
use nest_auth.Access.{
  VerifyAccessTokenOptions, Verification, no_request, read_stamped_epoch, verify_with_rotation,
  verify_access_token,
}
use nest_auth.Access.Verified.{IsAccepted, verify_access_token_iff}
use nest_auth.Access.Guards.{guarded}
use nest_auth.Access.Chain.{in_full, guarded_iff}
use nest_auth.Access.Refused.{revoke_all_except_current-refuses}
use nest_auth.Tests.Given.{given, nothing}
use nest_auth.Tests.Revocations.{two, one_hash, AllAccepted-two}
open given.redis use {get, set, del}

abbrev claims : Json
claims = obj (
    field (codes "jti") (str (codes "01234567-89ab-4def-8123-456789abcdef")) (
      field (codes "sub") (str (codes "u")) (
        field (codes "tenantId") (str (codes "t")) (
          field (codes "type") (str (codes "dashboard"))
            (field (codes "epoch") (num 0) (field (codes "mfaEnabled") (bool false) end))))))

-- The token of the secret before the present one.
abbrev verification : Verification
verification = record {
  jwt_verify = λ secret token. elim secret [
    | none ↦ none
    | some name ↦ if text_eq name (codes "old") then some claims else none
  ];
  previous_secrets = codes "older" ∷ codes "old" ∷ [];
  tenant_binding_enforced = true;
}

abbrev accounts : StatusOptions
accounts = record {
  blocked_statuses = codes "banned" ∷ [];
  to_lower_case = λ t. t;
  email_verification_required = true;
  user_status_cache_ttl_seconds = 60;
  find_user = λ user_id tenant_id. some (record { status = codes "active"; email_verified = true });
  find_platform_status = λ user_id. none;
}

abbrev on_dashboard : VerifyAccessTokenOptions
on_dashboard = record {
  plane = dashboard;
  require_mfa = true;
  check_status = true;
  request = no_request;
}

verify_access_token_iff_example :
    ((verify_access_token given verification accounts (codes "j") on_dashboard two).0 ≡ ok claims)
    ↔ ((verify_with_rotation verification (codes "j") ≡ some claims)
        × IsAccepted given verification accounts claims on_dashboard two)
verify_access_token_iff_example =
    verify_access_token_iff given verification accounts (codes "j") on_dashboard two claims refl

revoke_all_except_current-refuses_example :
    (verify_access_token given verification accounts
      (codes "j")
      on_dashboard
      (revoke_all_except_current given (codes "u") (codes "t") one_hash two).1).0
    ≡ raise token_invalid
unfolding is_valid_session_hash resolve_live_member prefix session_index_key key user_subject
    decimal byte_length token_epoch_key verify_with_rotation member read_stamped_epoch
    get_user_token_epoch
revoke_all_except_current-refuses_example =
    revoke_all_except_current-refuses given verification accounts (codes "u") (codes "t") one_hash
      one_hash two refl refl AllAccepted-two (inl refl) (codes "j") on_dashboard claims refl refl
      refl refl (omega arith)

-- A status that is cached, and that the repository has changed.
abbrev stale : Memory
stale = set nothing (status_key given (codes "u") (codes "t")) (codes "banned") 60

abbrev fresh : Memory
fresh =
    del (del stale (verified_key given (codes "u") (codes "t")))
      (status_key given (codes "u") (codes "t"))

invalidate-refreshes_example :
    let user : UserRecord = record { status = codes "active"; email_verified = true } in
    let run = assert_dashboard_account_usable given accounts (codes "u") (codes "t") fresh in
    (run.0 ≡ decide accounts (codes "active") (some (flag true)))
    × (assert_dashboard_account_usable given
          (record accounts { find_user = λ user_id tenant_id. none })
          (codes "u")
          (codes "t")
          run.1
        ≡ run)
    × (get fresh (codes "us:") ≡ get stale (codes "us:"))
unfolding invalidate is_blank status_key verified_key user_subject decimal byte_length
invalidate-refreshes_example =
    invalidate-refreshes given accounts (λ user_id tenant_id. none) (codes "u") (codes "t")
      (record { status = codes "active"; email_verified = true }) 59 stale fresh (codes "us:") refl
      refl refl refl refl

guarded_iff_example :
    ((guarded given verification accounts (some (codes "j")) (codes "t") two).0 ≡ ok (some claims))
    ↔ ((verify_access_token given verification accounts
          (codes "j")
          (in_full given verification accounts (codes "t"))
          two).0
        ≡ ok claims)
guarded_iff_example =
    guarded_iff given verification accounts (codes "j") (codes "t") claims two refl
