-- ===== src/Access/Status.antt =====
-- services/account-status.service.ts and utils/assert-not-blocked.ts: the status of an account and
-- its cache. The repositories and `toLowerCase` of Unicode are arguments.
use nest_auth.Prelude.{
  ℕ, leb, ◌==◌, Bool, true, false, ◌&&◌, ◌||◌, not, Option, none, some, List, [], ◌∷◌, ◌++◌, Text,
  codes, text_eq, is_some, if◌then◌else◌, Result, ok, raise, ErrorCode, token_invalid,
  email_not_verified, account_banned, account_suspended, account_inactive, pending_approval,
}
use nest_auth.Json.{Platform}
use nest_auth.Keys.{dashboard, user_subject}

-- The fields of `AuthUser` that are read.
pub record UserRecord : Type 0 where
  pub status : Text
  pub email_verified : Bool

-- The configured statuses and the repositories, whose users are found by id and tenant.
pub record StatusOptions : Type 0 where
  pub blocked_statuses : List Text
  pub to_lower_case : Text → Text
  pub email_verification_required : Bool
  pub user_status_cache_ttl_seconds : ℕ
  pub find_user : Text → Text → Option UserRecord
  pub find_platform_status : Text → Option Text

-- `emailVerified ? '1' : '0'`, and `verified === '0'`
abbrev pub flag : Bool → Text
flag email_verified = if email_verified then codes "1" else codes "0"

abbrev pub is_unverified : Option Text → Bool
is_unverified none = false
is_unverified (some verified) = text_eq verified (codes "0")

-- `text.trim() === ''`, with the white space of ECMAScript
abbrev is_white : ℕ → Bool
is_white c =
    (leb 9 c && leb c 13)
    || (leb 8192 c && leb c 8202)
    || (c == 32
        || (c == 160
            || (c == 5760
                || (c == 8232
                    || (c == 8233 || (c == 8239 || (c == 8287 || (c == 12288 || c == 65279))))))))

unfoldable pub is_blank : Text → Bool
is_blank [] = true
is_blank (c ∷ t) = is_white c && is_blank t

-- `BLOCKED_STATUS_CODES.get(canonical) ?? ACCOUNT_INACTIVE`
unfoldable pub blocked_code : Text → ErrorCode
blocked_code canonical =
    if text_eq canonical (codes "banned")
    then account_banned
    else if text_eq canonical (codes "suspended")
    then account_suspended
    else if text_eq canonical (codes "pending") || text_eq canonical (codes "pending_approval")
    then pending_approval
    else account_inactive

module _ (options : StatusOptions) where
  open options use {
    blocked_statuses, to_lower_case, email_verification_required, find_platform_status,
  }

  unfoldable pub is_blocked_by : List Text → Text → Bool
  is_blocked_by [] canonical = false
  is_blocked_by (blocked ∷ rest) canonical =
      text_eq (to_lower_case blocked) canonical || is_blocked_by rest canonical

  -- `assertNotBlocked`
  unfoldable pub assert_not_blocked : Text → Result (Unit {0})
  unfolding is_blocked_by blocked_code
  assert_not_blocked status =
      let canonical = to_lower_case status in
      if is_blocked_by blocked_statuses canonical then raise (blocked_code canonical) else ok tt

  -- the decision on the two values, read or fresh
  unfoldable pub decide : Text → Option Text → Result (Unit {0})
  unfolding assert_not_blocked
  decide status verified = elim (assert_not_blocked status) [
    | raise code ↦ raise code
    | ok done ↦
        if email_verification_required && is_unverified verified
        then raise email_not_verified
        else ok tt
  ]

  -- `assertPlatformAccountUsable`; a server without the repository finds nobody
  unfoldable pub assert_platform_account_usable : Text → Result (Unit {0})
  unfolding assert_not_blocked
  assert_platform_account_usable user_id = elim (find_platform_status user_id) [
    | none ↦ raise token_invalid
    | some status ↦ assert_not_blocked status
  ]

module _ (env : Platform) where
  open env use {redis, hmac, hmac_key}
  open redis use {Store, get, set, del}

  -- `cacheKeysFor`
  unfoldable pub status_key : Text → Text → Text
  status_key user_id tenant_id =
      codes "us:" ++ hmac (user_subject dashboard user_id (some tenant_id)) hmac_key

  unfoldable pub verified_key : Text → Text → Text
  verified_key user_id tenant_id =
      codes "uev:" ++ hmac (user_subject dashboard user_id (some tenant_id)) hmac_key

  -- `invalidate`; `none` is its TypeError
  unfoldable pub invalidate : Text → Text → Store → Option Store
  unfolding verified_key status_key
  invalidate user_id tenant_id s =
      if is_blank user_id || is_blank tenant_id
      then none
      else some (del (del s (verified_key user_id tenant_id)) (status_key user_id tenant_id))

  module _ (options : StatusOptions) where
    open options use {email_verification_required, user_status_cache_ttl_seconds, find_user}

    -- what is written to the cache
    unfoldable pub remember : Text → Text → UserRecord → Store → Store
    unfolding status_key verified_key
    remember user_id tenant_id user s =
        let s' = set s (status_key user_id tenant_id) user.status user_status_cache_ttl_seconds in
        if email_verification_required
        then set s' (verified_key user_id tenant_id) (flag user.email_verified)
            user_status_cache_ttl_seconds
        else s'

    -- `assertDashboardAccountUsable`
    unfoldable pub assert_dashboard_account_usable : Text → Text → Store → Result (Unit {0}) × Store
    unfolding remember decide
    assert_dashboard_account_usable user_id tenant_id s =
        let verified =
          if email_verification_required then get s (verified_key user_id tenant_id) else none in
        let fresh : Result (Unit {0}) × Store = elim (find_user user_id tenant_id) [
          | none ↦ (raise token_invalid, s)
          | some user ↦ (
            decide options user.status (some (flag user.email_verified)),
            remember user_id tenant_id user s,
          )
        ] in
        elim (get s (status_key user_id tenant_id)) [
          | none ↦ fresh
          | some status ↦
              if email_verification_required && not (is_some verified)
              then fresh
              else (decide options status verified, s)
        ]
