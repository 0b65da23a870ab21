-- ===== src/Access.antt =====
-- services/auth-token-verifier.service.ts and what it calls: guards/utils/assert-token-type.ts,
-- utils/verify-with-rotation.ts, utils/assert-tenant-binding.ts, utils/stamped-epoch.ts and
-- services/auth-revocation.service.ts. `jwtService.verify` is an argument, as a function of the
-- secret, where `none` is the configured one, and of the token; it answers with the payload of a
-- token whose signature, algorithm, issuer, audience and expiry are as they should be.
pub mod Roles
pub mod Status
pub mod Verified
pub mod Refused
pub mod Cached
pub mod Guards
pub mod Chain
pub mod WsTickets
use nest_auth.Prelude.{
  ℕ, ◌≡◌, Bool, true, false, ◌&&◌, ◌||◌, not, Option, none, some, List, [], ◌∷◌, ◌++◌, Text, codes,
  text_eq, length, leb, ltb, ◌==◌, is_some, if◌then◌else◌, Result, ok, raise, token_invalid,
  mfa_required, platform_auth_required,
}
use nest_auth.Json.{Json, null, bool, num, str, obj, member, as_string, as_bool, Platform}
use nest_auth.Keys.{Plane, dashboard, platform}
use nest_auth.AuthRedis.Counters.{get_user_token_epoch}
use nest_auth.Access.Status.{
  UserRecord, StatusOptions, assert_dashboard_account_usable, assert_platform_account_usable,
}

-- `readStampedEpoch`
unfoldable pub read_stamped_epoch : Option Json → ℕ
read_stamped_epoch (some (num epoch)) = epoch
read_stamped_epoch _ = 0

-- UUID_V4_RE, as its text with `h` for a digit of base 16 and `y` for one of `89ab`
abbrev is_base16 : ℕ → Bool
is_base16 c =
    (leb b'0' c && leb c b'9') || ((leb b'a' c && leb c b'f') || (leb b'A' c && leb c b'F'))

abbrev is_variant : ℕ → Bool
is_variant c = (c == b'8' || c == b'9') || ((c == b'a' || c == b'b') || (c == b'A' || c == b'B'))

abbrev matches_code : ℕ → ℕ → Bool
matches_code p c = if p == b'h' then is_base16 c else if p == b'y' then is_variant c else p == c

matches : Text → Text → Bool
matches [] [] = true
matches (p ∷ pattern) (c ∷ t) = matches_code p c && matches pattern t
matches _ _ = false

unfoldable pub is_valid_jti : Option Text → Bool
unfolding matches
is_valid_jti none = false
is_valid_jti (some jti) = matches (codes "hhhhhhhh-hhhh-4hhh-yhhh-hhhhhhhhhhhh") jti

-- MAX_SUBJECT_LENGTH; `assertValidSub` and `assertValidTenantId` throw where this is false.
abbrev pub max_subject_length : ℕ
max_subject_length = 256

unfoldable pub is_valid_subject : Option Text → Bool
is_valid_subject none = false
is_valid_subject (some sub) = not (text_eq sub []) && leb (length sub) max_subject_length

-- `payload[name]` where it is a string
abbrev pub claim : Text → Json → Option Text
claim name payload = as_string (member name payload)

abbrev pub or_empty : Option Text → Text
or_empty none = []
or_empty (some t) = t

abbrev pub is_claim : Text → Text → Json → Bool
is_claim name value payload =
    is_some (claim name payload) && text_eq (or_empty (claim name payload)) value

-- `assertMfaClaimShape` and `assertMfaVerified` throw where these are false, and true.
abbrev pub has_mfa_shape : Json → Bool
has_mfa_shape payload = is_some (as_bool (member (codes "mfaEnabled") payload))

abbrev is_true : Option Bool → Bool
is_true (some true) = true
is_true _ = false

abbrev pub lacks_mfa : Json → Bool
lacks_mfa payload =
    is_true (as_bool (member (codes "mfaEnabled") payload))
    && not (is_true (as_bool (member (codes "mfaVerified") payload)))

-- `VerifyAccessTokenOptions`, with what `tenantIdResolver` makes of the request: no request is given,
-- or the resolver throws, or it answers with a tenant.
pub data Binding : Type 0 where
  no_request unresolved : Binding
  resolved : Text → Binding

pub record VerifyAccessTokenOptions : Type 0 where
  pub plane : Plane
  pub require_mfa : Bool
  pub check_status : Bool
  pub request : Binding

-- `assertBound` throws where this is false.
unfoldable pub is_bound : Bool → Text → Binding → Bool
is_bound enforced tenant_id no_request = true
is_bound enforced tenant_id unresolved = not enforced
is_bound enforced tenant_id (resolved request_tenant) =
    not enforced || text_eq request_tenant tenant_id

-- What is configured: the secrets before the present one, whether the binding is enforced (with a
-- resolver), and the verification of `@nestjs/jwt`.
pub record Verification : Type 0 where
  pub jwt_verify : Option Text → Text → Option Json
  pub previous_secrets : List Text
  pub tenant_binding_enforced : Bool

module _ (v : Verification) where
  open v use {jwt_verify, previous_secrets}

  -- the loop of `verifyWithRotation`
  unfoldable pub verify_previous : List Text → Text → Option Json
  verify_previous [] token = none
  verify_previous (secret ∷ rest) token =
      let later = verify_previous rest token in
      elim (jwt_verify (some secret) token) [ none ↦ later | some payload ↦ some payload ]

  unfoldable pub verify_with_rotation : Text → Option Json
  unfolding verify_previous
  verify_with_rotation token = elim (jwt_verify none token) [
    | none ↦ verify_previous previous_secrets token
    | some payload ↦ some payload
  ]

module _ (env : Platform) where
  open env use {redis}
  open redis use {Store, get}

  -- `isAccessTokenRevoked`
  unfoldable pub is_access_token_revoked :
      Text → Text → Option Text → Option Json → Plane → Store → Bool
  unfolding read_stamped_epoch
  is_access_token_revoked jti sub tenant_id epoch kind s =
      let unnamed : Bool = elim kind [
        | platform ↦ false
        | dashboard ↦ text_eq (or_empty tenant_id) []
      ] in
      unnamed
      || (is_some (get s (codes "rv:" ++ jti))
          || ltb (read_stamped_epoch epoch) (get_user_token_epoch env sub tenant_id kind s))

  -- `isAccessTokenRevoked` on a verified payload
  abbrev pub is_revoked : Json → Plane → Store → Bool
  is_revoked payload kind s =
      is_access_token_revoked (or_empty (claim (codes "jti") payload))
        (or_empty (claim (codes "sub") payload)) (claim (codes "tenantId") payload)
        (member (codes "epoch") payload) kind s

module _ (env : Platform) (v : Verification) (status : StatusOptions) where
  open env use {redis}
  open redis use {Store, get}

  -- the end of both verifications: the account's status and the second factor
  unfoldable pub finish : Bool → Json → Result (Unit {0}) × Store → Result Json × Store
  finish require_mfa payload (raise code, s) = (raise code, s)
  finish require_mfa payload (ok done, s) =
      if require_mfa && lacks_mfa payload then (raise mfa_required, s) else (ok payload, s)

  -- `verifyDashboard` on the payload
  unfoldable pub check_dashboard : Json → VerifyAccessTokenOptions → Store → Result Json × Store
  unfolding finish is_valid_jti is_valid_subject is_bound is_access_token_revoked
  check_dashboard payload options s =
      let sub = claim (codes "sub") payload in
      let tenant_id = claim (codes "tenantId") payload in
      let checked =
        assert_dashboard_account_usable env status (or_empty sub) (or_empty tenant_id) s in
      if not (
        is_valid_jti (claim (codes "jti") payload)
        && (is_valid_subject sub
            && (is_valid_subject tenant_id && is_claim (codes "type") (codes "dashboard") payload)))
      then (raise token_invalid, s)
      else if is_revoked env payload dashboard s
      then (raise token_invalid, s)
      else if not (is_bound v.tenant_binding_enforced (or_empty tenant_id) options.request)
      then (raise token_invalid, s)
      else if options.require_mfa && not (has_mfa_shape payload)
      then (raise token_invalid, s)
      else finish options.require_mfa payload (if options.check_status then checked else (ok tt, s))

  -- `verifyPlatform` on the payload
  unfoldable pub check_platform : Json → VerifyAccessTokenOptions → Store → Result Json × Store
  unfolding finish is_valid_jti is_valid_subject is_access_token_revoked
  check_platform payload options s =
      let sub = claim (codes "sub") payload in
      let checked = assert_platform_account_usable status (or_empty sub) in
      if not (is_valid_jti (claim (codes "jti") payload) && is_valid_subject sub)
      then (raise token_invalid, s)
      else if not (is_claim (codes "type") (codes "platform") payload)
      then (raise platform_auth_required, s)
      else if is_revoked env payload platform s
      then (raise token_invalid, s)
      else if options.require_mfa && not (has_mfa_shape payload)
      then (raise token_invalid, s)
      else finish options.require_mfa payload ((if options.check_status then checked else ok tt), s)

  -- `verifyAccessToken`
  unfoldable pub verify_access_token : Text → VerifyAccessTokenOptions → Store → Result Json × Store
  unfolding check_dashboard check_platform verify_with_rotation
  verify_access_token token options s = elim (verify_with_rotation v token) [
    | none ↦ (raise token_invalid, s)
    | some payload ↦ elim (options.plane) [
      | dashboard ↦ check_dashboard payload options s
      | platform ↦ check_platform payload options s
    ]
  ]
