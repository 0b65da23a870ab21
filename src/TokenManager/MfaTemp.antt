-- ===== src/TokenManager/MfaTemp.antt =====
-- services/token-manager.service.ts: the temporary token between the two factors of a login. Its
-- payload is what the JWT library signs; the id that `randomUUID` draws is an argument.
pub mod Lifecycle
use nest_auth.Prelude.{
  ℕ, suc, ◌≡◌, refl, ◌∙◌, ap, sym, Bool, true, false, ◌&&◌, ◌||◌, Option, none, some, [], ◌∷◌, ◌++◌,
  ◌>>=◌, Text, codes, text_eq, text_eq_refl, ltb, is_some, if◌then◌else◌, Result, ok, raise,
  mfa_temp_token_invalid, arith,
}
use nest_auth.Json.{Json, num, str, obj, Fields, end, field, find, member, as_string, Platform}
use nest_auth.Keys.{Plane, dashboard, platform, token_epoch_key}
use nest_auth.AuthRedis.Counters.{
  get_user_token_epoch, bump_user_token_epoch, IsCounter, bump_user_token_epoch_lem,
}
use nest_auth.AuthRedis.Tickets.{tenant_field, tenant_in}
use nest_auth.Access.{Verification, verify_with_rotation, read_stamped_epoch}

-- What `verifyMfaTempToken` answers with.
pub record MfaTempToken : Type 0 where
  pub user_id : Text
  pub context : Plane
  pub jti : Text
  pub tenant_id : Option Text

abbrev pub plane_text : Plane → Text
plane_text dashboard = codes "dashboard"
plane_text platform = codes "platform"

abbrev pub plane_in : Option Text → Option Plane
plane_in none = none
plane_in (some t) =
    if text_eq t (codes "dashboard")
    then some dashboard
    else if text_eq t (codes "platform")
    then some platform
    else none

-- the payload of `issueMfaTempToken`; a missing tenant is left out
abbrev pub temp_payload : MfaTempToken → ℕ → Json
temp_payload t epoch = obj (
    field (codes "jti") (str t.jti) (
      field (codes "sub") (str t.user_id) (
        field (codes "type") (str (codes "mfa_challenge")) (
          field (codes "context") (str (plane_text t.context))
            (tenant_field t.tenant_id (field (codes "epoch") (num epoch) end))))))

-- The members of `MfaTempPayload`. A token that the server signed for another use lacks them; its id
-- stands under no `mfa:` key, which is refused in the same way.
unfoldable pub temp_token_in : Json → Option MfaTempToken
unfolding member find
temp_token_in payload = do
  jti ← as_string (member (codes "jti") payload)
  sub ← as_string (member (codes "sub") payload)
  context ← plane_in (as_string (member (codes "context") payload))
  tenant_id ← tenant_in (member (codes "tenantId") payload)
  some (record { user_id = sub; context = context; jti = jti; tenant_id = tenant_id })

-- A dashboard token names a tenant, a platform token none.
unfoldable pub fits_plane : Plane → Option Text → Bool
fits_plane dashboard none = false
fits_plane dashboard (some []) = false
fits_plane dashboard (some (c ∷ t)) = true
fits_plane platform none = true
fits_plane platform (some t) = false

abbrev is_value : Option Text → Text → Bool
is_value none user_id = false
is_value (some stored) user_id = text_eq stored user_id

-- MFA_TEMP_TOKEN_TTL_SECONDS
abbrev pub mfa_temp_token_ttl_seconds : ℕ
mfa_temp_token_ttl_seconds = 300

module _ (env : Platform) where
  open env use {redis, sha256, hmac, hmac_key}
  open env.redis use {Store, get, set, del}

  unfoldable pub mfa_key : Text → Text
  mfa_key jti = codes "mfa:" ++ sha256 jti

  unfoldable pub issue_mfa_temp_token : MfaTempToken → Store → Json × Store
  issue_mfa_temp_token t s = (
    temp_payload t (get_user_token_epoch env t.user_id t.tenant_id t.context s),
    set s (mfa_key t.jti) t.user_id mfa_temp_token_ttl_seconds,
  )

  -- the checks of `verifyMfaTempToken` on a payload that is signed as it should be
  unfoldable pub admit_temp_token : ℕ → MfaTempToken → Store → Result MfaTempToken
  admit_temp_token stamped t s =
      if fits_plane t.context t.tenant_id
      then (if is_value (get s (mfa_key t.jti)) t.user_id
          then (if ltb stamped (get_user_token_epoch env t.user_id t.tenant_id t.context s)
              then raise mfa_temp_token_invalid
              else ok t)
          else raise mfa_temp_token_invalid)
      else raise mfa_temp_token_invalid

  unfoldable pub verify_mfa_temp_token : Verification → Text → Store → Result MfaTempToken
  verify_mfa_temp_token v token s = elim (verify_with_rotation v token) [
    | none ↦ raise mfa_temp_token_invalid
    | some payload ↦ elim (temp_token_in payload) [
      | none ↦ raise mfa_temp_token_invalid
      | some t ↦ admit_temp_token (read_stamped_epoch (member (codes "epoch") payload)) t s
    ]
  ]

  -- whether the `DEL` removed a key
  unfoldable pub consume_mfa_temp_token : Text → Store → Bool × Store
  consume_mfa_temp_token jti s = (is_some (get s (mfa_key jti)), del s (mfa_key jti))
