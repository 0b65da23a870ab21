-- ===== src/Mfa/Setup.antt =====
-- services/mfa.service.ts: `setup`, which draws a secret and recovery codes and keeps them until a code
-- of the secret is presented, or shows again what is kept.
use nest_auth.Prelude.{
  ℕ, Bool, true, false, Option, none, some, List, Text, internal, mfa_already_enabled,
  mfa_not_enabled, mfa_setup_required, token_invalid,
}
use nest_auth.Prelude.Action.{Action, pure, or_throw, from_result, throw_if, ◌>>=◌, ◌>>◌}
use nest_auth.Keys.{Plane}
use nest_auth.Json.{arr}
use nest_auth.AuthRedis.Claims.{set_if_absent}
use nest_auth.Totp.{generate_totp_secret}
use nest_auth.Totp.Uri.{build_totp_uri}
use nest_auth.Users.{Account}
use nest_auth.Mfa.{
  Server, State, on_store, assert_plane_tenant, encrypt_secret, decrypt_with_rotation,
}
use nest_auth.Mfa.Removal.{fetch, assert_reauthenticated}
use nest_auth.Mfa.RecoveryCodes.{CodeSet, count_or_default, lacks_repository, hash_recovery_codes}
use nest_auth.Mfa.SetupData.{parse_setup_data, parse_plain_recovery_codes, texts_out, setup_json}
use nest_auth.Mfa.Enabling.{setup_key}

-- MFA_SETUP_TTL_SECONDS
abbrev pub mfa_setup_ttl_seconds : ℕ
mfa_setup_ttl_seconds = 600

-- MfaSetupResult
pub record MfaSetupResult : Type 0 where
  pub secret : Text
  pub qr_code_uri : Text
  pub recovery_codes : List Text

-- the request, with what is drawn: the secret, the vectors of the two encryptions, the codes
pub record SetupRequest : Type 0 where
  pub user_id : Text
  pub context : Plane
  pub password : Option Text
  pub tenant_id : Option Text
  pub raw_secret : List ℕ
  pub secret_iv : List ℕ
  pub codes_iv : List ℕ
  pub draws : ℕ → List ℕ

module _ (server : Server) where
  open server use {env, recovery_code_count, issuer, encode_uri_component, compare}
  open server.env use {redis, stringify}
  open server.env.redis use {Store, get, set}

  -- `setupKey` of a request
  abbrev pub key_of : SetupRequest → Text
  key_of r = setup_key server r.context r.user_id r.tenant_id

  abbrev pub uri_for : Text → Text → Option Text
  uri_for secret email = build_totp_uri encode_uri_component secret email issuer

  -- What is kept is shown again.
  unfoldable pub show_again : Account → Text → Action (State server) MfaSetupResult
  show_again user raw = do
    setup ← or_throw mfa_setup_required (parse_setup_data env raw)
    secret ← or_throw token_invalid (decrypt_with_rotation server setup.encrypted_secret)
    json ← or_throw token_invalid (decrypt_with_rotation server setup.encrypted_plain_codes)
    codes ← or_throw mfa_setup_required (parse_plain_recovery_codes env json.secret)
    uri ← or_throw internal (uri_for secret.secret user.email)
    pure (record { secret = secret.secret; qr_code_uri = uri; recovery_codes = codes })

  -- What is drawn is shown.
  unfoldable pub show_new : Account → Text → List Text → Action (State server) MfaSetupResult
  show_new user secret plain_codes = do
    uri ← or_throw internal (uri_for secret user.email)
    pure (record { secret = secret; qr_code_uri = uri; recovery_codes = plain_codes })

  -- After a lost `setIfAbsent`: what the other request has kept, or where that is gone, the payload.
  abbrev pub after_lost :
      SetupRequest
      → Account
      → Text
      → List Text
      → Text
      → Option Text
      → Action (State server) MfaSetupResult
  after_lost r user secret plain_codes payload (some existing) = show_again user existing
  after_lost r user secret plain_codes payload none = do
    on_store server (λ s. (tt, set s (key_of r) payload mfa_setup_ttl_seconds))
    show_new user secret plain_codes

  abbrev pub keep_payload :
      SetupRequest → Account → Text → List Text → Text → Bool → Action (State server) MfaSetupResult
  keep_payload r user secret plain_codes payload true w = show_new user secret plain_codes w
  keep_payload r user secret plain_codes payload false w =
      after_lost r user secret plain_codes payload (get w.store (key_of r)) w

  unfoldable pub first_setup : SetupRequest → Account → Action (State server) MfaSetupResult
  first_setup r user = do
    let secret : Text = generate_totp_secret r.raw_secret
    let set : CodeSet = hash_recovery_codes server r.draws 0 (count_or_default recovery_code_count)
    encrypted_secret ← or_throw internal (encrypt_secret server r.secret_iv secret)
    encrypted_plain_codes ←
        or_throw internal
          (encrypt_secret server r.codes_iv (stringify (arr (texts_out set.plain_codes))))
    let payload : Text = stringify (
        setup_json (record {
          encrypted_secret = encrypted_secret;
          hashed_codes = set.hashed_codes;
          encrypted_plain_codes = encrypted_plain_codes;
        }))
    was_set ← on_store server (set_if_absent redis (key_of r) payload mfa_setup_ttl_seconds)
    keep_payload r user secret set.plain_codes payload was_set

  abbrev pub show_or_draw :
      SetupRequest → Account → Option Text → Action (State server) MfaSetupResult
  show_or_draw r user (some existing) = show_again user existing
  show_or_draw r user none = first_setup r user

  unfoldable pub setup : SetupRequest → Action (State server) MfaSetupResult
  setup r = do
    from_result (assert_plane_tenant server r.context r.tenant_id)
    throw_if (lacks_repository server r.context) mfa_not_enabled
    user ← fetch server r.context r.user_id r.tenant_id
    throw_if user.safe.mfa_enabled mfa_already_enabled
    assert_reauthenticated server compare r.context r.user_id user.password_hash r.password
        r.tenant_id
    existing ← on_store server (λ s. (get s (key_of r), s))
    show_or_draw r user existing
