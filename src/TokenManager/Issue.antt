-- ===== src/TokenManager/Issue.antt =====
-- services/token-manager.service.ts: the tokens of a login, on both planes.
use nest_auth.Prelude.{ℕ, ◌*◌, Bool, none, some, [], Text, codes, slice_to}
use nest_auth.Json.{Platform, num, str, obj, end, field}
use nest_auth.Keys.{dashboard, platform, detail, key, recent_auth_key}
use nest_auth.AuthRedis.Counters.{get_user_token_epoch}
use nest_auth.AuthRedis.Sessions.{write_new_session}
use nest_auth.TokenManager.{RefreshSession, Settings, Clock, build_session, serialize_session}
use nest_auth.TokenManager.Refresh.{Claims}

-- The fields of `SafeAuthUser` and of `SafeAuthPlatformUser` that a login reads.
pub record LoginUser : Type 0 where
  pub id : Text
  pub tenant_id : Text
  pub role : Text
  pub status : Text
  pub mfa_enabled : Bool

-- The request of a login, with the refresh token and the family id that are drawn for it.
pub record Login : Type 0 where
  pub user : LoginUser
  pub ip : Text
  pub user_agent : Text
  pub mfa_verified : Bool
  pub raw_refresh_token : Text
  pub family_id : Text

-- RECENT_AUTH_TTL_SECONDS and MAX_SESSION_FIELD_LENGTH
abbrev pub recent_auth_ttl_seconds : ℕ
recent_auth_ttl_seconds = 300

abbrev pub max_session_field_length : ℕ
max_session_field_length = 45

module _ (env : Platform) (settings : Settings) (clock : Clock) where
  open env use {redis, sha256, hmac, hmac_key, stringify}
  open env.redis use {Store, set}

  abbrev pub login_session : Login → RefreshSession
  login_session l =
      build_session clock l.user.id (some (str l.user.tenant_id)) l.user.role l.ip l.user_agent
        l.user.mfa_enabled l.family_id (clock.to_iso_string clock.now) l.mfa_verified

  abbrev pub platform_login_session : Login → RefreshSession
  platform_login_session l =
      build_session clock l.user.id (some (str [])) l.user.role l.ip l.user_agent l.user.mfa_enabled
        l.family_id (clock.to_iso_string clock.now) l.mfa_verified

  -- The claims of the access token and the store; the refresh token is the one that was drawn.
  unfoldable pub issue_tokens : Login → Store → Claims × Store
  issue_tokens l s = (
    record {
      sub = l.user.id;
      tenant_id = some (str l.user.tenant_id);
      role = l.user.role;
      status = some l.user.status;
      plane = dashboard;
      mfa_enabled = l.user.mfa_enabled;
      mfa_verified = l.mfa_verified;
      epoch = get_user_token_epoch env l.user.id (some l.user.tenant_id) dashboard s;
    },
    set
        (write_new_session env
          (record {
            kind = dashboard;
            tenant_id = some l.user.tenant_id;
            token_hash = sha256 l.raw_refresh_token;
            session_json = serialize_session env (login_session l);
            family_id = l.family_id;
            user_id = l.user.id;
            refresh_ttl = settings.refresh_expires_in_days * 86400;
          })
          s)
        (recent_auth_key hmac dashboard l.user.id hmac_key (some l.user.tenant_id)) (codes "1")
        recent_auth_ttl_seconds,
  )

  unfoldable pub write_platform_session_detail : Text → Text → Text → ℕ → Store → Store
  write_platform_session_detail token_hash ip user_agent ttl s =
      set s (key platform detail token_hash)
        (stringify (
          obj (
            field (codes "device") (str (slice_to max_session_field_length user_agent)) (
              field (codes "ip") (str (slice_to max_session_field_length ip)) (
                field (codes "createdAt") (num clock.now)
                  (field (codes "lastActivityAt") (num clock.now) end))))))
        ttl

  unfoldable pub issue_platform_tokens : Login → Store → Claims × Store
  unfolding write_platform_session_detail
  issue_platform_tokens l s = (
    record {
      sub = l.user.id;
      tenant_id = none;
      role = l.user.role;
      status = none;
      plane = platform;
      mfa_enabled = l.user.mfa_enabled;
      mfa_verified = l.mfa_verified;
      epoch = get_user_token_epoch env l.user.id none platform s;
    },
    write_platform_session_detail (sha256 l.raw_refresh_token) l.ip l.user_agent
        (settings.refresh_expires_in_days * 86400)
        (write_new_session env
          (record {
            kind = platform;
            tenant_id = none;
            token_hash = sha256 l.raw_refresh_token;
            session_json = serialize_session env (platform_login_session l);
            family_id = l.family_id;
            user_id = l.user.id;
            refresh_ttl = settings.refresh_expires_in_days * 86400;
          })
          s),
  )
