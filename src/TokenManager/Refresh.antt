-- ===== src/TokenManager/Refresh.antt =====
-- services/token-manager.service.ts: the exchange of a refresh token for the next pair, on the
-- dashboard plane and on the platform plane. The tokens that `generateSecureToken` draws are
-- arguments, and an access token stands for the claims that the JWT library signs.
use nest_auth.Prelude.{
  ℕ, ◌*◌, Bool, Option, none, some, [], Text, text_eq, if◌then◌else◌, Result, ok, raise,
  refresh_token_invalid,
}
use nest_auth.Json.{Json, Platform}
use nest_auth.Keys.{Plane, dashboard, live, key}
use nest_auth.AuthRedis.Counters.{get_user_token_epoch}
use nest_auth.AuthRedis.Sessions.{
  Outcome, rotated, recovered, reused, invalid, rotate_refresh_session, write_recovered_session,
  revoke_family,
}
use nest_auth.TokenManager.{
  RefreshSession, Settings, Clock, tenant_of, build_session, serialize_session, parse_session,
  read_seed_session, is_within_absolute_lifetime, is_rotatable_tenant,
}

-- The payload of an access token; a platform token has no tenant and no status.
pub record Claims : Type 0 where
  pub sub : Text
  pub tenant_id : Option Json
  pub role : Text
  pub status : Option Text
  pub plane : Plane
  pub mfa_enabled : Bool
  pub mfa_verified : Bool
  pub epoch : ℕ

-- `RotatedTokenResult`
pub record RotatedTokens : Type 0 where
  pub user_id : Text
  pub tenant_id : Option Json
  pub role : Text
  pub access_token : Claims
  pub raw_refresh_token : Text

-- What `onRefreshTokenReuseDetected` is told.
pub record ReuseReport : Type 0 where
  pub plane : Plane
  pub user_id : Text
  pub family_id : Text
  pub ip : Text
  pub user_agent : Text

-- What the client presents, and the two tokens that are drawn for it.
pub record Exchange : Type 0 where
  pub old_refresh : Text
  pub ip : Text
  pub user_agent : Text
  pub new_raw_refresh : Text
  pub another_new_refresh : Text

module _ (env : Platform) (settings : Settings) (clock : Clock) (x : Exchange) where
  open env use {redis, sha256, hmac, hmac_key, stringify}
  open env.redis use {Store, set, del, srem}

  -- The reply, the report of a reuse, and the store.
  abbrev pub Run : Type 0
  Run = Result RotatedTokens × Option ReuseReport × Store

  abbrev pub refuse : Store → Run
  refuse s = (raise refresh_token_invalid, none, s)

  abbrev pub refresh_ttl : ℕ
  refresh_ttl = settings.refresh_expires_in_days * 86400

  -- the record that replaces `session`, with the new address and device
  abbrev pub successor_of : RefreshSession → Option Json → RefreshSession
  successor_of session tenant_id =
      build_session clock session.user_id tenant_id session.role x.ip x.user_agent
        session.mfa_enabled session.family_id session.family_created_at session.mfa_verified

  unfoldable pub emit_reuse_detected : Plane → Text → Text → Option ReuseReport
  emit_reuse_detected plane user_id family_id =
      if settings.has_reuse_hook
      then (if text_eq user_id []
          then none
          else some (record {
            plane = plane;
            user_id = user_id;
            family_id = family_id;
            ip = x.ip;
            user_agent = x.user_agent;
          }))
      else none

  unfoldable pub build_rotated_result : RefreshSession → Text → Store → RotatedTokens
  build_rotated_result session raw_refresh_token s = record {
    user_id = session.user_id;
    tenant_id = session.tenant_id;
    role = session.role;
    access_token = record {
      sub = session.user_id;
      tenant_id = session.tenant_id;
      role = session.role;
      status = some [];
      plane = dashboard;
      mfa_enabled = session.mfa_enabled;
      mfa_verified = session.mfa_verified;
      epoch = get_user_token_epoch env session.user_id (tenant_of session) dashboard s;
    };
    raw_refresh_token = raw_refresh_token;
  }

  -- `rotateFromGrace` on the parsed record
  unfoldable pub recover_session : RefreshSession → Store → Run
  recover_session session s =
      let next = successor_of session session.tenant_id in
      let (written, s') =
        write_recovered_session env
          (record {
            kind = dashboard;
            tenant_id = tenant_of session;
            token_hash = sha256 x.another_new_refresh;
            session_json = serialize_session env next;
            family_id = session.family_id;
            user_id = session.user_id;
            refresh_ttl = refresh_ttl;
          })
          s in
      if is_within_absolute_lifetime settings clock session
      then (if is_rotatable_tenant session
          then (if written
              then (ok (build_rotated_result next x.another_new_refresh s'), none, s')
              else refuse s')
          else refuse s)
      else refuse s

  unfoldable pub rotate_from_grace : Text → Store → Run
  unfolding recover_session
  rotate_from_grace grace_session_json s = elim (parse_session env grace_session_json) [
    | raise code ↦ (raise code, none, s)
    | ok session ↦ recover_session session s
  ]

  unfoldable pub on_outcome : RefreshSession → Outcome → Store → Run
  on_outcome new_session (rotated raw) s =
      (ok (build_rotated_result new_session x.new_raw_refresh s), none, s)
  on_outcome new_session (recovered json) s = rotate_from_grace json s
  on_outcome new_session (reused family_id) s =
      let ((removed, owner_id), s') = revoke_family env dashboard family_id s in
      (raise refresh_token_invalid, emit_reuse_detected dashboard owner_id family_id, s')
  on_outcome new_session invalid s = refuse s

  -- `reissueTokens` from the seed on
  unfoldable pub rotate_seed : RefreshSession → Store → Run
  unfolding on_outcome
  rotate_seed seed s =
      let new_session = successor_of seed seed.tenant_id in
      let (outcome, s') =
        rotate_refresh_session env
          (record {
            kind = dashboard;
            tenant_id = tenant_of seed;
            old_hash = sha256 x.old_refresh;
            new_hash = sha256 x.new_raw_refresh;
            new_session_json = serialize_session env new_session;
            family_id = seed.family_id;
            user_id = seed.user_id;
            refresh_ttl = refresh_ttl;
            grace_ttl = settings.refresh_grace_window_seconds;
          })
          s in
      if is_within_absolute_lifetime settings clock seed
      then (if is_rotatable_tenant seed then on_outcome new_session outcome s' else refuse s)
      else refuse s

  unfoldable pub reissue_tokens : Store → Run
  unfolding rotate_seed
  reissue_tokens s =
      elim (read_seed_session env clock (key dashboard live (sha256 x.old_refresh)) x.ip
        x.user_agent s) [ raise code ↦ (raise code, none, s) | ok seed ↦ rotate_seed seed s ]
