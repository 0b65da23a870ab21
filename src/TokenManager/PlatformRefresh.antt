-- ===== src/TokenManager/PlatformRefresh.antt =====
-- services/token-manager.service.ts: the exchange of a refresh token on the platform plane.
use nest_auth.Prelude.{Bool, none, some, [], Text, if◌then◌else◌, ok, raise, refresh_token_invalid}
use nest_auth.Json.{Platform, str}
use nest_auth.Keys.{platform, live, grace, detail, key, session_index_key}
use nest_auth.AuthRedis.Counters.{get_user_token_epoch}
use nest_auth.AuthRedis.Sessions.{
  Outcome, rotated, recovered, reused, invalid, rotate_refresh_session, write_recovered_session,
  revoke_family,
}
use nest_auth.TokenManager.{
  RefreshSession, Settings, Clock, serialize_session, parse_session, read_seed_session,
  is_within_absolute_lifetime,
}
use nest_auth.TokenManager.Refresh.{
  Claims, RotatedTokens, Exchange, Run, refuse, refresh_ttl, successor_of, emit_reuse_detected,
}
use nest_auth.TokenManager.Issue.{write_platform_session_detail}

-- `reissuePlatformAccessWithAuthority`: the claims of the new access token
unfoldable pub reissue_platform_access_with_authority :
    (env : Platform) → Claims → Text → Bool → env.redis.Store → Claims
reissue_platform_access_with_authority env claims role mfa_enabled s = record {
  sub = claims.sub;
  tenant_id = none;
  role = role;
  status = none;
  plane = platform;
  mfa_enabled = mfa_enabled;
  mfa_verified = claims.mfa_verified;
  epoch = get_user_token_epoch env claims.sub none platform s;
}

module _ (env : Platform) (settings : Settings) (clock : Clock) (x : Exchange) where
  open env use {redis, sha256, hmac, hmac_key}
  open env.redis use {Store, del, srem}

  unfoldable pub build_platform_rotated_result : RefreshSession → Text → Store → RotatedTokens
  build_platform_rotated_result session raw_refresh_token s = record {
    user_id = session.user_id;
    tenant_id = some (str []);
    role = session.role;
    access_token = record {
      sub = session.user_id;
      tenant_id = none;
      role = session.role;
      status = none;
      plane = platform;
      mfa_enabled = session.mfa_enabled;
      mfa_verified = session.mfa_verified;
      epoch = get_user_token_epoch env session.user_id none platform s;
    };
    raw_refresh_token = raw_refresh_token;
  }

  -- The detail record moves from the old token to the new one.
  unfoldable pub move_detail : Text → Store → Store
  move_detail new_hash s =
      write_platform_session_detail env settings clock new_hash x.ip x.user_agent
        (refresh_ttl env settings clock x) (del s (key platform detail (sha256 x.old_refresh)))

  unfoldable pub rotate_platform_from_primary : RefreshSession → Store → Run env settings clock x
  unfolding move_detail
  rotate_platform_from_primary new_session s =
      let s' = move_detail (sha256 x.new_raw_refresh) s in
      (ok (build_platform_rotated_result new_session x.new_raw_refresh s'), none, s')

  -- `rotatePlatformFromGrace` on the parsed record
  unfoldable pub recover_platform_session : RefreshSession → Store → Run env settings clock x
  unfolding move_detail
  recover_platform_session session s =
      let next = successor_of env settings clock x session (some (str [])) in
      let (written, s') =
        write_recovered_session env
          (record {
            kind = platform;
            tenant_id = none;
            token_hash = sha256 x.another_new_refresh;
            session_json = serialize_session env next;
            family_id = session.family_id;
            user_id = session.user_id;
            refresh_ttl = refresh_ttl env settings clock x;
          })
          s in
      let s'' = move_detail (sha256 x.another_new_refresh) (
        srem s' (session_index_key hmac platform session.user_id hmac_key none)
          (key platform grace (sha256 x.old_refresh))) in
      if is_within_absolute_lifetime settings clock session
      then (if written
          then (ok (build_platform_rotated_result next x.another_new_refresh s''), none, s'')
          else refuse env settings clock x s')
      else refuse env settings clock x s

  unfoldable pub rotate_platform_from_grace : Text → Store → Run env settings clock x
  unfolding recover_platform_session
  rotate_platform_from_grace grace_session_json s = elim (parse_session env grace_session_json) [
    | raise code ↦ (raise code, none, s)
    | ok session ↦ recover_platform_session session s
  ]

  unfoldable pub on_platform_outcome : RefreshSession → Outcome → Store → Run env settings clock x
  unfolding rotate_platform_from_primary rotate_platform_from_grace
  on_platform_outcome new_session (rotated raw) s = rotate_platform_from_primary new_session s
  on_platform_outcome new_session (recovered json) s = rotate_platform_from_grace json s
  on_platform_outcome new_session (reused family_id) s =
      let ((removed, owner_id), s') = revoke_family env platform family_id s in
      (
        raise refresh_token_invalid,
        emit_reuse_detected env settings clock x platform owner_id family_id,
        s',
      )
  on_platform_outcome new_session invalid s = refuse env settings clock x s

  -- `reissuePlatformTokens` from the seed on
  unfoldable pub rotate_platform_seed : RefreshSession → Store → Run env settings clock x
  unfolding on_platform_outcome
  rotate_platform_seed seed s =
      let new_session = successor_of env settings clock x seed (some (str [])) in
      let (outcome, s') =
        rotate_refresh_session env
          (record {
            kind = platform;
            tenant_id = none;
            old_hash = sha256 x.old_refresh;
            new_hash = sha256 x.new_raw_refresh;
            new_session_json = serialize_session env new_session;
            family_id = seed.family_id;
            user_id = seed.user_id;
            refresh_ttl = refresh_ttl env settings clock x;
            grace_ttl = settings.refresh_grace_window_seconds;
          })
          s in
      if is_within_absolute_lifetime settings clock seed
      then on_platform_outcome new_session outcome s'
      else refuse env settings clock x s

  unfoldable pub reissue_platform_tokens : Store → Run env settings clock x
  unfolding rotate_platform_seed
  reissue_platform_tokens s =
      elim (read_seed_session env clock (key platform live (sha256 x.old_refresh)) x.ip x.user_agent
        s) [ raise code ↦ (raise code, none, s) | ok seed ↦ rotate_platform_seed seed s ]
