-- ===== src/TokenManager/PlatformRenewal.antt =====
-- services/token-manager.service.ts: what the exchange of a live refresh token gives on the platform
-- plane.
use nest_auth.Prelude.{
  ℕ, suc, ◌+◌, ◌*◌, ◌≡◌, refl, ◌∙◌, ap, true, false, none, some, [], ◌∷◌, Text, text_eq,
  text_eq_refl, ok, arith,
}
use nest_auth.Json.{Platform, str}
use nest_auth.Keys.{platform, live, detail, consumed, Slot, key}
use nest_auth.Keys.Apart.{text_eq-slot, same_slot}
use nest_auth.AuthRedis.Counters.{get_user_token_epoch}
use nest_auth.AuthRedis.Sessions.{RotationParams, rotated, rotate_refresh_session}
use nest_auth.AuthRedis.Sessions.Rotated.{string_after, rotate_refresh_session-live}
use nest_auth.TokenManager.{
  RefreshSession, Settings, Clock, build_session, serialize_session, parse_session,
  is_within_absolute_lifetime, session_fields,
}
use nest_auth.TokenManager.Records.{parse_session-serialize_session}
use nest_auth.TokenManager.Renewal.{read_seed_session-stored, stored_session-named}
use nest_auth.TokenManager.Refresh.{Exchange, refresh_ttl, successor_of}
use nest_auth.TokenManager.Issue.{write_platform_session_detail}
use nest_auth.TokenManager.PlatformRefresh.{
  move_detail, build_platform_rotated_result, rotate_platform_from_primary, on_platform_outcome,
  rotate_platform_seed, reissue_platform_tokens,
}

module _ (env : Platform) (settings : Settings) (clock : Clock) (x : Exchange)
    (seed : RefreshSession) (s : env.redis.Store) (d : ℕ)
    (days : settings.refresh_expires_in_days ≡ suc d) where
  open env use {redis, sha256}
  open env.redis use {Store, get}

  abbrev pub platform_successor : RefreshSession
  platform_successor = successor_of env settings clock x seed (some (str []))

  -- What `reissuePlatformTokens` asks of the rotation.
  abbrev params : RotationParams
  params = record {
    kind = platform;
    tenant_id = none;
    old_hash = sha256 x.old_refresh;
    new_hash = sha256 x.new_raw_refresh;
    new_session_json = serialize_session env platform_successor;
    family_id = seed.family_id;
    user_id = seed.user_id;
    refresh_ttl = refresh_ttl env settings clock x;
    grace_ttl = settings.refresh_grace_window_seconds;
  }

  lasts : refresh_ttl env settings clock x ≡ suc (d * 86400 + 86399)
  lasts = rw days (omega arith)

  -- Moving the detail record changes no string but the details.
  get-move_detail :
      (hash : Text) (s : Store) (a : Slot) (h : Text)
      → same_slot detail a ≡ false
      → get (move_detail env settings clock x hash s) (key platform a h) ≡ get s (key platform a h)
  unfolding move_detail write_platform_session_detail
  get-move_detail hash s a h apart =
      rw (lasts, redis.get-set, text_eq-slot, apart, redis.get-del, text_eq-slot, apart) refl

  module _
      (stored : get s (key platform live (sha256 x.old_refresh))
        ≡ some (serialize_session env seed))
      (named : text_eq seed.family_id [] ≡ false) where
    rotation :
        (r : Text)
        → serialize_session env seed ≡ b'{' ∷ r
        → ((rotate_refresh_session env params s).0 ≡ rotated (b'{' ∷ r))
          × ((a : Slot) (h : Text)
              → get (rotate_refresh_session env params s).1 (key platform a h)
                ≡ string_after env params s a h)
    rotation r shape =
        let (outcome, strings, families, indexes) =
          rotate_refresh_session-live env params (d * 86400 + 86399) lasts s r
            (stored ∙ ap some shape) in
        (outcome, strings)

    run_rotated :
        (r : Text)
        → serialize_session env seed ≡ b'{' ∷ r
        → is_within_absolute_lifetime settings clock seed ≡ true
        → reissue_platform_tokens env settings clock x s
          ≡ rotate_platform_from_primary env settings clock x platform_successor
              (rotate_refresh_session env params s).1
    unfolding reissue_platform_tokens rotate_platform_seed on_platform_outcome
    run_rotated r shape within =
        rw (read_seed_session-stored env clock x seed s stored named, reissue_platform_tokens)
          (rw (within, rotate_platform_seed, (rotation r shape).0) refl)

    -- A live platform session of a family and within the cap is renewed: the reply is the pair of the
    -- successor, whose claims are the record's without a tenant and with the epoch of the moment;
    -- nothing is reported; the successor stands under the new token, where it is read back; the old
    -- token is gone and its family is remembered as the one of a consumed token.
    pub reissue_platform_tokens-renews :
        (within : is_within_absolute_lifetime settings clock seed ≡ true)
        (fresh : text_eq (sha256 x.old_refresh) (sha256 x.new_raw_refresh) ≡ false)
        → let run = reissue_platform_tokens env settings clock x s in
          (run.0
            ≡ ok (record {
              user_id = seed.user_id;
              tenant_id = some (str []);
              role = seed.role;
              access_token = record {
                sub = seed.user_id;
                tenant_id = none;
                role = seed.role;
                status = none;
                plane = platform;
                mfa_enabled = seed.mfa_enabled;
                mfa_verified = seed.mfa_verified;
                epoch = get_user_token_epoch env seed.user_id none platform run.2;
              };
              raw_refresh_token = x.new_raw_refresh;
            }))
          × (run.1 ≡ none)
          × (get run.2 (key platform live (sha256 x.new_raw_refresh))
              ≡ some (serialize_session env platform_successor))
          × (parse_session env (serialize_session env platform_successor) ≡ ok platform_successor)
          × (get run.2 (key platform live (sha256 x.old_refresh)) ≡ none)
          × (get run.2 (key platform consumed (sha256 x.old_refresh)) ≡ some seed.family_id)
    unfolding rotate_platform_from_primary build_platform_rotated_result string_after build_session
        serialize_session
    reissue_platform_tokens-renews within fresh =
        let (r, shape) = env.object_brace (session_fields seed) in
        let strings = (rotation r shape).1 in
        rw (run_rotated r shape within) (
          refl,
          refl,
          get-move_detail _ _ live (sha256 x.new_raw_refresh) refl
              ∙ strings live (sha256 x.new_raw_refresh)
              ∙ rw (fresh, text_eq_refl) refl,
          parse_session-serialize_session env platform_successor
              ∙ ap ok (stored_session-named platform_successor named),
          get-move_detail _ _ live (sha256 x.old_refresh) refl
              ∙ strings live (sha256 x.old_refresh)
              ∙ rw text_eq_refl refl,
          get-move_detail _ _ consumed (sha256 x.old_refresh) refl
              ∙ strings consumed (sha256 x.old_refresh)
              ∙ rw (named, text_eq_refl) refl,
        )
