-- ===== src/TokenManager/Renewal.antt =====
-- services/token-manager.service.ts: what the exchange of a live refresh token gives, and what is
-- refused.
use nest_auth.Prelude.{
  ℕ, suc, ◌+◌, ◌*◌, ◌≡◌, refl, ◌∙◌, ap, sym, true, false, none, some, [], inl, inr, Bool-cases, ◌∷◌,
  Text, text_eq, text_eq_refl, ok, raise, refresh_token_invalid, if◌then◌else◌, arith,
}
use nest_auth.Json.{Platform}
use nest_auth.Keys.{dashboard, live, consumed, Slot, key}
use nest_auth.AuthRedis.Counters.{get_user_token_epoch}
use nest_auth.AuthRedis.Sessions.{RotationParams, rotated, rotate_refresh_session}
use nest_auth.AuthRedis.Sessions.Rotated.{string_after, rotate_refresh_session-live}
use nest_auth.TokenManager.{
  RefreshSession, Settings, Clock, tenant_of, build_session, serialize_session, parse_session,
  read_seed_session, is_within_absolute_lifetime, is_rotatable_tenant, session_fields,
}
use nest_auth.TokenManager.Records.{stored_session, parse_session-serialize_session}
use nest_auth.TokenManager.Refresh.{
  Exchange, refresh_ttl, successor_of, build_rotated_result, on_outcome, rotate_seed,
  reissue_tokens,
}

pub stored_session-named :
    (session : RefreshSession)
    → text_eq session.family_id [] ≡ false
    → stored_session session ≡ session
unfolding stored_session
stored_session-named session named = rw named refl

-- The record of a live session of a family is the seed of its rotation.
pub read_seed_session-stored :
    (env : Platform) (clock : Clock) (x : Exchange) (seed : RefreshSession) {session_key : Text}
    (s : env.redis.Store)
    → env.redis.get s session_key ≡ some (serialize_session env seed)
    → text_eq seed.family_id [] ≡ false
    → read_seed_session env clock session_key x.ip x.user_agent s ≡ ok seed
unfolding read_seed_session
read_seed_session-stored env clock x seed s stored named =
    rw (stored, read_seed_session)
      (parse_session-serialize_session env seed ∙ ap ok (stored_session-named seed named))

module _ (env : Platform) (settings : Settings) (clock : Clock) (x : Exchange) where
  open env use {redis, sha256}
  open env.redis use {Store, get}

  -- What `reissueTokens` asks of the rotation.
  abbrev pub params_of : RefreshSession → RotationParams
  params_of seed = record {
    kind = dashboard;
    tenant_id = tenant_of seed;
    old_hash = sha256 x.old_refresh;
    new_hash = sha256 x.new_raw_refresh;
    new_session_json =
        serialize_session env (successor_of env settings clock x seed seed.tenant_id);
    family_id = seed.family_id;
    user_id = seed.user_id;
    refresh_ttl = refresh_ttl env settings clock x;
    grace_ttl = settings.refresh_grace_window_seconds;
  }

  module _ (seed : RefreshSession) (s : Store)
      (stored : get s (key dashboard live (sha256 x.old_refresh))
        ≡ some (serialize_session env seed))
      (named : text_eq seed.family_id [] ≡ false) where
    run_seed : reissue_tokens env settings clock x s ≡ rotate_seed env settings clock x seed s
    unfolding reissue_tokens
    run_seed = rw (read_seed_session-stored env clock x seed s stored named, reissue_tokens) refl

    refused_age :
        is_within_absolute_lifetime settings clock seed ≡ false
        → rotate_seed env settings clock x seed s ≡ (raise refresh_token_invalid, none, s)
    unfolding rotate_seed
    refused_age outlived = rw (outlived, rotate_seed) refl

    refused_tenant :
        is_within_absolute_lifetime settings clock seed ≡ true
        → is_rotatable_tenant seed ≡ false
        → rotate_seed env settings clock x seed s ≡ (raise refresh_token_invalid, none, s)
    unfolding rotate_seed
    refused_tenant within tenantless = rw (within, tenantless, rotate_seed) refl

    -- A live session whose login has outlived the absolute cap, or that names no tenant, is refused,
    -- and the store is left as it was.
    pub reissue_tokens-refused :
        (if is_within_absolute_lifetime settings clock seed
            then is_rotatable_tenant seed
            else false)
          ≡ false
        → reissue_tokens env settings clock x s ≡ (raise refresh_token_invalid, none, s)
    reissue_tokens-refused unfit =
        run_seed ∙ elim (Bool-cases (is_within_absolute_lifetime settings clock seed)) [
          | inl within ↦
              refused_tenant within
                (sym (ap (λ b. if b then is_rotatable_tenant seed else false) within) ∙ unfit)
          | inr outlived ↦ refused_age outlived
        ]

    module _ (d : ℕ) (days : settings.refresh_expires_in_days ≡ suc d)
        (within : is_within_absolute_lifetime settings clock seed ≡ true)
        (rotatable : is_rotatable_tenant seed ≡ true) where
      lasts : refresh_ttl env settings clock x ≡ suc (d * 86400 + 86399)
      lasts = rw days (omega arith)

      rotation :
          (r : Text)
          → serialize_session env seed ≡ b'{' ∷ r
          → ((rotate_refresh_session env (params_of seed) s).0 ≡ rotated (b'{' ∷ r))
            × ((a : Slot) (h : Text)
                → get (rotate_refresh_session env (params_of seed) s).1 (key dashboard a h)
                  ≡ string_after env (params_of seed) s a h)
      rotation r shape =
          let (outcome, strings, families, indexes) =
            rotate_refresh_session-live env (params_of seed) (d * 86400 + 86399) lasts s r
              (stored ∙ ap some shape) in
          (outcome, strings)

      run_rotated :
          (r : Text)
          → serialize_session env seed ≡ b'{' ∷ r
          → reissue_tokens env settings clock x s ≡ (
            ok (
                build_rotated_result env settings clock x
                  (successor_of env settings clock x seed seed.tenant_id)
                  x.new_raw_refresh
                  (rotate_refresh_session env (params_of seed) s).1),
            none,
            (rotate_refresh_session env (params_of seed) s).1,
          )
      unfolding rotate_seed on_outcome
      run_rotated r shape =
          run_seed ∙ rw (within, rotate_seed, rotatable, (rotation r shape).0) refl

      -- A live session of a family, within the cap and with a tenant, is renewed: the reply is the
      -- pair of the successor, whose claims are the record's with the epoch of the moment; nothing is
      -- reported; the successor stands under the new token, where it is read back with the user, the
      -- tenant, the role, the family, its birth and the second factor of the old record; the old
      -- token is gone; and its family is remembered as the one of a consumed token.
      pub reissue_tokens-renews :
          text_eq (sha256 x.old_refresh) (sha256 x.new_raw_refresh) ≡ false
          → let run = reissue_tokens env settings clock x s in
            let next = successor_of env settings clock x seed seed.tenant_id in
            (run.0
              ≡ ok (record {
                user_id = seed.user_id;
                tenant_id = seed.tenant_id;
                role = seed.role;
                access_token = record {
                  sub = seed.user_id;
                  tenant_id = seed.tenant_id;
                  role = seed.role;
                  status = some [];
                  plane = dashboard;
                  mfa_enabled = seed.mfa_enabled;
                  mfa_verified = seed.mfa_verified;
                  epoch = get_user_token_epoch env seed.user_id (tenant_of seed) dashboard run.2;
                };
                raw_refresh_token = x.new_raw_refresh;
              }))
            × (run.1 ≡ none)
            × (get run.2 (key dashboard live (sha256 x.new_raw_refresh))
                ≡ some (serialize_session env next))
            × (parse_session env (serialize_session env next) ≡ ok next)
            × (get run.2 (key dashboard live (sha256 x.old_refresh)) ≡ none)
            × (get run.2 (key dashboard consumed (sha256 x.old_refresh)) ≡ some seed.family_id)
      unfolding string_after serialize_session build_session build_rotated_result
      reissue_tokens-renews fresh =
          let next = successor_of env settings clock x seed seed.tenant_id in
          let (r, shape) = env.object_brace (session_fields seed) in
          let strings = (rotation r shape).1 in
          rw (run_rotated r shape) (
            refl,
            refl,
            strings live (sha256 x.new_raw_refresh) ∙ rw (fresh, text_eq_refl) refl,
            parse_session-serialize_session env next ∙ ap ok (stored_session-named next named),
            strings live (sha256 x.old_refresh) ∙ rw text_eq_refl refl,
            strings consumed (sha256 x.old_refresh) ∙ rw (named, text_eq_refl) refl,
          )
