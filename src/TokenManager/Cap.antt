-- ===== src/TokenManager/Cap.antt =====
-- services/token-manager.service.ts: the absolute lifetime of a login.
use nest_auth.Prelude.{
  ℕ, suc, ◌≡◌, refl, true, false, none, some, [], text_eq, ok, raise, refresh_token_invalid,
}
use nest_auth.Json.{Platform}
use nest_auth.Keys.{dashboard, live, key}
use nest_auth.TokenManager.{
  RefreshSession, Settings, Clock, build_session, serialize_session, is_within_absolute_lifetime,
  is_rotatable_tenant,
}
use nest_auth.TokenManager.Refresh.{RotatedTokens, Exchange, successor_of, reissue_tokens}
use nest_auth.TokenManager.Renewal.{reissue_tokens-refused, reissue_tokens-renews}

module _ (env : Platform) (settings : Settings) (clock : Clock) (x : Exchange)
    (seed : RefreshSession) (s : env.redis.Store) where
  -- A rotation does not lengthen a login: a live session of a family, within the cap and with a
  -- tenant, where sessions last at least a day and the digest of the new token is another, is
  -- renewed, which is answered with the new token and leaves a live session under it, but once
  -- the cap is over for its login that token is refused, and the store is left as it was.
  pub reissue_tokens-capped :
      (stored : env.redis.get s (key dashboard live (env.sha256 x.old_refresh))
        ≡ some (serialize_session env seed))
      (named : text_eq seed.family_id [] ≡ false) (d : ℕ)
      (days : settings.refresh_expires_in_days ≡ suc d)
      (within : is_within_absolute_lifetime settings clock seed ≡ true)
      (rotatable : is_rotatable_tenant seed ≡ true)
      (fresh : text_eq (env.sha256 x.old_refresh) (env.sha256 x.new_raw_refresh) ≡ false)
      (later : Clock) (y : Exchange) (follows : y.old_refresh ≡ x.new_raw_refresh)
      (over : is_within_absolute_lifetime settings later seed ≡ false)
      → let run = reissue_tokens env settings clock x s in
        (tokens : RotatedTokens) × (run.0 ≡ ok tokens)
        × (tokens.raw_refresh_token ≡ x.new_raw_refresh)
        × (env.redis.get run.2 (key dashboard live (env.sha256 x.new_raw_refresh))
            ≡ some (serialize_session env (successor_of env settings clock x seed seed.tenant_id)))
        × (reissue_tokens env settings later y run.2 ≡ (raise refresh_token_invalid, none, run.2))
  unfolding build_session is_within_absolute_lifetime
  reissue_tokens-capped stored named d days within rotatable fresh later y follows over =
      let renewed =
        reissue_tokens-renews env settings clock x seed s stored named d days within rotatable
          fresh in
      (
        _,
        renewed.0,
        refl,
        renewed.2,
        reissue_tokens-refused env settings later y
            (successor_of env settings clock x seed seed.tenant_id)
            (reissue_tokens env settings clock x s).2 (rw follows renewed.2) named (rw over refl),
      )
