-- ===== src/TokenManager/Logins.antt =====
-- services/token-manager.service.ts: from a login to the first exchange of its refresh token.
use nest_auth.Prelude.{
  ℕ, suc, ◌+◌, ◌*◌, ◌≡◌, refl, ◌∙◌, true, false, some, [], Text, text_eq, text_eq_refl, codes, ok,
  arith, if◌then◌else◌,
}
use nest_auth.Json.{Platform, str}
use nest_auth.Keys.{dashboard, live, family, key, prefixes_for, session_index_key, recent_auth_key}
use nest_auth.AuthRedis.Scripts.Creation.{get-create_session}
use nest_auth.AuthRedis.Counters.{get_user_token_epoch}
use nest_auth.AuthRedis.Sessions.{NewSession, write_new_session}
use nest_auth.TokenManager.{
  Settings, Clock, build_session, serialize_session, is_within_absolute_lifetime,
  is_rotatable_tenant,
}
use nest_auth.TokenManager.Refresh.{Exchange, reissue_tokens}
use nest_auth.TokenManager.Renewal.{reissue_tokens-renews}
use nest_auth.TokenManager.Issue.{Login, login_session, issue_tokens}

module _ (env : Platform) where
  open env use {redis, hmac, hmac_key}
  open env.redis use {Store, get}

  get-write_new_session :
      (p : NewSession) (n : ℕ) (s : Store) (j : Text)
      → p.refresh_ttl ≡ suc n
      → get (write_new_session env p s) j
        ≡ (if text_eq (key p.kind live p.token_hash) j then some p.session_json else get s j)
  unfolding write_new_session
  get-write_new_session p n s j lasts = rw lasts (
      get-create_session redis (key p.kind live p.token_hash)
        (session_index_key hmac p.kind p.user_id hmac_key p.tenant_id)
        (key p.kind family p.family_id) p.session_json n p.family_id (prefixes_for p.kind live)
        p.token_hash s j)

  module _ (settings : Settings) (clock : Clock) (l : Login) (s : Store) (d : ℕ)
      (days : settings.refresh_expires_in_days ≡ suc d) where
    lasts : settings.refresh_expires_in_days * 86400 ≡ suc (d * 86400 + 86399)
    lasts = rw days (omega arith)

    issued_record :
        get
          (issue_tokens env settings clock l s).1
          (key dashboard live (env.sha256 l.raw_refresh_token))
        ≡ some (serialize_session env (login_session env settings clock l))
    unfolding issue_tokens recent_auth_key key
    issued_record =
        redis.get-set _ (recent_auth_key hmac dashboard l.user.id hmac_key (some l.user.tenant_id))
          (codes "1") 299 _
        ∙ get-write_new_session _ (d * 86400 + 86399) s
            (key dashboard live (env.sha256 l.raw_refresh_token)) lasts
        ∙ rw text_eq_refl refl

    issued_rotatable :
        text_eq l.user.tenant_id [] ≡ false
        → is_rotatable_tenant (login_session env settings clock l) ≡ true
    unfolding is_rotatable_tenant build_session
    issued_rotatable tenanted = rw tenanted (ground arith)

    -- The refresh token of a login to a tenant can be exchanged while the login is within the absolute
    -- cap: the pair that it gives is of the same user, tenant and role, with the second factor as it
    -- was at the login.
    pub issue_tokens-refreshes :
        (named : text_eq l.family_id [] ≡ false) (tenanted : text_eq l.user.tenant_id [] ≡ false)
        (later : Clock) (x : Exchange) (presents : x.old_refresh ≡ l.raw_refresh_token)
        (within : is_within_absolute_lifetime settings later (login_session env settings clock l)
          ≡ true)
        (fresh : text_eq (env.sha256 x.old_refresh) (env.sha256 x.new_raw_refresh) ≡ false)
        → let run = reissue_tokens env settings later x (issue_tokens env settings clock l s).1 in
          run.0
          ≡ ok (record {
            user_id = l.user.id;
            tenant_id = some (str l.user.tenant_id);
            role = l.user.role;
            access_token = record {
              sub = l.user.id;
              tenant_id = some (str l.user.tenant_id);
              role = l.user.role;
              status = some [];
              plane = dashboard;
              mfa_enabled = l.user.mfa_enabled;
              mfa_verified = l.mfa_verified;
              epoch = get_user_token_epoch env l.user.id (some l.user.tenant_id) dashboard run.2;
            };
            raw_refresh_token = x.new_raw_refresh;
          })
    unfolding build_session
    issue_tokens-refreshes named tenanted later x presents within fresh =
        (reissue_tokens-renews env settings later x (login_session env settings clock l)
          (issue_tokens env settings clock l s).1 (rw presents issued_record) named d days within
          (issued_rotatable tenanted) fresh).0
