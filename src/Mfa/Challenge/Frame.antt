-- ===== src/Mfa/Challenge/Frame.antt =====
-- services/mfa.service.ts: the tokens of a challenge are written under keys of sessions, which are
-- other keys than those of the temporary tokens.
use nest_auth.Prelude.{
  ℕ, suc, ◌+◌, ◌*◌, ◌≡◌, refl, ◌∙◌, false, some, List, [], ◌∷◌, Text, codes, text_eq, leb, length,
  keep, arith, Bool-cases, inl, inr,
}
use nest_auth.Json.{Platform}
use nest_auth.Keys.{
  Plane, dashboard, platform, Slot, live, detail, family, key, prefixes_for, session_index_key,
  recent_auth_key,
}
use nest_auth.AuthRedis.Scripts.Creation.{get-create_session}
use nest_auth.AuthRedis.Sweeps.{prune_grace, prune_expired_grace_members}
use nest_auth.AuthRedis.Sessions.{NewSession, write_new_session}
use nest_auth.SessionService.{
  index_key, is_session, to_evict, evict, enforce_session_limit, create_session_detail,
}
use nest_auth.SessionService.Choice.{get-prune_grace}
use nest_auth.TokenManager.{Settings, Clock}
use nest_auth.TokenManager.Issue.{Login, issue_tokens, issue_platform_tokens}
use nest_auth.TokenManager.MfaTemp.{mfa_key}

-- Not the key of a session, and not that of a recent login.
pub record IsApart (env : Platform) (j : Text) : Type 0 where
  pub of_session : (p : Plane) (a : Slot) (rest : Text) → text_eq (key p a rest) j ≡ false
  pub of_login :
      (user_id tenant_id : Text)
      → text_eq (recent_auth_key env.hmac dashboard user_id env.hmac_key (some tenant_id)) j ≡ false

mfa_key-apart :
    (env : Platform) (jti : Text) (p : Plane) (a : Slot) (rest : Text)
    → text_eq (key p a rest) (mfa_key env jti) ≡ false
unfolding key mfa_key
mfa_key-apart env jti dashboard live rest = refl
mfa_key-apart env jti dashboard detail rest = refl
mfa_key-apart env jti dashboard family rest = refl
mfa_key-apart env jti platform live rest = refl
mfa_key-apart env jti p a rest = refl

module _ (env : Platform) where
  open env use {redis, sha256, hmac, hmac_key}
  open redis use {Store, get, smembers, set, del, srem}

  pub mfa_key-IsApart : (jti : Text) → IsApart env (mfa_key env jti)
  unfolding recent_auth_key mfa_key
  mfa_key-IsApart jti = record {
    of_session = mfa_key-apart env jti;
    of_login = λ user_id tenant_id. refl;
  }

  module _ (j : Text) (apart : IsApart env j) where
    open apart use {of_session, of_login}

    get-write_new_session_apart :
        (p : NewSession) (n : ℕ) (s : Store)
        → p.refresh_ttl ≡ suc n
        → get (write_new_session env p s) j ≡ get s j
    unfolding write_new_session
    get-write_new_session_apart p n s lasts = rw lasts (
        get-create_session redis (key p.kind live p.token_hash)
          (session_index_key hmac p.kind p.user_id hmac_key p.tenant_id)
          (key p.kind family p.family_id) p.session_json n p.family_id (prefixes_for p.kind live)
          p.token_hash s j
        ∙ rw (of_session p.kind live p.token_hash) refl)

    get-evict_apart :
        (index : Text) (l : List Text) (s : Store) → get (evict env index l s) j ≡ get s j
    unfolding evict
    get-evict_apart index [] s = refl
    get-evict_apart index (m ∷ l) s =
        get-evict_apart index l _ ∙ simp (redis.get-del, redis.get-srem, of_session)

    get-enforce_session_limit_apart :
        (user_id tenant_id hash : Text) (limit : ℕ) (s : Store)
        → get (enforce_session_limit env user_id tenant_id hash limit s).1 j ≡ get s j
    unfolding enforce_session_limit prune_expired_grace_members
    get-enforce_session_limit_apart user_id tenant_id hash limit s =
        let index = index_key env user_id tenant_id in
        let s' = (prune_grace redis index (codes "rp:") (smembers s index) s).1 in
        let pruned : get s' j ≡ get s j =
          get-prune_grace env index (codes "rp:") (smembers s index) s j in
        elim (Bool-cases (leb (length (keep is_session (smembers s' index))) limit)) [
          | inl few ↦ rw few pruned
          | inr many ↦ rw many (
              get-evict_apart index
                (to_evict env (keep is_session (smembers s' index)) hash limit s') s'
              ∙ pruned)
        ]

    pub get-create_session_detail_apart :
        (user_id tenant_id raw ip user_agent : Text) (now n limit : ℕ) (s : Store)
        → get
            (create_session_detail env user_id tenant_id raw ip user_agent now (suc n) limit s).1
            j
          ≡ get s j
    unfolding create_session_detail
    get-create_session_detail_apart user_id tenant_id raw ip user_agent now n limit s =
        elim (Bool-cases (text_eq tenant_id [])) [
          | inl missing ↦ rw missing refl
          | inr named ↦ rw named (
              get-enforce_session_limit_apart user_id tenant_id (sha256 raw) limit _
              ∙ redis.get-set s (key dashboard detail (sha256 raw)) _ n j
              ∙ rw (of_session dashboard detail (sha256 raw)) refl)
        ]

    module _ (settings : Settings) (clock : Clock) (l : Login) (s : Store) (d : ℕ)
        (days : settings.refresh_expires_in_days ≡ suc d) where
      lasts : settings.refresh_expires_in_days * 86400 ≡ suc (d * 86400 + 86399)
      lasts = rw days (omega arith)

      pub get-issue_tokens_apart : get (issue_tokens env settings clock l s).1 j ≡ get s j
      unfolding issue_tokens
      get-issue_tokens_apart =
          redis.get-set _
            (recent_auth_key hmac dashboard l.user.id hmac_key (some l.user.tenant_id)) (codes "1")
            299 j
          ∙ rw (of_login l.user.id l.user.tenant_id)
              (get-write_new_session_apart _ (d * 86400 + 86399) s lasts)

      pub get-issue_platform_tokens_apart :
          get (issue_platform_tokens env settings clock l s).1 j ≡ get s j
      unfolding issue_platform_tokens
      get-issue_platform_tokens_apart =
          rw (lasts, redis.get-set, of_session platform detail (sha256 l.raw_refresh_token))
            (get-write_new_session_apart _ (d * 86400 + 86399) s refl)
