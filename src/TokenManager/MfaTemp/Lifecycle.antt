-- ===== src/TokenManager/MfaTemp/Lifecycle.antt =====
-- services/token-manager.service.ts: the life of a temporary token, from its issue to its single use
-- or to a bump of the epoch.
use nest_auth.Prelude.{
  ℕ, ◌+◌, ◌≡◌, refl, ◌∙◌, true, false, Option, none, some, Text, codes, text_eq, text_eq_refl, ltb,
  if◌then◌else◌, ok, raise, mfa_temp_token_invalid, arith,
}
use nest_auth.Json.{find, member, Platform}
use nest_auth.Keys.{Plane, dashboard, platform, token_epoch_key}
use nest_auth.AuthRedis.Counters.{
  get_user_token_epoch, bump_user_token_epoch, IsCounter, bump_user_token_epoch_lem,
}
use nest_auth.Access.{Verification, verify_with_rotation, read_stamped_epoch}
use nest_auth.TokenManager.MfaTemp.{
  MfaTempToken, temp_payload, temp_token_in, fits_plane, mfa_key, issue_mfa_temp_token,
  admit_temp_token, verify_mfa_temp_token, consume_mfa_temp_token,
}

-- The payload reads back as what it was built from.
temp_token_in-payload :
    (t : MfaTempToken) (epoch : ℕ) → temp_token_in (temp_payload t epoch) ≡ some t
unfolding temp_token_in
temp_token_in-payload t epoch = on_plane t.context t.tenant_id t.user_id t.jti
  where
    on_plane :
        (context : Plane) (tenant : Option Text) (user_id jti : Text)
        → let t : MfaTempToken = record {
          user_id = user_id;
          context = context;
          jti = jti;
          tenant_id = tenant;
        } in
          temp_token_in (temp_payload t epoch) ≡ some t
    on_plane dashboard none user_id jti = refl
    on_plane dashboard (some t) user_id jti = refl
    on_plane platform none user_id jti = refl
    on_plane platform (some t) user_id jti = refl

epoch-payload :
    (t : MfaTempToken) (epoch : ℕ)
    → read_stamped_epoch (member (codes "epoch") (temp_payload t epoch)) ≡ epoch
unfolding read_stamped_epoch member find
epoch-payload t epoch = at t.tenant_id
  where
    at :
        (tenant : Option Text)
        → read_stamped_epoch
            (member (codes "epoch") (temp_payload (record t { tenant_id = tenant }) epoch))
          ≡ epoch
    at none = refl
    at (some t) = refl

ltb_irrefl : (n : ℕ) → ltb n n ≡ false
ltb_irrefl n = ground arith

ltb_suc : (n : ℕ) → ltb n (n + 1) ≡ true
ltb_suc n = ground arith

module _ (env : Platform) where
  open env use {redis, sha256, hmac, hmac_key}
  open env.redis use {Store, get, set, del}

  abbrev pub epoch_key : MfaTempToken → Text
  epoch_key t = token_epoch_key hmac t.context t.user_id hmac_key t.tenant_id

  -- Where nothing stands under the id, every token with it is refused.
  pub admit_temp_token-absent :
      (stamped : ℕ) (t : MfaTempToken) (s : Store)
      → get s (mfa_key env t.jti) ≡ none
      → admit_temp_token env stamped t s ≡ raise mfa_temp_token_invalid
  unfolding admit_temp_token
  admit_temp_token-absent stamped t s absent = rw absent (ground arith)

  text_eq-epoch_key :
      (t : MfaTempToken) (jti : Text)
      → (text_eq (mfa_key env jti) (epoch_key t) ≡ false)
        × (text_eq (epoch_key t) (mfa_key env jti) ≡ false)
  unfolding token_epoch_key mfa_key
  text_eq-epoch_key t jti =
      elim t.context
        as (λ p.
          (text_eq (mfa_key env jti) (token_epoch_key hmac p t.user_id hmac_key t.tenant_id)
            ≡ false)
          × (text_eq (token_epoch_key hmac p t.user_id hmac_key t.tenant_id) (mfa_key env jti)
              ≡ false)) [ dashboard ↦ (refl, refl) | platform ↦ (refl, refl) ]

  module _ (v : Verification) where
    -- A token whose payload the server signed is admitted by its parts.
    verify_mfa_temp_token-signed :
        (token : Text) (t : MfaTempToken) (epoch : ℕ) (s : Store)
        → verify_with_rotation v token ≡ some (temp_payload t epoch)
        → verify_mfa_temp_token env v token s ≡ admit_temp_token env epoch t s
    unfolding verify_mfa_temp_token
    verify_mfa_temp_token-signed token t epoch s signed =
        rw (verify_mfa_temp_token, signed, temp_token_in-payload t epoch, epoch-payload t epoch)
          refl

    module _ (t : MfaTempToken) (s : Store) where
      abbrev issued : Store
      issued = (issue_mfa_temp_token env t s).1

      get-issued :
          (j : Text)
          → get issued j ≡ (if text_eq (mfa_key env t.jti) j then some t.user_id else get s j)
      unfolding issue_mfa_temp_token
      get-issued j = redis.get-set s (mfa_key env t.jti) t.user_id 299 j

      epoch-issued :
          get_user_token_epoch env t.user_id t.tenant_id t.context issued
          ≡ get_user_token_epoch env t.user_id t.tenant_id t.context s
      unfolding get_user_token_epoch
      epoch-issued = rw (get-issued (epoch_key t), (text_eq-epoch_key t t.jti).0) refl

      stands : get issued (mfa_key env t.jti) ≡ some t.user_id
      stands = get-issued (mfa_key env t.jti) ∙ rw (text_eq_refl (mfa_key env t.jti)) refl

      admitted :
          fits_plane t.context t.tenant_id ≡ true
          → admit_temp_token env
              (get_user_token_epoch env t.user_id t.tenant_id t.context s)
              t
              issued
            ≡ ok t
      unfolding admit_temp_token
      admitted fits =
          rw
            (
              fits,
              stands,
              text_eq_refl t.user_id,
              epoch-issued,
              ltb_irrefl (get_user_token_epoch env t.user_id t.tenant_id t.context s),
            )
            refl

      outdated :
          IsCounter env (get s (epoch_key t))
          → admit_temp_token env
              (get_user_token_epoch env t.user_id t.tenant_id t.context s)
              t
              (bump_user_token_epoch env t.user_id t.tenant_id t.context issued).1
            ≡ raise mfa_temp_token_invalid
      unfolding admit_temp_token
      outdated counter =
          let counter' : IsCounter env (get issued (epoch_key t)) =
            rw (get-issued (epoch_key t), (text_eq-epoch_key t t.jti).0) counter in
          rw
            (
              (bump_user_token_epoch_lem env t.user_id t.tenant_id t.context issued counter').1,
              epoch-issued,
              ltb_suc (get_user_token_epoch env t.user_id t.tenant_id t.context s),
            )
            (ground arith)

      -- A token that issueMfaTempToken has issued for a plane with a tenant that fits it, and
      -- that verifies as signed, is answered by verifyMfaTempToken with the user, plane, tenant
      -- and id it was issued for; consumeMfaTempToken then reports that it removed the token,
      -- after which the same token is refused and a second consumption reports false; and a bump
      -- of the epoch of that user, where the epoch is a counter, refuses the token also when it
      -- is not consumed.
      pub issue_mfa_temp_token-lifecycle :
          (token : Text)
          → fits_plane t.context t.tenant_id ≡ true
          → verify_with_rotation v token ≡ some (issue_mfa_temp_token env t s).0
          → IsCounter env (get s (token_epoch_key hmac t.context t.user_id hmac_key t.tenant_id))
          → let s1 = (issue_mfa_temp_token env t s).1 in
            let s2 = (consume_mfa_temp_token env t.jti s1).1 in
            (verify_mfa_temp_token env v token s1 ≡ ok t)
            × ((consume_mfa_temp_token env t.jti s1).0 ≡ true)
            × (verify_mfa_temp_token env v token s2 ≡ raise mfa_temp_token_invalid)
            × ((consume_mfa_temp_token env t.jti s2).0 ≡ false)
            × (verify_mfa_temp_token env v token
                  (bump_user_token_epoch env t.user_id t.tenant_id t.context s1).1
                ≡ raise mfa_temp_token_invalid)
      unfolding issue_mfa_temp_token consume_mfa_temp_token
      issue_mfa_temp_token-lifecycle token fits signed counter =
          let epoch = get_user_token_epoch env t.user_id t.tenant_id t.context s in
          let k = mfa_key env t.jti in
          let gone : get (del issued k) k ≡ none =
            redis.get-del issued k k ∙ rw (text_eq_refl k) refl in
          (
            verify_mfa_temp_token-signed token t epoch issued signed ∙ admitted fits,
            rw stands refl,
            verify_mfa_temp_token-signed token t epoch (del issued k) signed
                ∙ admit_temp_token-absent epoch t (del issued k) gone,
            rw gone refl,
            verify_mfa_temp_token-signed token t epoch _ signed ∙ outdated counter,
          )
