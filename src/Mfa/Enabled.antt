-- ===== src/Mfa/Enabled.antt =====
-- services/mfa.service.ts: `verifyAndEnable` demands a pending setup and a code that fits it.
use nest_auth.Prelude.{
  ◌≡◌, refl, ◌∙◌, ap, sym, subst, true, false, Option, none, some, Text, ok, arith, text_eq,
  text_eq_refl,
}
use nest_auth.Prelude.Action.{through, reply_inv, throw_if_inv, or_throw_inv}
use nest_auth.Keys.{Plane, dashboard, platform, Slot, live, key, token_epoch_key, user_subject}
use nest_auth.AuthRedis.Counters.{get-bump_user_token_epoch}
use nest_auth.AuthRedis.Sessions.{invalidate_user_sessions}
use nest_auth.AuthRedis.Sessions.Everywhere.{invalidate-sweep}
use nest_auth.AuthRedis.Sweeps.Apart.{get-sweep_apart}
use nest_auth.AuthRedis.Tickets.{getdel}
use nest_auth.Totp.{verify_totp}
use nest_auth.Users.{Account, with_mfa}
use nest_auth.Mfa.{
  Server, State, Decrypted, assert_plane_tenant, fetch_user_for_context, decrypt_with_rotation,
}
use nest_auth.Mfa.Codes.{scoped_replay_key, legacy_replay_key}
use nest_auth.Mfa.Replay.{unmarked, verify_totp_with_anti_replay-reply}
use nest_auth.Mfa.Locking.{transition_mfa_record-exclusive}
use nest_auth.Mfa.Removal.{revoked}
use nest_auth.Mfa.Rewritten.{transition_mfa_record-writes, transition_mfa_record-ok}
use nest_auth.Mfa.Gated.{accepted_code, was_enabled}
use nest_auth.Mfa.SetupData.{MfaSetupData, parse_setup_data}
use nest_auth.Mfa.Enabling.{
  Enablement, enabling_write, setup_key, pending, enable_factor, verify_and_enable,
}

module _ (server : Server) where
  open server use {env, clock, to_upper_case, hmac_sha1, totp_window}
  open server.env use {redis, hmac, hmac_key}
  open server.env.redis use {Store, get}

  pending_inv :
      (key : Text) (s : Store) (raw : Text) → pending server key s ≡ ok raw → get s key ≡ some raw
  pending_inv key s raw h = ground arith

  pub users-enable_factor :
      (r : Enablement) (setup : MfaSetupData) (w w' : State server) (user : Account)
      → fetch_user_for_context server r.context r.user_id r.tenant_id w.users ≡ ok user
      → enable_factor server r setup w ≡ (ok tt, w')
      → fetch_user_for_context server r.context r.user_id r.tenant_id w'.users
        ≡ ok (with_mfa (enabling_write setup) user)
  unfolding enable_factor
  users-enable_factor r setup w w' user fetched h = through h λ b v e k.
      let free =
        transition_mfa_record-ok server r.context r.user_id r.tenant_id _ r.lock_token w user
          fetched b v e in
      let done =
        transition_mfa_record-writes server r.context r.user_id r.tenant_id _ r.lock_token w user
          fetched (enabling_write setup) free.0 refl in
      rw (reply_inv (ok tt) _ k).1 (
        subst
          (λ p.
            fetch_user_for_context server r.context r.user_id r.tenant_id p.1.users
            ≡ ok (with_mfa (enabling_write setup) user))
          e done.1)

  setup_key-apart :
      (context plane : Plane) (user_id : Text) (tenant_id : Option Text) (a : Slot) (x : Text)
      → text_eq (key plane a x) (setup_key server context user_id tenant_id) ≡ false
  unfolding key setup_key
  setup_key-apart context dashboard user_id tenant_id live x = refl
  setup_key-apart context platform user_id tenant_id live x = refl
  setup_key-apart context _ user_id tenant_id _ x = refl

  epoch_key-setup_key :
      (context plane : Plane) (user_id : Text) (tenant_id : Option Text)
      → text_eq
          (token_epoch_key hmac plane user_id hmac_key tenant_id)
          (setup_key server context user_id tenant_id)
        ≡ false
  unfolding token_epoch_key setup_key
  epoch_key-setup_key context dashboard user_id tenant_id = refl
  epoch_key-setup_key context platform user_id tenant_id = refl

  -- What ends the sessions leaves the pending setup.
  get-revoked :
      (context : Plane) (user_id : Text) (tenant_id : Option Text) (s : Store)
      → get
          (revoked server context user_id tenant_id s)
          (setup_key server context user_id tenant_id)
        ≡ get s (setup_key server context user_id tenant_id)
  get-revoked context user_id tenant_id s =
      let j = setup_key server context user_id tenant_id in
      get-bump_user_token_epoch env user_id tenant_id context
        (invalidate_user_sessions env user_id tenant_id context s) j
        (epoch_key-setup_key context context user_id tenant_id)
      ∙ rw (invalidate-sweep env context user_id tenant_id s) (
          get-sweep_apart redis context (hmac (user_subject context user_id tenant_id) hmac_key) j
            (setup_key-apart context context user_id tenant_id) s)

  pub get-enable_factor :
      (r : Enablement) (setup : MfaSetupData) (w w' : State server)
      → enable_factor server r setup w ≡ (ok tt, w')
      → get w'.store (setup_key server r.context r.user_id r.tenant_id)
        ≡ get w.store (setup_key server r.context r.user_id r.tenant_id)
  unfolding enable_factor
  get-enable_factor r setup w w' h = through h λ b v e k.
      let j = setup_key server r.context r.user_id r.tenant_id in
      let run =
        transition_mfa_record-exclusive server r.context r.user_id r.tenant_id
          (λ current. ok (some (enabling_write setup))) r.lock_token w in
      rw (reply_inv (ok tt) _ k).1 (
        get-revoked r.context r.user_id r.tenant_id v.store
        ∙ subst (λ p. get p.1.store j ≡ get w.store j) e (run.0 j))

  pub get-getdel : (j : Text) (s : Store) → get (getdel env j s).1 j ≡ none
  unfolding getdel
  get-getdel j s = ground (arith, redis.get-del s j j, text_eq_refl j)

  -- Where verifyAndEnable goes through, the tenant fits the plane, the account was found, not
  -- blocked and had no second factor, a setup was pending and well formed, the code fits its
  -- secret and neither of its marks stood, and the account is then read back with a second
  -- factor, with the secret and the digests of the recovery codes that the setup holds; the setup
  -- is gone.
  pub verify_and_enable-requires :
      (r : Enablement) (w w' : State server)
      → verify_and_enable server r w ≡ (ok tt, w')
      → (user : Account) × (raw : Text) × (setup : MfaSetupData) × (d : Decrypted)
        × (assert_plane_tenant server r.context r.tenant_id ≡ ok tt)
        × (fetch_user_for_context server r.context r.user_id r.tenant_id w.users ≡ ok user)
        × (user.safe.mfa_enabled ≡ false)
        × (get w.store (setup_key server r.context r.user_id r.tenant_id) ≡ some raw)
        × (parse_setup_data env raw ≡ some setup)
        × (decrypt_with_rotation server setup.encrypted_secret ≡ some d)
        × (verify_totp to_upper_case hmac_sha1 clock.now d.secret r.code totp_window ≡ some true)
        × (unmarked redis
              (scoped_replay_key server r.context r.user_id r.tenant_id r.code)
              (legacy_replay_key server r.context r.user_id r.code)
              w.store
            ≡ true)
        × (fetch_user_for_context server r.context r.user_id r.tenant_id w'.users
            ≡ ok (with_mfa (enabling_write setup) user))
        × (get w'.store (setup_key server r.context r.user_id r.tenant_id) ≡ none)
  unfolding verify_and_enable
  verify_and_enable-requires r w w' h = through h λ fits w1 e1 h1. through h1 λ given w2 e2 h2.
      through h2 λ user w3 e3 h3. through h3 λ off w4 e4 h4. through h4 λ raw w5 e5 h5.
        through h5 λ setup w6 e6 h6. through h6 λ d w7 e7 h7. through h7 λ valid w8 e8 h8.
          through h8 λ right w9 e9 h9. through h9 λ consumed v0 g0 k0. through k0 λ stood v1 g1 k1.
            let i1 = reply_inv _ _ e1 in
            let i2 = throw_if_inv _ _ _ e2 in
            let i3 = reply_inv _ _ e3 in
            let i4 = throw_if_inv _ _ _ e4 in
            let i5 = reply_inv _ _ e5 in
            let i6 = or_throw_inv _ _ _ e6 in
            let i7 = or_throw_inv _ _ _ e7 in
            let i8 = reply_inv _ _ e8 in
            let i9 = throw_if_inv _ _ _ e9 in
            let j0 = reply_inv _ _ g0 in
            let j1 = throw_if_inv _ _ _ g1 in
            let before : w2 ≡ w = i2.1 ∙ i1.1 in
            let read : w4 ≡ w = i4.1 ∙ i3.1 ∙ before in
            let start : w7 ≡ w = i7.1 ∙ i6.1 ∙ i5.1 ∙ read in
            let accepted = accepted_code _ _ (
              sym (
                verify_totp_with_anti_replay-reply server r.context r.user_id d.secret r.code
                  r.tenant_id w7.store)
              ∙ i8.0
              ∙ ap ok (was_enabled valid i9.0)) in
            let users : v1.users ≡ w.users =
              ap (λ v. v.users) j1.1
              ∙ ap (λ v. v.users) j0.1
              ∙ ap (λ v. v.users) i9.1
              ∙ ap (λ v. v.users) i8.1
              ∙ ap (λ v. v.users) start in
            let fetched : fetch_user_for_context server r.context r.user_id r.tenant_id w.users
                ≡ ok user =
              rw before at i3.0 in
            (
              user,
              raw,
              setup,
              d,
              i1.0,
              fetched,
              i4.0,
              pending_inv _ _ raw (rw read at i5.0),
              i6.0,
              i7.0,
              accepted.0,
              rw start at accepted.1,
              users-enable_factor r setup v1 w' user (rw users fetched) k1,
              get-enable_factor r setup v1 w' k1
                  ∙ ap (λ v. get v.store (setup_key server r.context r.user_id r.tenant_id))
                      (j1.1 ∙ j0.1)
                  ∙ get-getdel (setup_key server r.context r.user_id r.tenant_id) w9.store,
            )
