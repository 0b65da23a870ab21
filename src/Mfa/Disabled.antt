-- ===== src/Mfa/Disabled.antt =====
-- services/mfa.service.ts: `disable` demands a fresh code of the account it changes.
use nest_auth.Prelude.{◌≡◌, refl, ◌∙◌, subst, true, false, Option, some, Text, ok}
use nest_auth.Prelude.Action.{through, reply_inv}
use nest_auth.Keys.{Plane}
use nest_auth.Totp.{verify_totp}
use nest_auth.Users.{Account, with_mfa}
use nest_auth.Mfa.{
  Server, State, disable, Decrypted, stored_secret, is_mfa_flow_locked_out, assert_plane_tenant,
  fetch_user_for_context, decrypt_with_rotation,
}
use nest_auth.Mfa.Codes.{scoped_replay_key, legacy_replay_key}
use nest_auth.Mfa.Replay.{unmarked}
use nest_auth.Mfa.Rewritten.{transition_mfa_record-writes, transition_mfa_record-ok}
use nest_auth.Mfa.Gated.{gated-Opened}
use nest_auth.Mfa.Removal.{Removal, cleared_mfa, remove_factor, disable_mfa}

module _ (server : Server) where
  open server use {env, clock, to_upper_case, hmac_sha1, totp_window}
  open server.env use {redis}

  users-remove_factor :
      (context : Plane) (user_id : Text) (tenant_id : Option Text) (lock_token : Text)
      (w w' : State server) (user : Account)
      → fetch_user_for_context server context user_id tenant_id w.users ≡ ok user
      → remove_factor server context user_id tenant_id lock_token w ≡ (ok tt, w')
      → fetch_user_for_context server context user_id tenant_id w'.users
        ≡ ok (with_mfa cleared_mfa user)
  unfolding remove_factor
  users-remove_factor context user_id tenant_id lock_token w w' user fetched h =
      through h λ b v e k.
        let free =
          transition_mfa_record-ok server context user_id tenant_id _ lock_token w user fetched b v
            e in
        let done =
          transition_mfa_record-writes server context user_id tenant_id _ lock_token w user fetched
            cleared_mfa free.0 refl in
        rw (reply_inv (ok tt) _ k).1 (
          subst
            (λ r.
              fetch_user_for_context server context user_id tenant_id r.1.users
              ≡ ok (with_mfa cleared_mfa user))
            e done.1)

  -- Where disable goes through, the tenant fits the plane, the account was found, not blocked and
  -- had a second factor, the flow was not locked out, the code fits the stored secret and neither
  -- of its marks stood, and the account is then read back without a second factor.
  pub disable_mfa-requires :
      (r : Removal) (w w' : State server)
      → disable_mfa server r w ≡ (ok tt, w')
      → (user : Account) × (encrypted : Text) × (d : Decrypted) × (assert_plane_tenant server
            r.context r.tenant_id
          ≡ ok tt)
        × (fetch_user_for_context server r.context r.user_id r.tenant_id w.users ≡ ok user)
        × (user.safe.mfa_enabled ≡ true)
        × (is_mfa_flow_locked_out server disable r.context r.user_id r.tenant_id w.store ≡ ok false)
        × (stored_secret user.mfa_secret ≡ some encrypted)
        × (decrypt_with_rotation server encrypted ≡ some d)
        × (verify_totp to_upper_case hmac_sha1 clock.now d.secret r.code totp_window ≡ some true)
        × (unmarked redis
              (scoped_replay_key server r.context r.user_id r.tenant_id r.code)
              (legacy_replay_key server r.context r.user_id r.code)
              w.store
            ≡ true)
        × (fetch_user_for_context server r.context r.user_id r.tenant_id w'.users
            ≡ ok (with_mfa cleared_mfa user))
  unfolding disable_mfa
  disable_mfa-requires r w w' h = through h λ fits w1 e1 h1. through h1 λ user w2 e2 h2.
      let i1 = reply_inv _ _ e1 in
      let i2 = reply_inv _ _ e2 in
      let before : w2 ≡ w = i2.1 ∙ i1.1 in
      let fetched : fetch_user_for_context server r.context r.user_id r.tenant_id w.users
          ≡ ok user =
        rw i1.1 at i2.0 in
      let (v, o, k) =
        gated-Opened server r.context r.user_id r.tenant_id r.code user w _ tt w'
          (rw before at h2) in
      (
        user,
        o.encrypted,
        o.d,
        i1.0,
        fetched,
        o.enabled,
        o.unlocked,
        o.stored,
        o.decrypted,
        o.fits,
        o.is_new,
        users-remove_factor r.context r.user_id r.tenant_id r.lock_token v w' user
            (rw o.users_kept fetched) k,
      )
