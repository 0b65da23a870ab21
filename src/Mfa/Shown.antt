-- ===== src/Mfa/Shown.antt =====
-- services/mfa.service.ts: what `setup` shows again, and its steps.
use nest_auth.Prelude.{◌≡◌, refl, ◌∙◌, ap, sym, false, some, Text, ok, text_eq}
use nest_auth.Prelude.Action.{through, reply_inv, throw_if_inv, or_throw_inv, pure_inv}
use nest_auth.BruteForce.{lockout_key}
use nest_auth.Users.{Account}
use nest_auth.Mfa.{
  Server, State, Decrypted, assert_plane_tenant, fetch_user_for_context, decrypt_with_rotation,
}
use nest_auth.Mfa.Reauthenticated.{assert_reauthenticated-keeps}
use nest_auth.Mfa.SetupData.{MfaSetupData, parse_setup_data, parse_plain_recovery_codes}
use nest_auth.Mfa.Enabling.{setup_key}
use nest_auth.Mfa.Setup.{MfaSetupResult, SetupRequest, key_of, show_again, show_or_draw, setup}

module _ (server : Server) where
  open server use {env, node, encryption_key, recovery_code_count, compare}
  open server.env use {redis, hmac, hmac_key, stringify}
  open server.env.redis use {Store, get, set}

  -- What is kept under the key of a setup is what was shown.
  pub record Kept (raw : Text) (shown : MfaSetupResult) : Type 0 where
    pub kept : MfaSetupData
    pub secret : Decrypted
    pub json : Decrypted
    pub parsed : parse_setup_data env raw ≡ some kept
    pub opened : decrypt_with_rotation server kept.encrypted_secret ≡ some secret
    pub opened_codes : decrypt_with_rotation server kept.encrypted_plain_codes ≡ some json
    pub same_secret : shown.secret ≡ secret.secret
    pub same_codes : parse_plain_recovery_codes env json.secret ≡ some shown.recovery_codes

  pub show_again-Kept :
      (user : Account) (raw : Text) (w w' : State server) (shown : MfaSetupResult)
      → show_again server user raw w ≡ (ok shown, w')
      → Kept raw shown × (w' ≡ w)
  unfolding show_again
  show_again-Kept user raw w w' shown h = through h λ kept w1 e1 h1. through h1 λ secret w2 e2 h2.
      through h2 λ json w3 e3 h3. through h3 λ codes w4 e4 h4. through h4 λ uri w5 e5 h5.
        let i1 = or_throw_inv _ _ _ e1 in
        let i2 = or_throw_inv _ _ _ e2 in
        let i3 = or_throw_inv _ _ _ e3 in
        let i4 = or_throw_inv _ _ _ e4 in
        let i5 = or_throw_inv _ _ _ e5 in
        let last = pure_inv _ _ h5 in
        (
          record {
            kept = kept;
            secret = secret;
            json = json;
            parsed = i1.0;
            opened = i2.0;
            opened_codes = i3.0;
            same_secret = ap (λ x. x.secret) last.0;
            same_codes = i4.0 ∙ ap some (sym (ap (λ x. x.recovery_codes) last.0));
          },
          last.1 ∙ i5.1 ∙ i4.1 ∙ i3.1 ∙ i2.1 ∙ i1.1,
        )

  -- What two setups show of the same record is the same.
  pub Kept-unique :
      (raw : Text) (a b : MfaSetupResult)
      → Kept raw a
      → Kept raw b
      → (b.secret ≡ a.secret) × (b.recovery_codes ≡ a.recovery_codes)
  Kept-unique raw a b x y =
      let kept : y.kept ≡ x.kept = cc (x.parsed, y.parsed) in
      let secret : y.secret ≡ x.secret = cc (kept, x.opened, y.opened) in
      let json : y.json ≡ x.json = cc (kept, x.opened_codes, y.opened_codes) in
      (cc (secret, x.same_secret, y.same_secret), cc (json, x.same_codes, y.same_codes))

  setup_key-IsNoCount :
      (r : SetupRequest) (identifier : Text)
      → text_eq (lockout_key identifier) (key_of server r) ≡ false
  unfolding setup_key lockout_key
  setup_key-IsNoCount r identifier = refl

  -- The steps of a setup that goes through.
  pub setup_inv :
      (r : SetupRequest) (w w' : State server) (shown : MfaSetupResult)
      → setup server r w ≡ (ok shown, w')
      → (user : Account) × (v : State server) × (assert_plane_tenant server r.context r.tenant_id
          ≡ ok tt)
        × (fetch_user_for_context server r.context r.user_id r.tenant_id w.users ≡ ok user)
        × (user.safe.mfa_enabled ≡ false)
        × (v.users ≡ w.users)
        × (get v.store (key_of server r) ≡ get w.store (key_of server r))
        × (show_or_draw server r user (get w.store (key_of server r)) v ≡ (ok shown, w'))
  unfolding setup
  setup_inv r w w' shown h = through h λ fits w1 e1 h1. through h1 λ given w2 e2 h2.
      through h2 λ user w3 e3 h3. through h3 λ off w4 e4 h4. through h4 λ known w5 e5 h5.
        through h5 λ existing w6 e6 h6.
          let i1 = reply_inv _ _ e1 in
          let i3 = reply_inv _ _ e3 in
          let i4 = throw_if_inv _ _ _ e4 in
          let before : w2 ≡ w = (throw_if_inv _ _ _ e2).1 ∙ i1.1 in
          let read : w4 ≡ w = i4.1 ∙ i3.1 ∙ before in
          let i6 = reply_inv _ _ e6 in
          let keeps =
            assert_reauthenticated-keeps server (key_of server r) (setup_key-IsNoCount r) compare
              r.context r.user_id user.password_hash r.password r.tenant_id w4 w5 e5 in
          let kept : get w5.store (key_of server r) ≡ get w.store (key_of server r) =
            rw read at keeps.1 in
          let found : existing ≡ get w.store (key_of server r) = cc (i6.0, kept) in
          (
            user,
            w5,
            i1.0,
            rw before at i3.0,
            i4.0,
            rw read at keeps.0,
            kept,
            rw (found, i6.1) at h6,
          )
