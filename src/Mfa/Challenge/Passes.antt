-- ===== src/Mfa/Challenge/Passes.antt =====
-- services/mfa.service.ts: what has happened where a challenge passes.
use nest_auth.Prelude.{
  ◌≡◌, refl, Bool, true, false, not, Option, some, Text, is_some, Result, ok, arith,
}
use nest_auth.Prelude.Action.{through, throw_if_inv, or_throw_inv, reply_inv, pure_inv}
use nest_auth.TokenManager.MfaTemp.{
  MfaTempToken, mfa_key, verify_mfa_temp_token, consume_mfa_temp_token,
}
use nest_auth.Keys.{Plane}
use nest_auth.Mfa.{
  Server, State, on_store, Flow, challenge, Decrypted, is_mfa_flow_locked_out,
  reset_mfa_flow_failures, fetch_user_for_context, decrypt_with_rotation,
}
use nest_auth.Mfa.Challenge.{
  Attempt, Passed, enabled_secret, used_recovery_index, check_code, settle_code, spend,
  pass_challenge,
}

module _ (server : Server) where
  open server use {env, verification}
  open server.env use {redis}
  open server.env.redis use {Store, get, del}

  -- The steps of a challenge that passes, with the states between them.
  pub record Passes (a : Attempt) (w : State server) (p : Passed) (w' : State server) : Type 0 where
    pub encrypted : Text
    pub d : Decrypted
    pub checked : State server
    pub cleared : State server
    pub verified : verify_mfa_temp_token env verification a.mfa_temp_token w.store ≡ ok p.token
    pub unlocked :
        is_mfa_flow_locked_out server challenge p.token.context p.token.user_id p.token.tenant_id
          w.store
        ≡ ok false
    pub fetched :
        fetch_user_for_context server p.token.context p.token.user_id p.token.tenant_id w.users
        ≡ ok p.user
    pub enabled : enabled_secret server p.user ≡ some encrypted
    pub opened : decrypt_with_rotation server encrypted ≡ some d
    pub valid :
        check_code server p.token d.secret a.code (used_recovery_index server p.user a.code) w
        ≡ (ok true, checked)
    pub reset :
        reset_mfa_flow_failures server challenge p.token.context p.token.user_id p.token.tenant_id
          checked
        ≡ (ok tt, cleared)
    pub stood : is_some (get cleared.store (mfa_key env p.token.jti)) ≡ true
    pub spent :
        spend server a p.token p.user d
          (used_recovery_index server p.user a.code)
          (record cleared { store = del cleared.store (mfa_key env p.token.jti) })
        ≡ (ok tt, w')

  pub settled_valid :
      (flow : Flow) (context : Plane) (user_id : Text) (tenant_id : Option Text) (b : Bool)
      (w w' : State server) {r : Unit {0}}
      → settle_code server flow context user_id tenant_id b w ≡ (ok r, w')
      → (b ≡ true) × (reset_mfa_flow_failures server flow context user_id tenant_id w ≡ (ok tt, w'))
  unfolding settle_code
  settled_valid flow context user_id tenant_id true w w' h = (refl, h)
  settled_valid flow context user_id tenant_id false w w' h = through h λ r v e k. cc

  was_true : (b c : Bool) → ◌≡◌ {A = Result Bool} (ok b) (ok c) → not c ≡ false → b ≡ true
  was_true b c h k = ground arith

  consumed_token :
      (t : MfaTempToken) (w w' : State server) (b : Bool)
      → on_store server (consume_mfa_temp_token env t.jti) w ≡ (ok b, w')
      → not b ≡ false
      → (is_some (get w.store (mfa_key env t.jti)) ≡ true)
        × (w' ≡ record w { store = del w.store (mfa_key env t.jti) })
  unfolding consume_mfa_temp_token
  consumed_token t w w' b h k =
      let (reply, state) = reply_inv _ _ h in (was_true _ b reply k, state)

  pub pass_challenge-Passes :
      (a : Attempt) (w : State server) {p : Passed} {w' : State server}
      → pass_challenge server a w ≡ (ok p, w')
      → Passes a w p w'
  unfolding pass_challenge
  pass_challenge-Passes a w {p} {w'} h = through h λ token w1 e1 h1. through h1 λ locked w2 e2 h2.
      through h2 λ unlocked w3 e3 h3. through h3 λ user w4 e4 h4. through h4 λ encrypted w5 e5 h5.
        through h5 λ d w6 e6 h6. through h6 λ valid w7 e7 h7. through h7 λ settled w8 e8 h8.
          through h8 λ consumed w9 e9 h9. through h9 λ fresh w10 e10 h10.
            through h10 λ spent w11 e11 h11.
              let i1 = reply_inv _ _ e1 in
              let i2 = reply_inv _ _ e2 in
              let i3 = throw_if_inv _ _ _ e3 in
              let i4 = reply_inv _ _ e4 in
              let i5 = or_throw_inv _ _ _ e5 in
              let i6 = or_throw_inv _ _ _ e6 in
              let i8 =
                settled_valid challenge token.context token.user_id token.tenant_id valid w7 w8
                  e8 in
              let i10 = throw_if_inv _ _ _ e10 in
              let i9 = consumed_token token w8 w9 consumed e9 i10.0 in
              let i11 = pure_inv _ _ h11 in
              rw (i11.0, i11.1)
                (record {
                  encrypted = encrypted;
                  d = d;
                  checked = w7;
                  cleared = w8;
                  verified = i1.0;
                  unlocked = cc (i1.1, i2.0, i3.0);
                  fetched = cc (i4.0, i3.1, i2.1, i1.1);
                  enabled = i5.0;
                  opened = i6.0;
                  valid = cc (e7, i8.0, i6.1, i5.1, i4.1, i3.1, i2.1, i1.1);
                  reset = i8.1;
                  stood = i9.0;
                  spent = cc (e11, i10.1, i9.1);
                })
