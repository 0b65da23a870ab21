-- ===== src/Mfa/Gated.antt =====
-- services/mfa.service.ts: the steps that `disable` and `regenerateRecoveryCodes` share, from the
-- account that is read to the code that is accepted.
use nest_auth.Prelude.{
  ◌≡◌, refl, ◌∙◌, ap, sym, Bool, true, false, not, Option, none, some, Text, Result, ok,
  account_locked, mfa_not_enabled, token_invalid, arith,
}
use nest_auth.Prelude.Action.{
  Action, or_throw, throw_if, ◌>>=◌, ◌>>◌, through, reply_inv, throw_if_inv, or_throw_inv,
}
use nest_auth.Keys.{Plane}
use nest_auth.BruteForce.{reset_failures}
use nest_auth.Totp.{verify_totp}
use nest_auth.Users.{Account}
use nest_auth.Mfa.{
  Server, State, from_store, Flow, disable, Decrypted, stored_secret, on_both, legacy_counter,
  scoped_counter, is_mfa_flow_locked_out, reset_mfa_flow_failures, decrypt_with_rotation,
}
use nest_auth.Mfa.Codes.{scoped_replay_key, legacy_replay_key, verify_totp_with_anti_replay}
use nest_auth.Mfa.Replay.{outcome, unmarked, verify_totp_with_anti_replay-reply}
use nest_auth.Mfa.Challenge.{on_result_store, settle_code}
use nest_auth.Mfa.Challenge.Passes.{settled_valid}

-- A code that is accepted fits, and is new.
pub accepted_code :
    (o : Option Bool) (is_new : Bool)
    → outcome o is_new ≡ ok true
    → (o ≡ some true) × (is_new ≡ true)
accepted_code none is_new h = cc
accepted_code (some true) is_new h = (refl, cc)
accepted_code (some false) is_new h = cc

pub was_enabled : (b : Bool) → not b ≡ false → b ≡ true
was_enabled true h = refl
was_enabled false h = cc

module _ (server : Server) where
  open server use {env, clock, to_upper_case, hmac_sha1, totp_window}
  open server.env use {redis}
  open server.env.redis use {Store, get}

  users-on_both :
      (f : Text → Store → Result Store) (legacy scoped : Text) (w : State server)
      → (on_both server f legacy scoped w).1.users ≡ w.users
  users-on_both f legacy scoped w = ground arith

  pub users-reset_mfa_flow_failures :
      (flow : Flow) (context : Plane) (user_id : Text) (tenant_id : Option Text) (w : State server)
      → (reset_mfa_flow_failures server flow context user_id tenant_id w).1.users ≡ w.users
  unfolding reset_mfa_flow_failures
  users-reset_mfa_flow_failures flow context user_id tenant_id w =
      users-on_both (reset_failures redis server.max_attempts server.window_seconds)
        (legacy_counter server flow context user_id)
        (scoped_counter server flow context user_id tenant_id) w

  module _ (context : Plane) (user_id : Text) (tenant_id : Option Text) (code : Text)
      (user : Account) (w : State server) where
    -- The steps, before what follows them.
    abbrev pub gated : {B : Type 0} → Action (State server) B → Action (State server) B
    gated next = do
      throw_if (not user.safe.mfa_enabled) mfa_not_enabled
      locked ← from_store server (is_mfa_flow_locked_out server disable context user_id tenant_id)
      throw_if locked account_locked
      encrypted ← or_throw token_invalid (stored_secret user.mfa_secret)
      d ← or_throw token_invalid (decrypt_with_rotation server encrypted)
      valid ←
          on_result_store server
            (verify_totp_with_anti_replay server context user_id d.secret code tenant_id)
      settle_code server disable context user_id tenant_id valid
      next

    pub record Opened (w' : State server) : Type 0 where
      pub encrypted : Text
      pub d : Decrypted
      pub enabled : user.safe.mfa_enabled ≡ true
      pub unlocked :
          is_mfa_flow_locked_out server disable context user_id tenant_id w.store ≡ ok false
      pub stored : stored_secret user.mfa_secret ≡ some encrypted
      pub decrypted : decrypt_with_rotation server encrypted ≡ some d
      pub fits : verify_totp to_upper_case hmac_sha1 clock.now d.secret code totp_window ≡ some true
      pub is_new :
          unmarked redis
            (scoped_replay_key server context user_id tenant_id code)
            (legacy_replay_key server context user_id code)
            w.store
          ≡ true
      pub users_kept : w'.users ≡ w.users

    -- What follows runs only on an account with a second factor, with a code that is accepted.
    pub gated-Opened :
        {B : Type 0} (next : Action (State server) B) (b : B) (w' : State server)
        → gated next w ≡ (ok b, w')
        → (v : State server) × Opened v × (next v ≡ (ok b, w'))
    gated-Opened next b w' h = through h λ on w3 e3 h3. through h3 λ locked w4 e4 h4.
        through h4 λ free w5 e5 h5. through h5 λ encrypted w6 e6 h6. through h6 λ d w7 e7 h7.
          through h7 λ valid w8 e8 h8. through h8 λ settled w9 e9 h9.
            let i3 = throw_if_inv _ _ _ e3 in
            let i4 = reply_inv _ _ e4 in
            let i5 = throw_if_inv _ _ _ e5 in
            let i6 = or_throw_inv _ _ _ e6 in
            let i7 = or_throw_inv _ _ _ e7 in
            let i8 = reply_inv _ _ e8 in
            let i9 = settled_valid server disable context user_id tenant_id valid w8 w9 e9 in
            let start : w7 ≡ w = i7.1 ∙ i6.1 ∙ i5.1 ∙ i4.1 ∙ i3.1 in
            let accepted = accepted_code _ _ (
              sym (
                verify_totp_with_anti_replay-reply server context user_id d.secret code tenant_id
                  w7.store)
              ∙ i8.0
              ∙ ap ok i9.0) in
            let opened : Opened w9 = record {
              encrypted = encrypted;
              d = d;
              enabled = was_enabled user.safe.mfa_enabled i3.0;
              unlocked = cc (i4.0, i5.0, i3.1);
              stored = i6.0;
              decrypted = i7.0;
              fits = accepted.0;
              is_new = rw start at accepted.1;
              users_kept =
                  sym (ap (λ r. r.1.users) i9.1)
                  ∙ users-reset_mfa_flow_failures disable context user_id tenant_id w8
                  ∙ ap (λ v. v.users) i8.1
                  ∙ ap (λ v. v.users) start;
            } in
            (w9, opened, h9)
