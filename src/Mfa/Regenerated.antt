-- ===== src/Mfa/Regenerated.antt =====
-- services/mfa.service.ts: the account after its recovery codes are replaced.
use nest_auth.Prelude.{
  ℕ, zero, suc, ◌≡◌, refl, ◌∙◌, subst, true, false, some, List, [], ◌∷◌, map, Text, is_some, length,
  contains, All, All-contains, text_eq, text_eq_refl, text_eq_iff, eq_of_text_eq, ok, arith,
  Bool-cases, inl, inr,
}
use nest_auth.Prelude.Action.{through, reply_inv, throw_if_inv, pure_inv}
use nest_auth.Totp.{verify_totp}
use nest_auth.Users.{Account, MfaWrite, with_mfa}
use nest_auth.Mfa.{
  Server, State, disable, Decrypted, is_mfa_flow_locked_out, fetch_user_for_context,
  decrypt_with_rotation, stored_secret,
}
use nest_auth.Mfa.Codes.{first_match, verify_recovery_code, scoped_replay_key, legacy_replay_key}
use nest_auth.Mfa.Replay.{unmarked}
use nest_auth.Mfa.Challenge.{codes_of}
use nest_auth.Mfa.Rewritten.{transition_mfa_record-writes, transition_mfa_record-ok}
use nest_auth.Mfa.Gated.{gated-Opened}
use nest_auth.Mfa.RecoveryCodes.{
  count_or_default, CodeSet, Regeneration, hash_recovery_codes, replace_codes, write_codes,
  regenerate_recovery_codes,
}

-- A digest that is in the list is found.
first_match-head :
    (c : Text) (rest hashed : List Text)
    → contains hashed c ≡ true
    → is_some (first_match (c ∷ rest) hashed) ≡ true
unfolding first_match
first_match-head c rest [] h = h
first_match-head c rest (digest ∷ hashed) h =
    let later = first_match-head c rest hashed in
    ground (arith, text_eq_iff c digest, text_eq_iff digest c, later)

contains-digests :
    (hmac : Text → Text) (codes : List Text) (code : Text)
    → contains codes code ≡ true
    → contains (map hmac codes) (hmac code) ≡ true
contains-digests hmac [] code h = h
contains-digests hmac (c ∷ codes) code h = elim (Bool-cases (text_eq c code)) [
  | inl same ↦ rw (eq_of_text_eq c code same, text_eq_refl (hmac code)) refl
  | inr other ↦
      let later = contains-digests hmac codes code (rw other at h) in ground (arith, later)
]

abbrev new_codes : List Text → Account → MfaWrite
new_codes hashed user = record {
  mfa_enabled = true;
  mfa_secret = user.mfa_secret;
  mfa_recovery_codes = some hashed;
}

module _ (server : Server) where
  open server use {env, clock, to_upper_case, hmac_sha1, totp_window, recovery_code_count}
  open server.env use {redis, hmac, hmac_key}
  open server.env.redis use {Store}

  -- The codes that are shown, as many as asked for, and their digests.
  pub hash_recovery_codes_lem :
      (draws : ℕ → List ℕ) (i n : ℕ)
      → let set = hash_recovery_codes server draws i n in
        (length set.plain_codes ≡ n)
        × (set.hashed_codes ≡ map (λ code. hmac code hmac_key) set.plain_codes)
  unfolding hash_recovery_codes
  hash_recovery_codes_lem draws i zero = (refl, refl)
  hash_recovery_codes_lem draws i (suc n) =
      let rest = hash_recovery_codes_lem draws (suc i) n in (rw rest.0 refl, rw rest.1 refl)

  verify-digests :
      (codes : List Text) (code : Text)
      → contains codes code ≡ true
      → is_some (verify_recovery_code server code (map (λ code. hmac code hmac_key) codes)) ≡ true
  unfolding verify_recovery_code
  verify-digests codes code h =
      first_match-head (hmac code hmac_key) _ _
        (contains-digests (λ code. hmac code hmac_key) codes code h)

  replace_codes-enabled :
      (hashed : List Text) (user : Account)
      → user.safe.mfa_enabled ≡ true
      → replace_codes server hashed user ≡ ok (some (new_codes hashed user))
  replace_codes-enabled hashed user enabled = rw enabled refl

  write_codes-writes :
      (r : Regeneration) (set : CodeSet) (w w' : State server) (user : Account) (codes : List Text)
      → fetch_user_for_context server r.context r.user_id r.tenant_id w.users ≡ ok user
      → user.safe.mfa_enabled ≡ true
      → write_codes server r set w ≡ (ok codes, w')
      → (codes ≡ set.plain_codes)
        × (user' : Account) × (fetch_user_for_context server r.context r.user_id r.tenant_id
              w'.users
            ≡ ok user')
        × (user'.safe.mfa_enabled ≡ true)
        × (user'.mfa_secret ≡ user.mfa_secret)
        × (user'.mfa_recovery_codes ≡ some set.hashed_codes)
  unfolding write_codes
  write_codes-writes r set w w' user codes fetched enabled h = through h λ b v e k.
      through k λ checked v' e' k'.
        let choice = replace_codes-enabled set.hashed_codes user enabled in
        let free =
          transition_mfa_record-ok server r.context r.user_id r.tenant_id _ r.lock_token w user
            fetched b v e in
        let done =
          transition_mfa_record-writes server r.context r.user_id r.tenant_id _ r.lock_token w user
            fetched _ free.0 choice in
        let last = pure_inv _ _ k' in
        (
          last.0,
          with_mfa (new_codes set.hashed_codes user) user,
          rw (last.1, (throw_if_inv _ _ _ e').1)
              (subst
                (λ p.
                  fetch_user_for_context server r.context r.user_id r.tenant_id p.1.users
                  ≡ ok (with_mfa (new_codes set.hashed_codes user) user))
                e done.1),
          refl,
          refl,
          refl,
        )

  -- Where regenerateRecoveryCodes goes through, the account had a second factor, the flow was not
  -- locked out, the code fits the stored secret and neither of its marks stood; it shows as many
  -- codes as are configured, the account is read back with the secret it had and with the digests
  -- of exactly the shown codes, and each of the shown codes is then found among them.
  pub regenerate_recovery_codes-replaces :
      (r : Regeneration) (w w' : State server) (codes : List Text)
      → regenerate_recovery_codes server r w ≡ (ok codes, w')
      → (user : Account) × (encrypted : Text) × (d : Decrypted) × (user' : Account)
        × (fetch_user_for_context server r.context r.user_id r.tenant_id w.users ≡ ok user)
        × (user.safe.mfa_enabled ≡ true)
        × (is_mfa_flow_locked_out server disable r.context r.user_id r.tenant_id w.store ≡ ok false)
        × (stored_secret user.mfa_secret ≡ some encrypted)
        × (decrypt_with_rotation server encrypted ≡ some d)
        × (verify_totp to_upper_case hmac_sha1 clock.now d.secret r.totp_code totp_window
            ≡ some true)
        × (unmarked redis
              (scoped_replay_key server r.context r.user_id r.tenant_id r.totp_code)
              (legacy_replay_key server r.context r.user_id r.totp_code)
              w.store
            ≡ true)
        × (length codes ≡ count_or_default recovery_code_count)
        × (fetch_user_for_context server r.context r.user_id r.tenant_id w'.users ≡ ok user')
        × (user'.safe.mfa_enabled ≡ true)
        × (user'.mfa_secret ≡ user.mfa_secret)
        × (user'.mfa_recovery_codes ≡ some (map (λ c. hmac c hmac_key) codes))
        × All
            (λ code.
              is_some (verify_recovery_code server code (codes_of user'.mfa_recovery_codes)) ≡ true)
            codes
  unfolding regenerate_recovery_codes
  regenerate_recovery_codes-replaces r w w' codes h = through h λ fits w1 e1 h1.
      through h1 λ given w0 e0 h0. through h0 λ user w2 e2 h2.
        let i1 = reply_inv _ _ e1 in
        let i0 = throw_if_inv _ _ _ e0 in
        let i2 = reply_inv _ _ e2 in
        let before : w2 ≡ w = i2.1 ∙ i0.1 ∙ i1.1 in
        let fetched : fetch_user_for_context server r.context r.user_id r.tenant_id w.users
            ≡ ok user =
          rw (i0.1, i1.1) at i2.0 in
        let (v, o, k) =
          gated-Opened server r.context r.user_id r.tenant_id r.totp_code user w _ codes w'
            (rw before at h2) in
        let n = count_or_default recovery_code_count in
        let hashed = hash_recovery_codes_lem r.draws 0 n in
        let (same, user', fetched', on', secret, replaced) =
          write_codes-writes r (hash_recovery_codes server r.draws 0 n) v w' user codes
            (rw o.users_kept fetched) o.enabled k in
        let digests : user'.mfa_recovery_codes ≡ some (map (λ c. hmac c hmac_key) codes) =
          replaced ∙ rw (hashed.1, same) refl in
        (
          user,
          o.encrypted,
          o.d,
          user',
          fetched,
          o.enabled,
          o.unlocked,
          o.stored,
          o.decrypted,
          o.fits,
          o.is_new,
          rw same hashed.0,
          fetched',
          on',
          secret,
          digests,
          rw digests (All-contains _ codes (verify-digests codes)),
        )
