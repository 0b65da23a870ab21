-- ===== src/Mfa/Enrolled.antt =====
-- services/mfa.service.ts: a setup that is begun can be finished, by `verifyAndEnable` with a code that
-- fits the secret which `setup` has shown.
use nest_auth.Prelude.{◌≡◌, refl, ◌∙◌, ap, sym, true, false, none, some, Text, map, ok}
use nest_auth.Totp.{verify_totp}
use nest_auth.Users.{Account, with_mfa}
use nest_auth.Mfa.{Server, State, Decrypted, fetch_user_for_context, decrypt_with_rotation}
use nest_auth.Mfa.Codes.{scoped_replay_key, legacy_replay_key}
use nest_auth.Mfa.Replay.{unmarked}
use nest_auth.Mfa.Locking.{is_held}
use nest_auth.Mfa.Setup.{MfaSetupResult, SetupRequest, key_of, setup}
use nest_auth.Mfa.Shown.{setup_inv}
use nest_auth.Mfa.Drawn.{CanEncrypt, first_setup-Kept}
use nest_auth.Mfa.Enabling.{Enablement, enabling_write, verify_and_enable}
use nest_auth.Mfa.EnablingRuns.{verify_and_enable-done}

-- The request that finishes a setup.
abbrev pub confirmation : SetupRequest → Text → Text → Enablement
confirmation r code lock_token = record {
  user_id = r.user_id;
  code = code;
  context = r.context;
  tenant_id = r.tenant_id;
  lock_token = lock_token;
}

module _ (server : Server) where
  open server use {env, clock, to_upper_case, hmac_sha1, totp_window}
  open server.env use {redis, hmac, hmac_key}
  open server.env.redis use {Store, get}

  -- Where a setup goes through with nothing kept before, and what it draws can be encrypted, then
  -- on every later state that still holds its record, and in which the account is found without a
  -- second factor, verifyAndEnable succeeds with every code that fits the secret that was shown,
  -- where neither mark of the code and neither lock of the account stands; the account then has
  -- the secret that was shown and the digests of the recovery codes that were shown, and the
  -- record of the setup is gone.
  pub setup-enrols :
      (r : SetupRequest) (w w' v : State server) (shown : MfaSetupResult) (user : Account)
      (code lock_token : Text)
      → CanEncrypt server r
      → setup server r w ≡ (ok shown, w')
      → get w.store (key_of server r) ≡ none
      → get v.store (key_of server r) ≡ get w'.store (key_of server r)
      → fetch_user_for_context server r.context r.user_id r.tenant_id v.users ≡ ok user
      → user.safe.mfa_enabled ≡ false
      → verify_totp to_upper_case hmac_sha1 clock.now shown.secret code totp_window ≡ some true
      → unmarked redis
          (scoped_replay_key server r.context r.user_id r.tenant_id code)
          (legacy_replay_key server r.context r.user_id code)
          v.store
        ≡ true
      → is_held server r.context r.user_id r.tenant_id v.store ≡ false
      → let run = verify_and_enable server (confirmation r code lock_token) v in
        (run.0 ≡ ok tt)
        × (user' : Account) × (encrypted : Text) × (d : Decrypted) × (fetch_user_for_context server
              r.context r.user_id r.tenant_id run.1.users
            ≡ ok user')
        × (user'.safe.mfa_enabled ≡ true)
        × (user'.mfa_secret ≡ some encrypted)
        × (decrypt_with_rotation server encrypted ≡ some d)
        × (d.secret ≡ shown.secret)
        × (user'.mfa_recovery_codes ≡ some (map (λ c. hmac c hmac_key) shown.recovery_codes))
        × (get run.1.store (key_of server r) ≡ none)
  setup-enrols r w w' v shown user code lock_token can h fresh stands fetched off fit is_new free =
      let (old, u, fits, _, _, _, same, begun) = setup_inv server r w w' shown h in
      let (raw, k, stood, _, hashed) =
        first_setup-Kept server r old u w' shown can (same ∙ fresh) (rw fresh at begun) in
      let e = confirmation r code lock_token in
      let fit' : verify_totp to_upper_case hmac_sha1 clock.now k.secret.secret code totp_window
          ≡ some true =
        rw k.same_secret at fit in
      let (done, read, gone) =
        verify_and_enable-done server e v user raw k.kept k.secret fits fetched off (stands ∙ stood)
          k.parsed k.opened fit' is_new free in
      (
        done,
        with_mfa (enabling_write k.kept) user,
        k.kept.encrypted_secret,
        k.secret,
        read,
        refl,
        refl,
        k.opened,
        sym k.same_secret,
        ap some hashed,
        gone,
      )
