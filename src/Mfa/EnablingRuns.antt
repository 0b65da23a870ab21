-- ===== src/Mfa/EnablingRuns.antt =====
-- services/mfa.service.ts: `verifyAndEnable` runs to its end where nothing stands in its way.
use nest_auth.Prelude.{
  ◌≡◌, refl, ◌∙◌, ap, ap₂, Bool, true, false, ◌||◌, Option, none, some, Text, ok, raise, text_eq,
  is_some, token_invalid, arith, Bool-cases, inl, inr, Result,
}
use nest_auth.Prelude.Action.{continue, proceed}
use nest_auth.Keys.{Plane, dashboard, platform}
use nest_auth.AuthRedis.Tickets.{getdel}
use nest_auth.Totp.{verify_totp}
use nest_auth.Users.{Account, with_mfa}
use nest_auth.Mfa.{
  Server, State, Decrypted, assert_plane_tenant, fetch_user_for_context, decrypt_with_rotation,
}
use nest_auth.Mfa.Codes.{scoped_replay_key, legacy_replay_key, verify_totp_with_anti_replay}
use nest_auth.Mfa.Replay.{unmarked, verify_totp_with_anti_replay-reply, marks-taken}
use nest_auth.Mfa.Transition.{scoped_lock_key, legacy_lock_key}
use nest_auth.Mfa.Locking.{is_held}
use nest_auth.Mfa.Rewritten.{transition_mfa_record-writes}
use nest_auth.Mfa.RecoveryCodes.{lacks_repository}
use nest_auth.Mfa.SetupData.{MfaSetupData, parse_setup_data}
use nest_auth.Mfa.Enabled.{users-enable_factor, get-enable_factor, get-getdel}
use nest_auth.Mfa.Enabling.{
  Enablement, enabling_write, setup_key, pending, enable_factor, verify_and_enable,
}

module _ (server : Server) where
  open server use {env, clock, to_upper_case, hmac_sha1, totp_window, has_platform_repository}
  open server.env use {redis, hmac, hmac_key}
  open server.env.redis use {Store, get}

  -- An administrator is found only where there is a repository of them.
  repository_given :
      (context : Plane) (user_id : Text) (tenant_id : Option Text) (u : server.repositories.Users)
      (user : Account)
      → fetch_user_for_context server context user_id tenant_id u ≡ ok user
      → lacks_repository server context ≡ false
  unfolding fetch_user_for_context
  repository_given dashboard user_id tenant_id u user h = refl
  repository_given platform user_id tenant_id u user h = elim (Bool-cases has_platform_repository) [
    | inl given ↦ rw given refl
    | inr missing ↦ let refused : raise token_invalid ≡ ok user = rw missing at h in cc
  ]

  get-getdel_apart :
      (k j : Text) (s : Store) → text_eq k j ≡ false → get (getdel env k s).1 j ≡ get s j
  unfolding getdel
  get-getdel_apart k j s apart = ground (arith, redis.get-del s k j, apart)

  pending-some : (k raw : Text) (s : Store) → get s k ≡ some raw → pending server k s ≡ ok raw
  pending-some k raw s h = rw (pending, h) refl

  module _ (r : Enablement) (w : State server) (user : Account) (raw : Text) (setup : MfaSetupData)
      (d : Decrypted) where
    abbrev pub kept_key : Text
    kept_key = setup_key server r.context r.user_id r.tenant_id

    abbrev pub check : Store → Result Bool × Store
    check = verify_totp_with_anti_replay server r.context r.user_id d.secret r.code r.tenant_id

    abbrev pub marked_store : Store
    marked_store = (check w.store).1

    abbrev pub taken_store : Store
    taken_store = (getdel env kept_key marked_store).1

    marks_apart :
        (text_eq (scoped_replay_key server r.context r.user_id r.tenant_id r.code) kept_key ≡ false)
        × (text_eq (legacy_replay_key server r.context r.user_id r.code) kept_key ≡ false)
    unfolding setup_key scoped_replay_key legacy_replay_key
    marks_apart = (refl, refl)

    -- Neither the marks nor the setup are locks.
    stands_kept :
        (j : Text)
        → text_eq (scoped_replay_key server r.context r.user_id r.tenant_id r.code) j ≡ false
        → text_eq (legacy_replay_key server r.context r.user_id r.code) j ≡ false
        → verify_totp to_upper_case hmac_sha1 clock.now d.secret r.code totp_window ≡ some true
        → is_some (get marked_store j) ≡ is_some (get w.store j)
    stands_kept j apart apart' fit =
        marks-taken server r.context r.user_id d.secret r.code r.tenant_id w.store j fit
        ∙ rw (apart, apart') refl

    held_kept :
        verify_totp to_upper_case hmac_sha1 clock.now d.secret r.code totp_window ≡ some true
        → is_held server r.context r.user_id r.tenant_id taken_store
          ≡ is_held server r.context r.user_id r.tenant_id w.store
    unfolding setup_key scoped_replay_key legacy_replay_key scoped_lock_key legacy_lock_key
    held_kept fit =
        let a = scoped_lock_key server r.context r.user_id r.tenant_id in
        let b = legacy_lock_key server r.context r.user_id in
        ap₂ (λ x y. x || y)
          (ap is_some (get-getdel_apart kept_key a marked_store refl) ∙ stands_kept a refl refl fit)
          (ap is_some (get-getdel_apart kept_key b marked_store refl) ∙ stands_kept b refl refl fit)

    module _ (fits : assert_plane_tenant server r.context r.tenant_id ≡ ok tt)
        (fetched : fetch_user_for_context server r.context r.user_id r.tenant_id w.users ≡ ok user)
        (off : user.safe.mfa_enabled ≡ false) (stood : get w.store kept_key ≡ some raw)
        (parsed : parse_setup_data env raw ≡ some setup)
        (opened : decrypt_with_rotation server setup.encrypted_secret ≡ some d)
        (fit : verify_totp to_upper_case hmac_sha1 clock.now d.secret r.code totp_window
          ≡ some true)
        (is_new : unmarked redis
            (scoped_replay_key server r.context r.user_id r.tenant_id r.code)
            (legacy_replay_key server r.context r.user_id r.code)
            w.store
          ≡ true)
        (free : is_held server r.context r.user_id r.tenant_id w.store ≡ false) where
      abbrev pub taken : State server
      taken = record w { store = taken_store }

      enable_factor-ok : (enable_factor server r setup taken).0 ≡ ok tt
      unfolding enable_factor continue
      enable_factor-ok =
          let done =
            transition_mfa_record-writes server r.context r.user_id r.tenant_id
              (λ current. ok (some (enabling_write setup))) r.lock_token taken user fetched
              (enabling_write setup) (held_kept fit ∙ free) refl in
          rw done.0 refl

      replied : (check w.store).0 ≡ ok true
      replied =
          verify_totp_with_anti_replay-reply server r.context r.user_id d.secret r.code r.tenant_id
            w.store
          ∙ rw (fit, is_new) refl

      still : is_some (get marked_store kept_key) ≡ true
      still = stands_kept kept_key marks_apart.0 marks_apart.1 fit ∙ rw stood refl

      found : (getdel env kept_key marked_store).0 ≡ get marked_store kept_key
      unfolding getdel
      found = refl

      verify_and_enable-runs : verify_and_enable server r w ≡ enable_factor server r setup taken
      unfolding verify_and_enable
      verify_and_enable-runs =
          let given = repository_given r.context r.user_id r.tenant_id w.users user fetched in
          proceed _ tt w (rw fits refl) (
            proceed _ tt w (rw given refl) (
              proceed _ user w (rw fetched refl) (
                proceed _ tt w (rw off refl) (
                  proceed _ raw w (ap (λ x. (x, w)) (pending-some kept_key raw w.store stood)) (
                    proceed _ setup w (rw parsed refl) (
                      proceed _ d w (rw opened refl) (
                        proceed _ true (record w { store = marked_store }) (rw replied refl)
                          (proceed _ tt (record w { store = marked_store }) refl
                            (proceed _ (get marked_store kept_key) taken (rw found refl)
                              (proceed _ tt taken (rw still refl) refl))))))))))

      enable_factor-done :
          enable_factor server r setup taken ≡ (ok tt, (enable_factor server r setup taken).1)
      enable_factor-done = ap (λ x. (x, (enable_factor server r setup taken).1)) enable_factor-ok

      -- Nothing is left to stop it: the reply, the account as it is read back, and the setup.
      pub verify_and_enable-done :
          let run = verify_and_enable server r w in
          (run.0 ≡ ok tt)
          × (fetch_user_for_context server r.context r.user_id r.tenant_id run.1.users
              ≡ ok (with_mfa (enabling_write setup) user))
          × (get run.1.store kept_key ≡ none)
      verify_and_enable-done = rw verify_and_enable-runs (
        enable_factor-ok,
        users-enable_factor server r setup taken _ user fetched enable_factor-done,
        get-enable_factor server r setup taken _ enable_factor-done
            ∙ get-getdel server kept_key marked_store,
      )
