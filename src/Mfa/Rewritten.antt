-- ===== src/Mfa/Rewritten.antt =====
-- services/mfa.service.ts: an account is read back as a transition has written it.
use nest_auth.Prelude.{
  ◌≡◌, refl, ◌∙◌, ap, sym, Bool, true, false, Option, none, some, [], ◌∷◌, Text, text_eq_refl,
  if◌then◌else◌, Result, ok, raise, arith, Bool-cases, inl, inr, mfa_state_conflict, token_invalid,
}
use nest_auth.Keys.{Plane, dashboard, platform}
use nest_auth.Users.{Account, MfaWrite, with_mfa, mapped}
use nest_auth.Mfa.{
  Server, State, assert_dashboard_tenant, found, unless_blocked, fetch_user_for_context,
}
use nest_auth.Mfa.Transition.{rewrite_account, committed, transition_mfa_record}
use nest_auth.Mfa.Locking.{is_held, transition_mfa_record-exclusive}

module _ (server : Server) where
  open server use {env, status, repositories, has_platform_repository}
  open server.repositories use {Users, find_user, find_admin}

  -- A write of the second factor does not change whether an account is blocked.
  unless_blocked-mapped :
      (o : Option Account) (write : MfaWrite) (user : Account)
      → unless_blocked server (found o) ≡ ok user
      → unless_blocked server (found (mapped (with_mfa write) o)) ≡ ok (with_mfa write user)
  unless_blocked-mapped none write user h = cc
  unless_blocked-mapped (some a) write user h = ground arith

  fetch-rewrite :
      (context : Plane) (user_id : Text) (tenant_id : Option Text) (u : Users) (user : Account)
      (write : MfaWrite)
      → fetch_user_for_context server context user_id tenant_id u ≡ ok user
      → let after = committed server context user_id tenant_id u (ok (some write)) in
        (after.0 ≡ ok true)
        × (fetch_user_for_context server context user_id tenant_id after.1
            ≡ ok (with_mfa write user))
  unfolding fetch_user_for_context assert_dashboard_tenant
  fetch-rewrite dashboard user_id none u user write h = cc
  fetch-rewrite dashboard user_id (some []) u user write h = cc
  fetch-rewrite dashboard user_id (some (c ∷ t)) u user write h = (
    refl,
    rw
        (
          repositories.find_user-update_user_mfa u (c ∷ t) user_id write (c ∷ t) user_id,
          text_eq_refl (c ∷ t),
          text_eq_refl user_id,
        )
        (unless_blocked-mapped (find_user u (c ∷ t) user_id) write user h),
  )
  fetch-rewrite platform user_id tenant_id u user write h =
      elim (Bool-cases has_platform_repository) [
        | inl given ↦ (
          refl,
          rw
              (
                given,
                repositories.find_admin-update_admin_mfa u user_id write user_id,
                text_eq_refl user_id,
              )
              (unless_blocked-mapped (find_admin u user_id) write user (rw given at h)),
        )
        | inr missing ↦ let refused : raise token_invalid ≡ ok user = rw missing at h in cc
      ]

  free_of :
      (held : Bool) (x : Result Bool) (b : Bool)
      → (if held then raise mfa_state_conflict else x) ≡ ok b
      → (held ≡ false) × (x ≡ ok b)
  free_of true x b h = cc
  free_of false x b h = (refl, h)

  chosen_of :
      (context : Plane) (user_id : Text) (tenant_id : Option Text) (u : Users)
      (m : Result (Option MfaWrite)) (b : Bool)
      → (committed server context user_id tenant_id u m).0 ≡ ok b
      → (o : Option MfaWrite) × (m ≡ ok o)
  chosen_of context user_id tenant_id u (raise code) b h = cc
  chosen_of context user_id tenant_id u (ok o) b h = (o, refl)

  module _ (context : Plane) (user_id : Text) (tenant_id : Option Text)
      (mutate : Account → Result (Option MfaWrite)) (lock_token : Text) (w : State server)
      (user : Account)
      (fetched : fetch_user_for_context server context user_id tenant_id w.users ≡ ok user) where
    abbrev ran : Result Bool × State server
    ran = transition_mfa_record server context user_id tenant_id mutate lock_token w

    rewrite-user :
        rewrite_account server context user_id tenant_id mutate w.users
        ≡ committed server context user_id tenant_id w.users (mutate user)
    unfolding rewrite_account
    rewrite-user = rw (rewrite_account, fetched) refl

    -- Where both locks are free, the account is read back as the transition wrote it.
    pub transition_mfa_record-writes :
        (write : MfaWrite)
        → is_held server context user_id tenant_id w.store ≡ false
        → mutate user ≡ ok (some write)
        → (ran.0 ≡ ok true)
          × (fetch_user_for_context server context user_id tenant_id ran.1.users
              ≡ ok (with_mfa write user))
    transition_mfa_record-writes write free chosen =
        let run =
          transition_mfa_record-exclusive server context user_id tenant_id mutate lock_token w in
        let done = fetch-rewrite context user_id tenant_id w.users user write fetched in
        (
          run.1 ∙ rw (free, rewrite-user, chosen) done.0,
          rw (run.2, free, rewrite-user, chosen) done.1,
        )

    -- A transition that does not throw found both locks free, and a choice.
    pub transition_mfa_record-ok :
        (b : Bool) (v : State server)
        → transition_mfa_record server context user_id tenant_id mutate lock_token w ≡ (ok b, v)
        → (is_held server context user_id tenant_id w.store ≡ false)
          × (o : Option MfaWrite) × (mutate user ≡ ok o)
    transition_mfa_record-ok b v h =
        let run =
          transition_mfa_record-exclusive server context user_id tenant_id mutate lock_token w in
        let reply : ran.0 ≡ ok b = ap (λ r. r.0) h in
        let free =
          free_of (is_held server context user_id tenant_id w.store) _ b (sym run.1 ∙ reply) in
        let (o, chosen) =
          chosen_of context user_id tenant_id w.users (mutate user) b
            (sym (ap (λ r. r.0) rewrite-user) ∙ free.1) in
        (free.0, o, chosen)
