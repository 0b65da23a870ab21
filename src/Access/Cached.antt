-- ===== src/Access/Cached.antt =====
-- The cache of an account's status.
use nest_auth.Prelude.{
  ℕ, suc, ◌≡◌, refl, ◌∙◌, ap, subst, true, false, ◌||◌, text_eq, if◌then◌else◌, Option, none, some,
  Text, text_eq_refl, Bool-cases, inl, inr,
}
use nest_auth.Json.{Platform}
use nest_auth.Access.Status.{
  UserRecord, StatusOptions, flag, decide, status_key, verified_key, remember, invalidate, is_blank,
  assert_dashboard_account_usable,
}

module _ (env : Platform) where
  open env use {redis, hmac, hmac_key}
  open redis use {Store, get, set, del}

  asked :
      (options : StatusOptions) (user_id tenant_id : Text) (user : UserRecord) (s : Store)
      → options.find_user user_id tenant_id ≡ some user
      → get s (status_key env user_id tenant_id) ≡ none
      → assert_dashboard_account_usable env options user_id tenant_id s ≡ (
        decide options user.status (some (flag user.email_verified)),
        remember env options user_id tenant_id user s,
      )
  unfolding assert_dashboard_account_usable
  asked options user_id tenant_id user s found absent =
      rw (assert_dashboard_account_usable, absent, found) refl

  status-remember :
      (options : StatusOptions) (user_id tenant_id : Text) (user : UserRecord) (t : ℕ) (s : Store)
      → options.user_status_cache_ttl_seconds ≡ suc t
      → get (remember env options user_id tenant_id user s) (status_key env user_id tenant_id)
        ≡ some user.status
  unfolding remember status_key verified_key
  status-remember options user_id tenant_id user t s lives =
      elim (Bool-cases options.email_verification_required) [
        | inl required ↦
            rw (required, lives)
              (redis.get-set _ _ _ t _ ∙ redis.get-set _ _ _ t _ ∙ rw text_eq_refl refl)
        | inr free ↦ rw (free, lives) (redis.get-set _ _ _ t _ ∙ rw text_eq_refl refl)
      ]

  verified-remember :
      (options : StatusOptions) (user_id tenant_id : Text) (user : UserRecord) (t : ℕ) (s : Store)
      → options.user_status_cache_ttl_seconds ≡ suc t
      → options.email_verification_required ≡ true
      → get (remember env options user_id tenant_id user s) (verified_key env user_id tenant_id)
        ≡ some (flag user.email_verified)
  unfolding remember
  verified-remember options user_id tenant_id user t s lives required =
      rw (required, lives) (redis.get-set _ _ _ t _ ∙ rw text_eq_refl refl)

  -- Where both values are there, no repository is asked.
  read_back :
      (options : StatusOptions) (user_id tenant_id status verified : Text) (s : Store)
      → get s (status_key env user_id tenant_id) ≡ some status
      → (options.email_verification_required ≡ true
          → get s (verified_key env user_id tenant_id) ≡ some verified)
      → assert_dashboard_account_usable env options user_id tenant_id s
        ≡ (decide options status (some verified), s)
  unfolding assert_dashboard_account_usable decide
  read_back options user_id tenant_id status verified s there flagged =
      elim (Bool-cases options.email_verification_required) [
        | inl required ↦
            rw (assert_dashboard_account_usable, there, required, flagged required) refl
        | inr free ↦ rw (assert_dashboard_account_usable, there, free) refl
      ]

  -- Where the status of an account is not cached and the repository knows the user,
  -- assertDashboardAccountUsable decides on the user's record, and asked again within the life of
  -- the cache it gives the same reply and leaves the store as it is, whatever the repository
  -- holds then.
  pub assert_dashboard_account_usable-cached :
      (options : StatusOptions) (other : Text → Text → Option UserRecord) (user_id tenant_id : Text)
      (user : UserRecord) (t : ℕ) (s : Store)
      → options.user_status_cache_ttl_seconds ≡ suc t
      → options.find_user user_id tenant_id ≡ some user
      → get s (status_key env user_id tenant_id) ≡ none
      → let run = assert_dashboard_account_usable env options user_id tenant_id s in
        (run.0 ≡ decide options user.status (some (flag user.email_verified)))
        × (assert_dashboard_account_usable env
              (record options { find_user = other })
              user_id
              tenant_id
              run.1
            ≡ run)
  unfolding decide
  assert_dashboard_account_usable-cached options other user_id tenant_id user t s lives found
        absent =
      rw (asked options user_id tenant_id user s found absent) (
        refl,
        read_back (record options { find_user = other }) user_id tenant_id user.status
            (flag user.email_verified) (remember env options user_id tenant_id user s)
            (status-remember options user_id tenant_id user t s lives)
            (verified-remember options user_id tenant_id user t s lives),
      )

  get-invalidate :
      (user_id tenant_id : Text) (s s' : Store) (j : Text)
      → invalidate env user_id tenant_id s ≡ some s'
      → get s' j ≡ (
          if text_eq (status_key env user_id tenant_id) j
          then none
          else if text_eq (verified_key env user_id tenant_id) j
          then none
          else get s j)
  unfolding invalidate
  get-invalidate user_id tenant_id s s' j h =
      elim (Bool-cases (is_blank user_id || is_blank tenant_id)) [
        | inl blank ↦ let refused : none ≡ some s' = rw blank at h in cc
        | inr named ↦
            let k = status_key env user_id tenant_id in
            let k' = verified_key env user_id tenant_id in
            let written : some (del (del s k') k) ≡ some s' = rw named at h in
            let same : del (del s k') k ≡ s' = cc written in
            subst
              (λ x.
                get x j ≡ (if text_eq k j then none else if text_eq k' j then none else get s j))
              same
              (redis.get-del (del s k') k j
                ∙ ap (λ o. if text_eq k j then none else o) (redis.get-del s k' j))
      ]

  -- After invalidate, for a repository that knows the user and a cache with a life,
  -- assertDashboardAccountUsable decides on the user's record as the repository holds it,
  -- whatever was cached, and asked again within the life of the cache it gives the same reply;
  -- the values under the keys of no such account are as they were.
  pub invalidate-refreshes :
      (options : StatusOptions) (other : Text → Text → Option UserRecord) (user_id tenant_id : Text)
      (user : UserRecord) (t : ℕ) (s s' : Store) (j : Text)
      → invalidate env user_id tenant_id s ≡ some s'
      → options.user_status_cache_ttl_seconds ≡ suc t
      → options.find_user user_id tenant_id ≡ some user
      → text_eq (status_key env user_id tenant_id) j ≡ false
      → text_eq (verified_key env user_id tenant_id) j ≡ false
      → let run = assert_dashboard_account_usable env options user_id tenant_id s' in
        (run.0 ≡ decide options user.status (some (flag user.email_verified)))
        × (assert_dashboard_account_usable env
              (record options { find_user = other })
              user_id
              tenant_id
              run.1
            ≡ run)
        × (get s' j ≡ get s j)
  invalidate-refreshes options other user_id tenant_id user t s s' j h lives found apart apart' =
      let k = status_key env user_id tenant_id in
      let absent : get s' k ≡ none =
        get-invalidate user_id tenant_id s s' k h ∙ rw (text_eq_refl k) refl in
      let cached =
        assert_dashboard_account_usable-cached options other user_id tenant_id user t s' lives found
          absent in
      (cached.0, cached.1, get-invalidate user_id tenant_id s s' j h ∙ rw (apart, apart') refl)
