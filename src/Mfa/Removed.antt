-- ===== src/Mfa/Removed.antt =====
-- services/mfa.service.ts: what is left after the second factor of an account is removed.
use nest_auth.Prelude.{
  ℕ, ◌+◌, ◌≡◌, refl, ◌∙◌, subst, true, false, ◌||◌, Option, none, some, Text, text_eq, contains,
  Result, ok, if◌then◌else◌, Bool-cases, inl, inr,
}
use nest_auth.Prelude.Action.{through, reply_inv}
use nest_auth.Keys.{
  Plane, dashboard, platform, Slot, live, grace, index, key, token_epoch_key, session_index_key,
  user_subject,
}
use nest_auth.Keys.Apart.{same_slot}
use nest_auth.AuthRedis.Counters.{
  IsCounter, get_user_token_epoch, bump_user_token_epoch, bump_user_token_epoch_lem,
}
use nest_auth.AuthRedis.Sweeps.Effects.{sweep-kills, sweep-keeps}
use nest_auth.AuthRedis.Sweeps.Apart.{get-sweep_apart}
use nest_auth.AuthRedis.Sessions.{invalidate_user_sessions}
use nest_auth.AuthRedis.Sessions.Everywhere.{invalidate-sweep}
use nest_auth.Users.{Account, MfaWrite, with_mfa}
use nest_auth.Mfa.{Server, State, fetch_user_for_context}
use nest_auth.Mfa.Transition.{scoped_lock_key, legacy_lock_key, transition_mfa_record}
use nest_auth.Mfa.Locking.{transition_mfa_record-exclusive}
use nest_auth.Mfa.LockSets.{mem-transition_mfa_record}
use nest_auth.Mfa.Rewritten.{transition_mfa_record-writes, transition_mfa_record-ok}
use nest_auth.Mfa.Removal.{cleared_mfa, remove_factor, reset_mfa}

epoch_key-apart :
    (hmac : Text → Text → Text) (k : Text) (p q : Plane) (user_id : Text) (tenant_id : Option Text)
    (a : Slot) (x : Text)
    → text_eq (key p a x) (token_epoch_key hmac q user_id k tenant_id) ≡ false
unfolding key token_epoch_key
epoch_key-apart hmac k dashboard dashboard user_id tenant_id live x = refl
epoch_key-apart hmac k platform dashboard user_id tenant_id live x = refl
epoch_key-apart hmac k dashboard platform user_id tenant_id live x = refl
epoch_key-apart hmac k platform platform user_id tenant_id live x = refl
epoch_key-apart hmac k _ _ user_id tenant_id _ x = refl

key-epoch_key :
    (hmac : Text → Text → Text) (k : Text) (p q : Plane) (user_id : Text) (tenant_id : Option Text)
    (a : Slot) (x : Text)
    → text_eq (token_epoch_key hmac q user_id k tenant_id) (key p a x) ≡ false
unfolding key token_epoch_key
key-epoch_key hmac k dashboard dashboard user_id tenant_id live x = refl
key-epoch_key hmac k platform dashboard user_id tenant_id live x = refl
key-epoch_key hmac k dashboard platform user_id tenant_id live x = refl
key-epoch_key hmac k platform platform user_id tenant_id live x = refl
key-epoch_key hmac k _ _ user_id tenant_id _ x = refl

module _ (server : Server) where
  open server use {env}
  open server.env use {redis, hmac, hmac_key}
  open server.env.redis use {Store, get, smembers}

  lock-key :
      (context plane : Plane) (user_id : Text) (tenant_id : Option Text) (x : Text)
      → (text_eq (scoped_lock_key server context user_id tenant_id) (key plane index x) ≡ false)
        × (text_eq (legacy_lock_key server context user_id) (key plane index x) ≡ false)
  unfolding key scoped_lock_key legacy_lock_key
  lock-key context dashboard user_id tenant_id x = (refl, refl)
  lock-key context platform user_id tenant_id x = (refl, refl)

  module _ (context : Plane) (user_id : Text) (tenant_id : Option Text) (lock_token : Text)
      (w w' : State server) where
    abbrev epoch : Store → ℕ
    epoch s = get_user_token_epoch env user_id tenant_id context s

    abbrev epoch_key : Text
    epoch_key = token_epoch_key hmac context user_id hmac_key tenant_id

    abbrev index_here : Text
    index_here = key context index (hmac (user_subject context user_id tenant_id) hmac_key)

    abbrev swept : Store → Store
    swept s = invalidate_user_sessions env user_id tenant_id context s

    get-swept : (s : Store) → get (swept s) epoch_key ≡ get s epoch_key
    get-swept s = rw (invalidate-sweep env context user_id tenant_id s) (
        get-sweep_apart redis context (hmac (user_subject context user_id tenant_id) hmac_key)
          epoch_key (epoch_key-apart hmac hmac_key context context user_id tenant_id) s)

    swept-kills :
        (s : Store) (a : Slot) (x : Text)
        → same_slot live a || same_slot grace a ≡ true
        → contains
            (smembers s (session_index_key hmac context user_id hmac_key tenant_id))
            (key context a x)
          ≡ true
        → get (swept s) (key context a x) ≡ none
    unfolding session_index_key
    swept-kills s a x h c = rw (invalidate-sweep env context user_id tenant_id s) (
        sweep-kills redis context (hmac (user_subject context user_id tenant_id) hmac_key) s a x h
          c)

    get-swept_slot :
        (s : Store) (a : Slot) (x : Text)
        → same_slot live a || same_slot grace a ≡ true
        → get (swept s) (key context a x) ≡ (
            if contains
              (smembers s (session_index_key hmac context user_id hmac_key tenant_id))
              (key context a x)
            then none
            else get s (key context a x))
    unfolding session_index_key
    get-swept_slot s a x h =
        elim (Bool-cases (contains (smembers s index_here) (key context a x))) [
          | inl named ↦ rw named (swept-kills s a x h named)
          | inr unnamed ↦
              rw (unnamed, invalidate-sweep env context user_id tenant_id s)
                (sweep-keeps redis context (hmac (user_subject context user_id tenant_id) hmac_key)
                  s a x h unnamed)
        ]

    abbrev bumped : Store → Store
    bumped s = (bump_user_token_epoch env user_id tenant_id context (swept s)).1

    epoch-bumped :
        (s0 s : Store)
        → get s epoch_key ≡ get s0 epoch_key
        → IsCounter env (get s0 epoch_key)
        → epoch (bumped s) ≡ epoch s0 + 1
    unfolding get_user_token_epoch
    epoch-bumped s0 s same counter =
        let kept : get (swept s) epoch_key ≡ get s0 epoch_key = get-swept s ∙ same in
        (bump_user_token_epoch_lem env user_id tenant_id context (swept s) (rw kept counter)).1
        ∙ rw kept refl

    -- What the keys of a slot hold once those that the index names are gone.
    abbrev pub after_sweep : Store → Slot → Text → Option Text
    after_sweep s a x =
        if contains (smembers s (session_index_key hmac context user_id hmac_key tenant_id))
          (key context a x)
        then none
        else get s (key context a x)

    get-bumped :
        (s : Store) (a : Slot) (x : Text)
        → IsCounter env (get s epoch_key)
        → same_slot live a || same_slot grace a ≡ true
        → get (bumped s) (key context a x) ≡ after_sweep s a x
    get-bumped s a x counter h =
        (bump_user_token_epoch_lem env user_id tenant_id context (swept s)
            (rw (get-swept s) counter)).3
          (key context a x) (key-epoch_key hmac hmac_key context context user_id tenant_id a x)
        ∙ get-swept_slot s a x h

    abbrev clearing : Account → Result (Option MfaWrite)
    clearing current = ok (some cleared_mfa)

    sets_kept :
        (x : Text)
        → contains
            (smembers
              (transition_mfa_record server context user_id tenant_id clearing lock_token w).1.store
              index_here)
            x
          ≡ contains (smembers w.store index_here) x
    sets_kept x =
        let apart =
          lock-key context context user_id tenant_id
            (hmac (user_subject context user_id tenant_id) hmac_key) in
        mem-transition_mfa_record server context user_id tenant_id clearing lock_token w index_here
          x apart.0 apart.1

    -- The removal clears the account, moves the epoch by one, and ends the sessions of the index.
    remove_factor-ends :
        (user : Account)
        → fetch_user_for_context server context user_id tenant_id w.users ≡ ok user
        → remove_factor server context user_id tenant_id lock_token w ≡ (ok tt, w')
        → IsCounter env (get w.store (token_epoch_key hmac context user_id hmac_key tenant_id))
        → (fetch_user_for_context server context user_id tenant_id w'.users
            ≡ ok (with_mfa cleared_mfa user))
          × (get_user_token_epoch env user_id tenant_id context w'.store
              ≡ get_user_token_epoch env user_id tenant_id context w.store + 1)
          × ((x : Text)
              → (get w'.store (key context live x) ≡ after_sweep w.store live x)
                × (get w'.store (key context grace x) ≡ after_sweep w.store grace x))
    unfolding remove_factor session_index_key
    remove_factor-ends user fetched h counter = through h λ b v e k.
        let run =
          transition_mfa_record-exclusive server context user_id tenant_id clearing lock_token w in
        let free =
          transition_mfa_record-ok server context user_id tenant_id clearing lock_token w user
            fetched b v e in
        let written =
          transition_mfa_record-writes server context user_id tenant_id clearing lock_token w user
            fetched cleared_mfa free.0 refl in
        let same : get v.store epoch_key ≡ get w.store epoch_key =
          subst (λ r. get r.1.store epoch_key ≡ get w.store epoch_key) e (run.0 epoch_key) in
        let strings : (j : Text) → get v.store j ≡ get w.store j =
          λ j. subst (λ r. get r.1.store j ≡ get w.store j) e (run.0 j) in
        let listed : (m : Text)
            → contains (smembers v.store index_here) m ≡ contains (smembers w.store index_here) m =
          λ m.
            subst
              (λ r.
                contains (smembers r.1.store index_here) m
                ≡ contains (smembers w.store index_here) m)
              e (sets_kept m) in
        let ended : (a : Slot) (x : Text)
            → same_slot live a || same_slot grace a ≡ true
            → get (bumped v.store) (key context a x) ≡ after_sweep w.store a x =
          λ a x h_slot.
            get-bumped v.store a x (rw same counter) h_slot
            ∙ rw (listed (key context a x), strings (key context a x)) refl in
        rw (reply_inv (ok tt) _ k).1 (
          subst
              (λ r.
                fetch_user_for_context server context user_id tenant_id r.1.users
                ≡ ok (with_mfa cleared_mfa user))
              e written.1,
          epoch-bumped w.store v.store same counter,
          λ x. (ended live x refl, ended grace x refl),
        )

    -- Where resetMfa goes through on an account that has a second factor and whose epoch is a
    -- counter, the account is read back without a second factor, the epoch of the user is one
    -- higher, and every session and grace pointer that the index of the user named is gone, while
    -- those that it did not name are as they were.
    pub reset_mfa-ends :
        (user : Account)
        → reset_mfa server context user_id tenant_id lock_token w ≡ (ok tt, w')
        → fetch_user_for_context server context user_id tenant_id w.users ≡ ok user
        → user.safe.mfa_enabled ≡ true
        → IsCounter env (get w.store (token_epoch_key hmac context user_id hmac_key tenant_id))
        → (fetch_user_for_context server context user_id tenant_id w'.users
            ≡ ok (with_mfa cleared_mfa user))
          × (get_user_token_epoch env user_id tenant_id context w'.store
              ≡ get_user_token_epoch env user_id tenant_id context w.store + 1)
          × ((x : Text)
              → (get w'.store (key context live x) ≡ after_sweep w.store live x)
                × (get w'.store (key context grace x) ≡ after_sweep w.store grace x))
    unfolding reset_mfa
    reset_mfa-ends user h fetched enabled counter = through h λ fits v e k.
        through k λ user' v' e' k'.
          let i = reply_inv _ _ e in
          let i' = reply_inv _ _ e' in
          let same : user' ≡ user = cc (i'.0, i.1, fetched) in
          remove_factor-ends user fetched (rw (i'.1, i.1, same, enabled) at k') counter
