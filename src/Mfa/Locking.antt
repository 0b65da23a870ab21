-- ===== src/Mfa/Locking.antt =====
-- services/mfa.service.ts: a transition runs alone, and gives its locks back.
use nest_auth.Prelude.{
  ◌≡◌, refl, ◌∙◌, Bool, true, false, ◌||◌, Option, none, some, Text, text_eq, text_eq_refl, is_some,
  if◌then◌else◌, Result, raise, mfa_state_conflict, arith, Bool-cases, Option-cases, inl, inr,
  text_eq_iff, eq_of_text_eq,
}
use nest_auth.Redis.{Redis}
use nest_auth.Keys.{Plane}
use nest_auth.AuthRedis.Claims.{
  set_if_absent, release_lock, set_if_absent-reply, get-set_if_absent, get-release_lock,
}
use nest_auth.Users.{Account, MfaWrite}
use nest_auth.Mfa.{Server, State}
use nest_auth.Mfa.Transition.{
  scoped_lock_key, legacy_lock_key, rewrite_account, transition_mfa_record,
}

module _ (r : Redis) (token : Text) where
  open r use {Store, get}

  abbrev take : Text → Store → Store
  take k s = (set_if_absent r k token 10 s).1

  abbrev give_back : Text → Store → Store
  give_back k s = release_lock r k token s

  settled :
      (k j : Text) (s : Store) (o : Option Text)
      → get s k ≡ none
      → (if text_eq k j then none else if text_eq k j then o else get s j) ≡ get s j
  settled k j s o free = ground (arith, text_eq_iff k j)

  get-take :
      (k : Text) (s : Store) (j : Text)
      → get s k ≡ none
      → get (take k s) j ≡ (if text_eq k j then some token else get s j)
  get-take k s j free = rw (get-set_if_absent r k token 9 s j, free) refl

  -- A lock that holds the token is dropped.
  get-give_back :
      (k : Text) (s : Store) (j : Text)
      → get s k ≡ some token
      → get (give_back k s) j ≡ (if text_eq k j then none else get s j)
  get-give_back k s j held = rw (get-release_lock r k token s j, held, text_eq_refl token) refl

  taken : (k : Text) (s : Store) → get s k ≡ none → get (take k s) k ≡ some token
  taken k s free = get-take k s k free ∙ rw (text_eq_refl k) refl

  -- A free lock is given back as it was.
  get-one :
      (k : Text) (s : Store) (j : Text) → get s k ≡ none → get (give_back k (take k s)) j ≡ get s j
  get-one k s j free =
      get-give_back k (take k s) j (taken k s free)
      ∙ rw (get-take k s j free) (settled k j s (some token) free)

  -- A lock that is taken stays as it is.
  get-held :
      (k : Text) (s : Store) (j : Text) → is_some (get s k) ≡ true → get (take k s) j ≡ get s j
  get-held k s j held =
      get-set_if_absent r k token 9 s j ∙ rw held (ground (arith, text_eq_iff k j))

  module _ (a b : Text) (s : Store) (apart : text_eq a b ≡ false) (free : get s a ≡ none) where
    beside : get (take a s) b ≡ get s b
    beside = get-take a s b free ∙ rw apart refl

    -- The first of two locks is given back where the second is not to be had.
    get-first :
        (j : Text) → is_some (get s b) ≡ true → get (give_back a (take b (take a s))) j ≡ get s j
    get-first j held =
        let held' : is_some (get (take a s) b) ≡ true = rw beside held in
        get-give_back a _ j (get-held b (take a s) a held' ∙ taken a s free)
        ∙ rw (get-held b (take a s) j held', get-take a s j free) (settled a j s (some token) free)

    get-both :
        (j : Text)
        → get s b ≡ none
        → get (give_back b (give_back a (take b (take a s)))) j ≡ get s j
    get-both j free' =
        let free'' : get (take a s) b ≡ none = beside ∙ free' in
        let held : get (take b (take a s)) a ≡ some token =
          get-take b (take a s) a free''
          ∙ rw (taken a s free) (ground (arith, text_eq_iff b a, text_eq_iff a b)) in
        let held' : get (give_back a (take b (take a s))) b ≡ some token =
          get-give_back a _ b held ∙ rw (apart, taken b (take a s) free'') refl in
        get-give_back b _ j held'
        ∙ rw (get-give_back a _ j held, get-take b (take a s) j free'', get-take a s j free)
            (ground (arith, text_eq_iff a j, text_eq_iff b j))

module _ (server : Server) where
  open server use {env}
  open server.env use {redis}
  open server.env.redis use {Store, get}

  -- One of the two locks of the account is taken.
  abbrev pub is_held : Plane → Text → Option Text → Store → Bool
  is_held context user_id tenant_id s =
      is_some (get s (scoped_lock_key server context user_id tenant_id))
      || is_some (get s (legacy_lock_key server context user_id))

  module _ (context : Plane) (user_id : Text) (tenant_id : Option Text)
      (mutate : Account → Result (Option MfaWrite)) (lock_token : Text) (w : State server) where
    abbrev scoped : Text
    scoped = scoped_lock_key server context user_id tenant_id

    abbrev legacy : Text
    legacy = legacy_lock_key server context user_id

    abbrev ran : Result Bool × State server
    ran = transition_mfa_record server context user_id tenant_id mutate lock_token w

    abbrev rewritten : Result Bool × server.repositories.Users
    rewritten = rewrite_account server context user_id tenant_id mutate w.users

    -- A transition whose run is as it should be.
    abbrev IsRun : Bool → Type 0
    IsRun held =
        ((j : Text) → get ran.1.store j ≡ get w.store j)
        × (ran.0 ≡ (if held then raise mfa_state_conflict else rewritten.0))
        × (ran.1.users ≡ (if held then w.users else rewritten.1))

    IsRun-held : is_some (get w.store scoped) ≡ true → IsRun true
    unfolding transition_mfa_record
    IsRun-held held =
        let reply = set_if_absent-reply redis scoped lock_token 10 w.store in
        (
          λ j. rw (reply, held) (get-held redis lock_token scoped w.store j held),
          rw (reply, held) refl,
          rw (reply, held) refl,
        )

    IsRun-alone : get w.store scoped ≡ none → text_eq legacy scoped ≡ true → IsRun false
    unfolding transition_mfa_record
    IsRun-alone free same =
        let reply = set_if_absent-reply redis scoped lock_token 10 w.store in
        (
          λ j. rw (reply, free, same) (get-one redis lock_token scoped w.store j free),
          rw (reply, free, same) refl,
          rw (reply, free, same) refl,
        )

    swapped : text_eq legacy scoped ≡ false → text_eq scoped legacy ≡ false
    swapped apart = ground (arith, text_eq_iff legacy scoped, text_eq_iff scoped legacy)

    IsRun-beaten :
        get w.store scoped ≡ none
        → text_eq legacy scoped ≡ false
        → is_some (get w.store legacy) ≡ true
        → IsRun true
    unfolding transition_mfa_record
    IsRun-beaten free apart held =
        let s1 = take redis lock_token scoped w.store in
        let held' : is_some (get s1 legacy) ≡ true =
          rw (beside redis lock_token scoped legacy w.store (swapped apart) free) held in
        let reply = set_if_absent-reply redis scoped lock_token 10 w.store in
        let reply' = set_if_absent-reply redis legacy lock_token 10 s1 in
        (
          λ j.
              rw (reply, free, apart, reply', held')
                (get-first redis lock_token scoped legacy w.store (swapped apart) free j held),
          rw (reply, free, apart, reply', held') refl,
          rw (reply, free, apart, reply', held') refl,
        )

    IsRun-both :
        get w.store scoped ≡ none
        → text_eq legacy scoped ≡ false
        → get w.store legacy ≡ none
        → IsRun false
    unfolding transition_mfa_record
    IsRun-both free apart free' =
        let s1 = take redis lock_token scoped w.store in
        let free'' : get s1 legacy ≡ none =
          beside redis lock_token scoped legacy w.store (swapped apart) free ∙ free' in
        let reply = set_if_absent-reply redis scoped lock_token 10 w.store in
        let reply' = set_if_absent-reply redis legacy lock_token 10 s1 in
        (
          λ j.
              rw (reply, free, apart, reply', free'')
                (get-both redis lock_token scoped legacy w.store (swapped apart) free j free'),
          rw (reply, free, apart, reply', free'') refl,
          rw (reply, free, apart, reply', free'') refl,
        )

    by_legacy : get w.store scoped ≡ none → IsRun (is_some (get w.store legacy))
    by_legacy free = elim (Bool-cases (text_eq legacy scoped)) [
      | inl same ↦ rw (eq_of_text_eq legacy scoped same, free) (IsRun-alone free same)
      | inr apart ↦ elim (Option-cases (get w.store legacy)) [
        | inl free' ↦ rw free' (IsRun-both free apart free')
        | inr (value, held) ↦ rw held (IsRun-beaten free apart (rw held refl))
      ]
    ]

    -- A transition on an account one of whose two locks is taken throws MFA_STATE_CONFLICT and
    -- leaves the accounts; otherwise it has the reply and the effect on the accounts that the
    -- rewriting of the account alone has, whether that throws or not; either way every key of the
    -- store has the value that it had before, so that each lock it took is given back and none of
    -- another call is.
    pub transition_mfa_record-exclusive :
        let ran = transition_mfa_record server context user_id tenant_id mutate lock_token w in
        let alone = rewrite_account server context user_id tenant_id mutate w.users in
        let held = is_held context user_id tenant_id w.store in
        ((j : Text) → get ran.1.store j ≡ get w.store j)
        × (ran.0 ≡ (if held then raise mfa_state_conflict else alone.0))
        × (ran.1.users ≡ (if held then w.users else alone.1))
    transition_mfa_record-exclusive = elim (Option-cases (get w.store scoped)) [
      | inl free ↦ rw free (by_legacy free)
      | inr (value, held) ↦ rw held (IsRun-held (rw held refl))
    ]
