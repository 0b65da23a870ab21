-- ===== src/SessionService/Limit.antt =====
-- What the limit on the sessions of a user comes to.
use nest_auth.Prelude.{
  ℕ, ◌≤◌, ◌<◌, min, ◌≡◌, refl, sym, ◌∙◌, true, ◌&&◌, not, some, inl, inr, List, [], ◌++◌, Text,
  codes, contains, distinct, length, length-append, keep, leb, arith, Bool-cases, contains-keep,
  distinct-keep, length-le_of_contains, distinct-append, contains-append,
}
use nest_auth.Json.{Platform}
use nest_auth.Keys.{dashboard, session_index_key, user_subject}
use nest_auth.AuthRedis.Sweeps.{prune_expired_grace_members}
use nest_auth.SessionService.{is_session, evict, enforce_session_limit, index_key}
use nest_auth.SessionService.Eviction.{mem-evict}
use nest_auth.SessionService.Choice.{
  mem-prune_grace, chosen, contains-chosen, distinct-chosen, length-chosen,
}

module _ (env : Platform) where
  open env use {redis, hmac, hmac_key}
  open redis use {Store, get, smembers, srem}

  -- What is left when all of the chosen are gone from a set of sessions.
  length-left :
      (sessions left : List Text) (new_hash : Text) (limit : ℕ) (s : Store)
      → 0 < limit
      → distinct sessions ≡ true
      → distinct left ≡ true
      → ((m : Text) → contains sessions m ≡ true → is_session m ≡ true)
      → ((m : Text)
          → contains left m
            ≡ (contains sessions m && not (contains (chosen env sessions new_hash limit s) m)))
      → length left ≡ min limit (length sessions)
  length-left sessions left new_hash limit s pos d d' all rest =
      let c = chosen env sessions new_hash limit s in
      let parts : (x : Text) → contains (left ++ c) x ≡ contains sessions x = λ x. ground (
        arith,
        rest x,
        contains-append left c x,
        contains-chosen env sessions new_hash limit s x,
      ) in
      let dist =
        distinct-append left c d' (distinct-chosen env sessions new_hash limit s d)
          (λ x h. ground (arith, rest x)) in
      omega (
        arith,
        length-append left c,
        length-chosen env sessions new_hash limit s pos d all,
        length-le_of_contains (left ++ c) sessions dist (λ x h. sym (parts x) ∙ h),
        length-le_of_contains sessions (left ++ c) d (λ x h. parts x ∙ h),
      )

  module _ (user_id tenant_id : Text) where
    abbrev pub index_of : Text
    index_of = index_key env user_id tenant_id

    -- The refresh sessions that the index of the user names.
    abbrev pub sessions_of : Store → List Text
    sessions_of s = keep is_session (smembers s index_of)

    abbrev pub pruned : Store → Store
    pruned s = (prune_expired_grace_members redis index_of (codes "rp:") s).1

    pub distinct-sessions_of : (s : Store) → distinct (sessions_of s) ≡ true
    distinct-sessions_of s = distinct-keep is_session _ (redis.distinct-smembers s index_of)

    pub contains-sessions_of :
        (s : Store) (m : Text)
        → contains (sessions_of s) m ≡ (contains (smembers s index_of) m && is_session m)
    contains-sessions_of s m = contains-keep is_session (smembers s index_of) m

    pub contains-sessions_of-pruned :
        (s : Store) (m : Text) → contains (sessions_of (pruned s)) m ≡ contains (sessions_of s) m
    unfolding prune_expired_grace_members
    contains-sessions_of-pruned s m = ground (
      arith,
      contains-sessions_of s m,
      contains-sessions_of (pruned s) m,
      mem-prune_grace env index_of (smembers s index_of) s m,
    )

    length-sessions_of-pruned :
        (s : Store) → length (sessions_of (pruned s)) ≡ length (sessions_of s)
    length-sessions_of-pruned s = omega (
      arith,
      length-le_of_contains (sessions_of s) (sessions_of (pruned s)) (distinct-sessions_of s)
          (λ x h. contains-sessions_of-pruned s x ∙ h),
      length-le_of_contains (sessions_of (pruned s)) (sessions_of s)
          (distinct-sessions_of (pruned s)) (λ x h. sym (contains-sessions_of-pruned s x) ∙ h),
    )

    abbrev pub enforced : Text → ℕ → Store → List Text × Store
    enforced new_hash limit s = enforce_session_limit env user_id tenant_id new_hash limit s

    abbrev pub chosen_of : Text → ℕ → Store → List Text
    chosen_of new_hash limit s = chosen env (sessions_of (pruned s)) new_hash limit (pruned s)

    -- What is run, in terms of the choice.
    pub data Run (new_hash : Text) (limit : ℕ) (s : Store) : Type 0 where
      few :
          length (sessions_of s) ≤ limit
          → enforced new_hash limit s ≡ ([], pruned s)
          → Run new_hash limit s
      many :
          limit < length (sessions_of s)
          → enforced new_hash limit s ≡ (
            chosen_of new_hash limit s,
            evict env index_of (chosen_of new_hash limit s) (pruned s),
          )
          → Run new_hash limit s

    pub Run-cases : (new_hash : Text) (limit : ℕ) (s : Store) → Run new_hash limit s
    unfolding enforce_session_limit
    Run-cases new_hash limit s = elim (Bool-cases (leb (length (sessions_of (pruned s))) limit)) [
      | inl h ↦ few (ground (arith, length-sessions_of-pruned s)) (rw h refl)
      | inr h ↦ many (ground (arith, length-sessions_of-pruned s)) (rw h refl)
    ]

    pub contains-sessions_of-evicted :
        (new_hash : Text) (limit : ℕ) (s : Store) (m : Text)
        → contains (sessions_of (evict env index_of (chosen_of new_hash limit s) (pruned s))) m
          ≡ (contains (sessions_of (pruned s)) m && not (contains (chosen_of new_hash limit s) m))
    unfolding session_index_key
    contains-sessions_of-evicted new_hash limit s m = ground (
      arith,
      contains-sessions_of (pruned s) m,
      contains-sessions_of (evict env index_of (chosen_of new_hash limit s) (pruned s)) m,
      mem-evict env (hmac (user_subject dashboard user_id (some tenant_id)) hmac_key)
          (chosen_of new_hash limit s) (pruned s) m,
    )

    -- After the session limit was enforced with a limit that is not 0, the index of the user
    -- names as many refresh sessions as before, or as the limit where there were more.
    pub enforce_session_limit-bounded :
        (new_hash : Text) (limit : ℕ) (s : Store)
        → 0 < limit
        → length (sessions_of (enforced new_hash limit s).1) ≡ min limit (length (sessions_of s))
    enforce_session_limit-bounded new_hash limit s pos = elim (Run-cases new_hash limit s) [
      | few h e ↦ rw e (omega (arith, length-sessions_of-pruned s, h))
      | many h e ↦ rw e (
          omega (
            arith,
            length-sessions_of-pruned s,
            h,
            length-left (sessions_of (pruned s))
                (sessions_of (evict env index_of (chosen_of new_hash limit s) (pruned s))) new_hash
                limit (pruned s) pos (distinct-sessions_of _) (distinct-sessions_of _)
                (λ m c. ground (arith, contains-sessions_of (pruned s) m))
                (contains-sessions_of-evicted new_hash limit s),
          ))
    ]
