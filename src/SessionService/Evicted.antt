-- ===== src/SessionService/Evicted.antt =====
-- Which sessions the limit of a user evicts, and which it keeps.
use nest_auth.Prelude.{
  ℕ, ◌≤◌, ◌≡◌, refl, ap, ◌∙◌, subst, true, false, ◌||◌, Option, some, none, List, [], ◌∷◌, Text,
  codes, text_eq, text_eq_iff, text_eq_refl, contains, arith, if◌then◌else◌, Bool-cases, inl, inr,
}
use nest_auth.Json.{Platform}
use nest_auth.Keys.{dashboard, Slot, live, detail, key, user_subject, session_index_key}
use nest_auth.Keys.Apart.{same_slot, text_eq-slot}
use nest_auth.AuthRedis.Sweeps.{prune_expired_grace_members}
use nest_auth.AuthRedis.Sweeps.Members.{starts_with-key, slice_from-key}
use nest_auth.SessionService.Records.{created_in, or_number}
use nest_auth.SessionService.{is_session, hash_of, evict, read_created_at}
use nest_auth.SessionService.Eviction.{mem-evict, get-evict, names}
use nest_auth.SessionService.Choice.{
  is_session-key, get-prune_grace, contains-chosen, chosen-oldest,
}
use nest_auth.SessionService.Limit.{
  index_of, sessions_of, pruned, contains-sessions_of, contains-sessions_of-pruned, enforced,
  chosen_of, few, many, Run-cases, contains-sessions_of-evicted,
}

names-contains : (l : List Text) (m : Text) → contains l m ≡ true → names l (hash_of m) ≡ true
names-contains [] m h = cc
names-contains (n ∷ l) m h =
    ground (arith, names-contains l m, text_eq_iff n m, text_eq_refl (hash_of m))

names-absent :
    (l : List Text) (hash : Text)
    → ((m : Text) → contains l m ≡ true → is_session m ≡ true)
    → contains l (key dashboard live hash) ≡ false
    → names l hash ≡ false
names-absent [] hash all h = refl
names-absent (n ∷ l) hash all h =
    let e = is_session-key n (all n (ground (arith, text_eq_refl n))) in
    ground (
      arith,
      names-absent l hash (λ m c. all m (ground arith)),
      ap (λ (t : Text). text_eq t (key dashboard live hash)) e
          ∙ text_eq-slot dashboard live live (hash_of n) hash,
    )

module _ (env : Platform) (user_id tenant_id : Text) where
  open env use {redis, hmac, hmac_key}
  open redis use {Store, get, smembers}

  get-pruned : (s : Store) (j : Text) → get (pruned env user_id tenant_id s) j ≡ get s j
  unfolding prune_expired_grace_members
  get-pruned s j =
      get-prune_grace env (index_of env user_id tenant_id) (codes "rp:")
        (smembers s (index_of env user_id tenant_id)) s j

  read_created_at-pruned :
      (s : Store) (hash : Text)
      → read_created_at env hash (pruned env user_id tenant_id s) ≡ read_created_at env hash s
  unfolding read_created_at
  read_created_at-pruned s hash =
      ap (λ (o : Option Text). or_number (created o) 0) (get-pruned s (key dashboard detail hash))
    where
      created : Option Text → Option ℕ
      created none = none
      created (some raw) = created_in (env.parse raw)

  module _ (new_hash : Text) (limit : ℕ) (s : Store) where
    abbrev before : List Text
    before = sessions_of env user_id tenant_id (pruned env user_id tenant_id s)

    abbrev picked : List Text
    picked = chosen_of env user_id tenant_id new_hash limit s

    abbrev after : Store
    after = evict env (index_of env user_id tenant_id) picked (pruned env user_id tenant_id s)

    get-after :
        (a : Slot) (hash : Text)
        → same_slot live a || same_slot detail a ≡ true
        → get after (key dashboard a hash)
          ≡ (if names picked hash then none else get s (key dashboard a hash))
    unfolding session_index_key
    get-after a hash h = ground (
      arith,
      get-pruned s (key dashboard a hash),
      get-evict env (hmac (user_subject dashboard user_id (some tenant_id)) hmac_key) picked
          (pruned env user_id tenant_id s) a hash h,
    )

    -- What enforceSessionLimit evicts was a session of the user's index and is not the new one,
    -- and afterwards the index does not name it and its key and its detail record are gone.
    pub enforce_session_limit-evicts :
        (m : Text)
        → contains (enforced env user_id tenant_id new_hash limit s).0 m ≡ true
        → let s' = (enforced env user_id tenant_id new_hash limit s).1 in
          (contains (sessions_of env user_id tenant_id s) m ≡ true)
          × (text_eq (hash_of m) new_hash ≡ false)
          × (contains (smembers s' (index_of env user_id tenant_id)) m ≡ false)
          × (get s' (key dashboard live (hash_of m)) ≡ none)
          × (get s' (key dashboard detail (hash_of m)) ≡ none)
    unfolding session_index_key
    enforce_session_limit-evicts m h = elim (Run-cases env user_id tenant_id new_hash limit s) [
      | few l e ↦
          absurd (ground (arith, subst (λ (r : List Text × Store). contains r.0 m ≡ true) e h))
      | many l e ↦
          let c : contains picked m ≡ true =
            subst (λ (r : List Text × Store). contains r.0 m ≡ true) e h in
          let of_session =
            contains-chosen env before new_hash limit (pruned env user_id tenant_id s) m c in
          rw e (
            (ground (arith, contains-sessions_of-pruned env user_id tenant_id s m)),
            of_session.1,
            (ground (
              arith,
              mem-evict env (hmac (user_subject dashboard user_id (some tenant_id)) hmac_key) picked
                  (pruned env user_id tenant_id s) m,
            )),
            (get-after live (hash_of m) refl ∙ rw (names-contains picked m c) refl),
            (get-after detail (hash_of m) refl ∙ rw (names-contains picked m c) refl),
          )
    ]

    -- A session that enforceSessionLimit evicts was created no later than any session that it
    -- leaves in the index, the new one aside; a session without a readable record counts as
    -- created at 0.
    pub enforce_session_limit-oldest :
        (m n : Text)
        → contains (enforced env user_id tenant_id new_hash limit s).0 m ≡ true
        → contains
            (sessions_of env user_id tenant_id (enforced env user_id tenant_id new_hash limit s).1)
            n
          ≡ true
        → text_eq (hash_of n) new_hash ≡ false
        → read_created_at env (hash_of m) s ≤ read_created_at env (hash_of n) s
    enforce_session_limit-oldest m n h left other =
        elim (Run-cases env user_id tenant_id new_hash limit s) [
          | few l e ↦
              absurd (ground (arith, subst (λ (r : List Text × Store). contains r.0 m ≡ true) e h))
          | many l e ↦
              let c : contains picked m ≡ true =
                subst (λ (r : List Text × Store). contains r.0 m ≡ true) e h in
              let left' : contains (sessions_of env user_id tenant_id after) n ≡ true =
                subst
                  (λ (r : List Text × Store).
                    contains (sessions_of env user_id tenant_id r.1) n ≡ true)
                  e left in
              let at_end = contains-sessions_of-evicted env user_id tenant_id new_hash limit s n in
              let older =
                chosen-oldest env before new_hash limit (pruned env user_id tenant_id s) m n c
                  (ground arith) (ground arith) other in
              omega (
                arith,
                older,
                read_created_at-pruned s (hash_of m),
                read_created_at-pruned s (hash_of n),
              )
        ]

    mem-pruned :
        (m : Text)
        → is_session m ≡ true
        → contains (smembers (pruned env user_id tenant_id s) (index_of env user_id tenant_id)) m
          ≡ contains (smembers s (index_of env user_id tenant_id)) m
    mem-pruned m h = ground (
      arith,
      contains-sessions_of env user_id tenant_id s m,
      contains-sessions_of env user_id tenant_id (pruned env user_id tenant_id s) m,
      contains-sessions_of-pruned env user_id tenant_id s m,
    )

    -- A session that enforceSessionLimit does not evict keeps its key, its detail record and its
    -- place in the index.
    pub enforce_session_limit-keeps :
        (hash : Text)
        → contains (enforced env user_id tenant_id new_hash limit s).0 (key dashboard live hash)
          ≡ false
        → let s' = (enforced env user_id tenant_id new_hash limit s).1 in
          (get s' (key dashboard live hash) ≡ get s (key dashboard live hash))
          × (get s' (key dashboard detail hash) ≡ get s (key dashboard detail hash))
          × (contains (smembers s' (index_of env user_id tenant_id)) (key dashboard live hash)
              ≡ contains (smembers s (index_of env user_id tenant_id)) (key dashboard live hash))
    unfolding session_index_key
    enforce_session_limit-keeps hash h = elim (Run-cases env user_id tenant_id new_hash limit s) [
      | few l e ↦ rw e (
        get-pruned s _,
        get-pruned s _,
        mem-pruned (key dashboard live hash) (starts_with-key dashboard live live hash),
      )
      | many l e ↦
          let c : contains picked (key dashboard live hash) ≡ false =
            subst (λ (r : List Text × Store). contains r.0 (key dashboard live hash) ≡ false) e h in
          let free =
            names-absent picked hash
              (λ m k. ground (
                arith,
                contains-sessions_of env user_id tenant_id (pruned env user_id tenant_id s) m,
                contains-chosen env before new_hash limit (pruned env user_id tenant_id s) m k,
              ))
              c in
          rw e (
            get-after live hash refl ∙ rw free refl,
            get-after detail hash refl ∙ rw free refl,
            (mem-evict env (hmac (user_subject dashboard user_id (some tenant_id)) hmac_key) picked
                  (pruned env user_id tenant_id s) (key dashboard live hash)
                ∙ rw
                    (
                      c,
                      mem-pruned (key dashboard live hash)
                          (starts_with-key dashboard live live hash),
                    )
                    (ground arith)),
          )
    ]

    not_evicted :
        contains (enforced env user_id tenant_id new_hash limit s).0 (key dashboard live new_hash)
        ≡ false
    not_evicted =
        elim (Bool-cases (
          contains (enforced env user_id tenant_id new_hash limit s).0
            (key dashboard live new_hash))) [
              | inr out ↦ out
              | inl evicted ↦ ground (
                arith,
                (enforce_session_limit-evicts (key dashboard live new_hash) evicted).1,
                ap (λ (t : Text). text_eq t new_hash) (slice_from-key dashboard live new_hash),
                text_eq_refl new_hash,
              )
            ]

    -- `enforceSessionLimit` leaves the key, the detail record and the place in the index of the
    -- new session as they were, whatever the limit.
    pub enforce_session_limit-new :
        let s' = (enforced env user_id tenant_id new_hash limit s).1 in
        (get s' (key dashboard live new_hash) ≡ get s (key dashboard live new_hash))
        × (get s' (key dashboard detail new_hash) ≡ get s (key dashboard detail new_hash))
        × (contains (smembers s' (index_of env user_id tenant_id)) (key dashboard live new_hash)
            ≡ contains (smembers s (index_of env user_id tenant_id)) (key dashboard live new_hash))
    enforce_session_limit-new = enforce_session_limit-keeps new_hash not_evicted
