-- ===== src/SessionService/Listed.antt =====
-- What the listing shows, and what it leaves.
use nest_auth.Prelude.{
  ◌≡◌, ◌≤◌, refl, sym, ap, ap₂, ◌∙◌, Bool, true, false, ◌&&◌, ◌||◌, Option, List, [], ◌∷◌, Text,
  codes, text_eq, text_eq_iff, text_eq_refl, contains, keep, contains-keep, leb, if◌then◌else◌,
  is_some, ok, arith, Bool-cases, Option-cases, inl, inr,
}
use nest_auth.Json.{Platform}
use nest_auth.Keys.{dashboard, live, detail, key}
use nest_auth.Keys.Apart.{text_eq-slot}
use nest_auth.AuthRedis.Sweeps.{prune_dead, prune_expired_grace_members}
use nest_auth.AuthRedis.Sweeps.Members.{starts_with-key}
use nest_auth.SessionService.{is_session, hash_of, index_key}
use nest_auth.SessionService.Details.{decoded, detail_of}
use nest_auth.SessionService.Choice.{is_session-key, get-prune_grace, mem-prune_grace}
use nest_auth.SessionService.Listing.{
  SessionInfo, insert_newest, newest_first, read_session, read_all, list_sessions,
}

-- The hashes that are shown.
abbrev pub shows : List SessionInfo → Text → Bool
shows [] hash = false
shows (info ∷ rest) hash = text_eq info.session_hash hash || shows rest hash

-- No later one is newer.
abbrev pub NoNewer : SessionInfo → List SessionInfo → Type 0
NoNewer x [] = Unit {0}
NoNewer x (y ∷ ys) = (y.created_at ≤ x.created_at) × NoNewer x ys

abbrev pub IsNewestFirst : List SessionInfo → Type 0
IsNewestFirst [] = Unit {0}
IsNewestFirst (x ∷ xs) = NoNewer x xs × IsNewestFirst xs

shows-insert_newest :
    (x : SessionInfo) (l : List SessionInfo) (hash : Text)
    → shows (insert_newest x l) hash ≡ (text_eq x.session_hash hash || shows l hash)
unfolding insert_newest
shows-insert_newest x [] hash = refl
shows-insert_newest x (y ∷ l) hash = ground (arith, shows-insert_newest x l hash)

shows-newest_first :
    (l : List SessionInfo) (hash : Text) → shows (newest_first l) hash ≡ shows l hash
unfolding newest_first
shows-newest_first [] hash = refl
shows-newest_first (x ∷ l) hash =
    ground (arith, shows-insert_newest x (newest_first l) hash, shows-newest_first l hash)

NoNewer-older :
    (x y : SessionInfo) (l : List SessionInfo)
    → NoNewer y l
    → y.created_at ≤ x.created_at
    → NoNewer x l
NoNewer-older x y [] n h = tt
NoNewer-older x y (z ∷ l) n h = (omega (arith, n.0, h), NoNewer-older x y l n.1 h)

NoNewer-insert_newest :
    (z x : SessionInfo) (l : List SessionInfo)
    → NoNewer z l
    → x.created_at ≤ z.created_at
    → NoNewer z (insert_newest x l)
unfolding insert_newest
NoNewer-insert_newest z x [] n h = (h, tt)
NoNewer-insert_newest z x (y ∷ l) n h = elim (Bool-cases (leb y.created_at x.created_at)) [
  | inl first ↦ rw first (h, n)
  | inr later ↦ rw later (n.0, NoNewer-insert_newest z x l n.1 h)
]

insert_newest-IsNewestFirst :
    (x : SessionInfo) (l : List SessionInfo) → IsNewestFirst l → IsNewestFirst (insert_newest x l)
unfolding insert_newest
insert_newest-IsNewestFirst x [] s = (tt, tt)
insert_newest-IsNewestFirst x (y ∷ l) s = elim (Bool-cases (leb y.created_at x.created_at)) [
  | inl first ↦ rw first ((ground (arith, first), NoNewer-older x y l s.0 (ground arith)), s)
  | inr later ↦
      rw later (NoNewer-insert_newest y x l s.0 (ground arith), insert_newest-IsNewestFirst x l s.1)
]

newest_first-IsNewestFirst : (l : List SessionInfo) → IsNewestFirst (newest_first l)
unfolding newest_first
newest_first-IsNewestFirst [] = tt
newest_first-IsNewestFirst (x ∷ l) =
    insert_newest-IsNewestFirst x (newest_first l) (newest_first-IsNewestFirst l)

skipped : (b c d i r : Bool) → c ≡ b → r ≡ (d && i) → (b ≡ true → i ≡ false) → r ≡ ((c || d) && i)
skipped b c d i r e f g = ground (arith, e, f, g)

shown :
    (b c d i r : Bool) → c ≡ b → r ≡ (d && i) → (b ≡ true → i ≡ true) → (b || r) ≡ ((c || d) && i)
shown b c d i r e f g = ground (arith, e, f, g)

module _ (env : Platform) where
  open env use {redis}
  open redis use {Store, get, smembers, srem}

  get-prune_dead :
      (k : Text) (l : List Text) (s : Store) (j : Text) → get (prune_dead redis k l s).1 j ≡ get s j
  unfolding prune_dead
  get-prune_dead k [] s j = refl
  get-prune_dead k (m ∷ l) s j =
      let alive = is_some (get s m) in
      get-prune_dead k l (if alive then s else srem s k m) j
      ∙ ground (arith, redis.get-srem s k m j)

  -- A member whose key is there stays.
  mem-prune_dead :
      (k : Text) (l : List Text) (s : Store) (x : Text)
      → is_some (get s x) ≡ true
      → contains (smembers (prune_dead redis k l s).1 k) x ≡ contains (smembers s k) x
  unfolding prune_dead
  mem-prune_dead k [] s x h = refl
  mem-prune_dead k (m ∷ l) s x h =
      let alive = is_some (get s m) in
      mem-prune_dead k l (if alive then s else srem s k m) x
        (ground (arith, redis.get-srem s k m x))
      ∙ ground (arith, redis.mem-srem s k m k x, text_eq_iff m x)

  shows-read_all :
      (l : List Text) (current : Option Text) (s : Store) (hash : Text)
      → ((m : Text) → contains l m ≡ true → is_session m ≡ true)
      → shows (read_all env l current s).0 hash
        ≡ (contains l (key dashboard live hash) && is_some (detail_of env hash s))
  unfolding read_all read_session
  shows-read_all [] current s hash all = refl
  shows-read_all (m ∷ l) current s hash all =
      let same =
        ap (λ (t : Text). text_eq t (key dashboard live hash))
          (is_session-key m (all m (ground (arith, text_eq_refl m))))
        ∙ text_eq-slot dashboard live live (hash_of m) hash in
      let rest = shows-read_all l current s hash (λ n c. all n (ground arith)) in
      let here : text_eq (hash_of m) hash ≡ true
          → is_some (detail_of env (hash_of m) s) ≡ is_some (detail_of env hash s) =
        λ h. ap (λ (x : Text). is_some (detail_of env x s)) ((text_eq_iff (hash_of m) hash).0 h) in
      elim (Option-cases (detail_of env (hash_of m) s)) [
        | inl absent ↦
            rw (read_all, read_session, absent)
              (let gone : text_eq (hash_of m) hash ≡ true → is_some (detail_of env hash s) ≡ false =
                  λ h. sym (here h) ∙ ap is_some absent in
                skipped (text_eq (hash_of m) hash) _ _ _ _ same rest gone)
        | inr (d, found) ↦
            rw (read_all, read_session, found)
              (let there : text_eq (hash_of m) hash ≡ true → is_some (detail_of env hash s) ≡ true =
                  λ h. sym (here h) ∙ ap is_some found in
                shown (text_eq (hash_of m) hash) _ _ _ _ same rest there)
      ]

  module _ (user_id tenant_id : Text) (current : Option Text) (s : Store) where
    abbrev index_here : Text
    index_here = index_key env user_id tenant_id

    abbrev pruned : Store
    pruned = (prune_expired_grace_members redis index_here (codes "rp:") s).1

    get-pruned : (j : Text) → get pruned j ≡ get s j
    unfolding prune_expired_grace_members
    get-pruned j = get-prune_grace env index_here (codes "rp:") (smembers s index_here) s j

    mem-pruned :
        (m : Text)
        → is_session m ≡ true
        → contains (smembers pruned index_here) m ≡ contains (smembers s index_here) m
    unfolding prune_expired_grace_members
    mem-pruned m h = mem-prune_grace env index_here (smembers s index_here) s m h

    -- For a tenant that is named, listSessions answers with a list that is ordered by creation,
    -- the newest first, and that shows a hash exactly where the user's index names the session
    -- and its detail record is readable.
    pub list_sessions-shows :
        text_eq tenant_id [] ≡ false
        → (l : List SessionInfo) × ((list_sessions env user_id tenant_id current s).0 ≡ ok l)
          × IsNewestFirst l
          × ((hash : Text)
              → shows l hash ≡ (
                  contains (smembers s index_here) (key dashboard live hash)
                  && is_some (detail_of env hash s)))
    unfolding list_sessions
    list_sessions-shows named =
        let read = read_all env (keep is_session (smembers pruned index_here)) current pruned in
        (
          newest_first read.0,
          rw (list_sessions, named) refl,
          newest_first-IsNewestFirst read.0,
          (λ hash.
              let k = key dashboard live hash in
              let members = smembers pruned index_here in
              shows-newest_first read.0 hash
              ∙ shows-read_all (keep is_session members) current pruned hash
                  (λ m c. ground (arith, contains-keep is_session members m))
              ∙ ap₂ (λ (a b : Bool). a && b)
                  (contains-keep is_session members k
                    ∙ rw (starts_with-key dashboard live live hash)
                        (ground (arith, mem-pruned k (starts_with-key dashboard live live hash))))
                  (ap (λ (o : Option Text). is_some (decoded env o))
                    (get-pruned (key dashboard detail hash)))),
        )

    -- `listSessions` takes no session out of the user's index whose key is still there, whether
    -- or not its detail record is readable, and changes no string.
    pub list_sessions-keeps :
        (hash : Text)
        → is_some (get s (key dashboard live hash)) ≡ true
        → let s' = (list_sessions env user_id tenant_id current s).1 in
          (contains (smembers s' index_here) (key dashboard live hash)
            ≡ contains (smembers s index_here) (key dashboard live hash))
          × ((j : Text) → get s' j ≡ get s j)
    unfolding list_sessions
    list_sessions-keeps hash alive = elim (Bool-cases (text_eq tenant_id [])) [
      | inl unnamed ↦ rw (list_sessions, unnamed) (refl, (λ j. refl))
      | inr named ↦
          rw (list_sessions, named)
            (
              mem-prune_dead index_here _ pruned (key dashboard live hash)
                    (ground (arith, get-pruned (key dashboard live hash)))
                  ∙ mem-pruned (key dashboard live hash) (starts_with-key dashboard live live hash),
              (λ j. get-prune_dead index_here _ pruned j ∙ get-pruned j),
            )
    ]
