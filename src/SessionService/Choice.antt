-- ===== src/SessionService/Choice.antt =====
-- The members of a session index, their pruning, and the choice of the sessions to evict.
use nest_auth.Prelude.{
  ℕ, ◌-◌, ◌≤◌, ◌<◌, ◌≡◌, refl, sym, ap, ◌∙◌, true, false, ◌||◌, not, List, [], ◌∷◌, Text, codes,
  text_eq, text_eq_iff, contains, distinct, length, keep, is_some, if◌then◌else◌, arith,
  starts_with, sort_by, contains-sort_by, distinct-sort_by, length-sort_by, sort_by-IsSortedBy,
  contains-keep, distinct-keep, keep-IsSortedBy, keep-cong, contains-slice_to, distinct-slice_to,
  length-slice_to, age-slice_to-le, length-keep_others,
}
use nest_auth.Json.{Platform}
use nest_auth.Keys.{dashboard, live, grace, key}
use nest_auth.AuthRedis.Sweeps.{prune_grace}
use nest_auth.Keys.Apart.{text_eq-slot}
use nest_auth.AuthRedis.Sweeps.Members.{key_of_lead, starts_with-key}
use nest_auth.SessionService.{is_session, is_pointer, hash_of, to_evict, read_created_at}

-- A member of the index that is a session is the key of its hash.
pub is_session-key : (m : Text) → is_session m ≡ true → m ≡ key dashboard live (hash_of m)
is_session-key m h = key_of_lead dashboard live m h

pub is_session-not_pointer : (m : Text) → is_session m ≡ true → is_pointer m ≡ false
is_session-not_pointer m h =
    ap is_pointer (is_session-key m h) ∙ starts_with-key dashboard grace live (hash_of m)

module _ (env : Platform) where
  open env use {redis, hmac, hmac_key}
  open redis use {Store, get, smembers, srem}

  -- Pruning takes members out of one set, and touches no string.
  pub get-prune_grace :
      (k prefix : Text) (l : List Text) (s : Store) (j : Text)
      → get (prune_grace redis k prefix l s).1 j ≡ get s j
  unfolding prune_grace
  get-prune_grace k prefix [] s j = refl
  get-prune_grace k prefix (m ∷ l) s j =
      let kept = not (starts_with prefix m) || is_some (get s m) in
      get-prune_grace k prefix l (if kept then s else srem s k m) j
      ∙ ground (arith, redis.get-srem s k m j)

  -- The sessions stay in an index whose pointers are pruned.
  pub mem-prune_grace :
      (k : Text) (l : List Text) (s : Store) (m : Text)
      → is_session m ≡ true
      → contains (smembers (prune_grace redis k (codes "rp:") l s).1 k) m
        ≡ contains (smembers s k) m
  unfolding prune_grace
  mem-prune_grace k [] s m h = refl
  mem-prune_grace k (n ∷ l) s m h =
      let kept = not (is_pointer n) || is_some (get s n) in
      mem-prune_grace k l (if kept then s else srem s k n) m h
      ∙ ground (arith, redis.mem-srem s k n k m, is_session-not_pointer m h, text_eq_iff n m)

  -- The choice, for a list of sessions without repetitions.
  module _ (sessions : List Text) (new_hash : Text) (limit : ℕ) (s : Store) where
    abbrev by_age : List Text
    by_age = sort_by (λ m. read_created_at env (hash_of m) s) sessions

    abbrev others : List Text
    others = keep (λ m. not (text_eq (hash_of m) new_hash)) by_age

    abbrev pub chosen : List Text
    chosen = to_evict env sessions new_hash limit s

    pub contains-chosen :
        (m : Text)
        → contains chosen m ≡ true
        → (contains sessions m ≡ true) × (text_eq (hash_of m) new_hash ≡ false)
    unfolding to_evict
    contains-chosen m h =
        let kept = contains-slice_to (length sessions - limit) others m h in
        ground (
          arith,
          contains-keep (λ m. not (text_eq (hash_of m) new_hash)) by_age m,
          contains-sort_by (λ m. read_created_at env (hash_of m) s) sessions m,
        )

    -- The chosen ones are the oldest.
    pub chosen-oldest :
        (m n : Text)
        → contains chosen m ≡ true
        → contains sessions n ≡ true
        → contains chosen n ≡ false
        → text_eq (hash_of n) new_hash ≡ false
        → read_created_at env (hash_of m) s ≤ read_created_at env (hash_of n) s
    unfolding to_evict
    chosen-oldest m n hm hn out old =
        age-slice_to-le (λ m. read_created_at env (hash_of m) s) (length sessions - limit) others m
          n (keep-IsSortedBy _ _ _ (sort_by-IsSortedBy _ sessions)) hm
          (ground (
            arith,
            contains-keep (λ m. not (text_eq (hash_of m) new_hash)) by_age n,
            contains-sort_by (λ m. read_created_at env (hash_of m) s) sessions n,
          ))
          out

    pub distinct-chosen : distinct sessions ≡ true → distinct chosen ≡ true
    unfolding to_evict
    distinct-chosen d =
        distinct-slice_to _ others (distinct-keep _ by_age (distinct-sort_by _ sessions d))

    -- As many are chosen as there are too many.
    pub length-chosen :
        0 < limit
        → distinct sessions ≡ true
        → ((m : Text) → contains sessions m ≡ true → is_session m ≡ true)
        → length chosen ≡ length sessions - limit
    unfolding to_evict
    length-chosen pos d all = length-slice_to (length sessions - limit) others (
        omega (
          arith,
          length-sort_by (λ m. read_created_at env (hash_of m) s) sessions,
          length-keep_others (key dashboard live new_hash) by_age (distinct-sort_by _ sessions d),
          ap length (keep-cong _ (λ m. not (text_eq m (key dashboard live new_hash))) by_age same),
        ))
      where
        same :
            (m : Text)
            → contains by_age m ≡ true
            → not (text_eq (hash_of m) new_hash) ≡ not (text_eq m (key dashboard live new_hash))
        same m h = ap not (
            sym (
              ap (λ (x : Text). text_eq x (key dashboard live new_hash))
                (is_session-key m (all m (sym (contains-sort_by _ sessions m) ∙ h)))
              ∙ text_eq-slot dashboard live live (hash_of m) new_hash))
