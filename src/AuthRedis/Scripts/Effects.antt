-- ===== src/AuthRedis/Scripts/Effects.antt =====
-- What the parts of the rotation script leave at a key and in a set, in terms of what was there.
use nest_auth.Prelude.{
  Option-cases, text_eq_iff, ℕ, zero, suc, ◌≡◌, refl, true, false, ◌&&◌, ◌||◌, ◌⊎◌, inl, inr, none,
  some, [], ◌∷◌, ◌++◌, Text, text_eq, contains, ltb, if◌then◌else◌, arith, Bool-cases,
}
use nest_auth.Redis.{Redis}
use nest_auth.AuthRedis.Scripts.{
  take_grace, RotateCall, plant_session, move_family, move_index, rotate_live,
}

-- A time to live of at least one second, for the commands that want one.
pub positive_cases : (n : ℕ) → (ltb 0 n ≡ false) ⊎ ((m : ℕ) × (ltb 0 n ≡ true) × (n ≡ suc m))
positive_cases zero = inl refl
positive_cases (suc m) = inr (m, ground arith, refl)

module _ (r : Redis) (c : RotateCall) (n : ℕ) (lasts : c.ttl ≡ suc n) where
  open r use {Store, get, smembers, set, del, sadd, srem, expire}

  pub get-plant_session :
      (s : Store) (j : Text)
      → get (plant_session r c s) j ≡ (
          if ltb 0 c.grace_ttl && text_eq c.grace_old j
          then some (c.new_hash ++ b':' ∷ c.json)
          else if text_eq c.live_new j
          then some c.json
          else get s j)
  unfolding plant_session
  get-plant_session s j = elim (positive_cases c.grace_ttl) [
    | inl closed ↦ rw (closed, plant_session) (rw (lasts, r.get-set))
    | inr (m, opened, seconds) ↦ rw (opened, seconds, lasts, r.get-set, r.get-set)
  ]

  pub mem-plant_session :
      (s : Store) (j x : Text)
      → contains (smembers (plant_session r c s) j) x ≡ (
          if ltb 0 c.grace_ttl && text_eq c.grace_old j
          then false
          else if text_eq c.live_new j
          then false
          else contains (smembers s j) x)
  unfolding plant_session
  mem-plant_session s j x = elim (positive_cases c.grace_ttl) [
    | inl closed ↦ rw (closed, plant_session) (rw (lasts, r.mem-set))
    | inr (m, opened, seconds) ↦ rw (opened, seconds, lasts, r.mem-set, r.mem-set)
  ]

  pub get-move_family :
      (s : Store) (j : Text)
      → get (move_family r c s) j ≡ (
          if text_eq c.family_id []
          then get s j
          else if text_eq c.consumed_old j
          then some c.family_id
          else get s j)
  unfolding move_family
  get-move_family s j = elim (Bool-cases (text_eq c.family_id [])) [
    | inl alone ↦ rw alone
    | inr lineage ↦ rw lineage (rw lasts (simp (r.get-expire, r.get-sadd, r.get-srem, r.get-set)))
  ]

  pub mem-move_family :
      (s : Store) (j x : Text)
      → contains (smembers (move_family r c s) j) x ≡ (
          if text_eq c.family_id []
          then contains (smembers s j) x
          else if text_eq c.family_key j
          then (text_eq c.new_hash x
              || (if text_eq c.old_hash x
                  then false
                  else if text_eq c.consumed_old j
                  then false
                  else contains (smembers s j) x))
          else if text_eq c.consumed_old j
          then false
          else contains (smembers s j) x)
  unfolding move_family
  mem-move_family s j x = elim (Bool-cases (text_eq c.family_id [])) [
    | inl alone ↦ rw alone
    | inr lineage ↦
        rw lineage
          (rw lasts (simp (r.mem-expire, r.mem-sadd, r.mem-srem, r.mem-set) (ground arith)))
  ]

  pub get-move_index : (s : Store) (j : Text) → get (move_index r c s) j ≡ get s j
  unfolding move_index
  get-move_index s j = elim (Bool-cases (ltb 0 c.grace_ttl)) [
    | inl opened ↦ rw (opened, move_index) (rw lasts (simp (r.get-expire, r.get-sadd, r.get-srem)))
    | inr closed ↦ rw (closed, move_index) (rw lasts (simp (r.get-expire, r.get-sadd, r.get-srem)))
  ]

  pub mem-move_index :
      (s : Store) (j x : Text)
      → contains (smembers (move_index r c s) j) x ≡ (
          if text_eq c.index_key j
          then ((ltb 0 c.grace_ttl && text_eq (c.grace_prefix ++ b':' ∷ c.old_hash) x)
              || (text_eq (c.live_prefix ++ b':' ∷ c.new_hash) x
                  || (if text_eq (c.live_prefix ++ b':' ∷ c.old_hash) x
                      then false
                      else contains (smembers s j) x)))
          else contains (smembers s j) x)
  unfolding move_index
  mem-move_index s j x = elim (Bool-cases (ltb 0 c.grace_ttl)) [
    | inl opened ↦
        rw (opened, move_index)
          (rw lasts (simp (r.mem-expire, r.mem-sadd, r.mem-srem) (ground arith)))
    | inr closed ↦
        rw (closed, move_index)
          (rw lasts (simp (r.mem-expire, r.mem-sadd, r.mem-srem) (ground arith)))
  ]

  pub get-rotate_live :
      (s : Store) (j : Text)
      → get (rotate_live r c s) j
        ≡ (if text_eq c.live_old j then none else get (move_family r c (plant_session r c s)) j)
  unfolding rotate_live
  get-rotate_live s j = rw r.get-del (rw get-move_index)

  pub mem-rotate_live :
      (s : Store) (j x : Text)
      → contains (smembers (rotate_live r c s) j) x ≡ (
          if text_eq c.live_old j
          then false
          else contains (smembers (move_index r c (move_family r c (plant_session r c s))) j) x)
  unfolding rotate_live
  mem-rotate_live s j x = rw r.mem-del

module _ (r : Redis) (c : RotateCall) where
  open r use {Store, get, smembers, del}

  pub get-take_grace :
      (s : Store) (j : Text)
      → get (take_grace r c s) j ≡ (if text_eq c.grace_old j then none else get s j)
  unfolding take_grace
  get-take_grace s j = elim (Option-cases (get s c.grace_old)) [
    | inl closed ↦ rw (closed, take_grace) (ground (arith, text_eq_iff c.grace_old j))
    | inr (pointer, opened) ↦ rw (opened, take_grace) (rw r.get-del)
  ]

  pub mem-take_grace :
      (s : Store) (j x : Text)
      → text_eq c.grace_old j ≡ false
      → contains (smembers (take_grace r c s) j) x ≡ contains (smembers s j) x
  unfolding take_grace
  mem-take_grace s j x other = elim (Option-cases (get s c.grace_old)) [
    | inl closed ↦ rw (closed, take_grace)
    | inr (pointer, opened) ↦ rw (opened, take_grace) (rw (r.mem-del, other))
  ]
