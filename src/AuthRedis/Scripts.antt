-- ===== src/AuthRedis/Scripts.antt =====
-- redis/auth-redis.service.ts: the Lua scripts, each one atomic step on the store. The keys and the
-- arguments come in the order of KEYS and ARGV; a time to live comes as a number and not as text.
pub mod Effects
pub mod Creation
use nest_auth.Prelude.{
  ℕ, zero, suc, ◌+◌, Bool, true, false, ◌||◌, Option, none, some, List, [], ◌∷◌, ◌++◌, Text, codes,
  text_eq, starts_with, slice_from, split_first, length, ltb, if◌then◌else◌, is_some,
}
use nest_auth.Redis.{Redis, exists_set}

module _ (r : Redis) where
  open r use {Store, get, smembers, set, del, sadd, srem, expire}

  -- CREATE_SESSION_LUA
  unfoldable pub create_session : Text → Text → Text → Text → ℕ → Text → Text → Text → Store → Store
  create_session live index family json ttl family_id live_prefix hash s =
      let s1 = set s live json ttl in
      let s2 = expire (sadd s1 index (live_prefix ++ b':' ∷ hash)) index ttl in
      if text_eq family_id [] then s2 else expire (sadd s2 family hash) family ttl

  -- RECOVER_GRACE_LUA; `true` is the reply 1
  unfoldable pub recover_grace :
      Text → Text → Text → Text → ℕ → Text → Text → Text → Store → Bool × Store
  recover_grace live index family json ttl family_id live_prefix hash s =
      let s1 = set s live json ttl in
      let s2 = expire (sadd s1 index (live_prefix ++ b':' ∷ hash)) index ttl in
      let s3 = if text_eq family_id [] then s2 else expire (sadd s2 family hash) family ttl in
      if exists_set (smembers s index)
      then (if text_eq family_id []
          then (true, s3)
          else if exists_set (smembers s family)
          then (true, s3)
          else (false, s))
      else (false, s)

-- The keys and arguments of ROTATE_LUA.
pub record RotateCall : Type 0 where
  pub live_old : Text
  pub live_new : Text
  pub grace_old : Text
  pub consumed_old : Text
  pub family_key : Text
  pub index_key : Text
  pub json : Text
  pub ttl : ℕ
  pub grace_ttl : ℕ
  pub family_id : Text
  pub old_hash : Text
  pub new_hash : Text
  pub live_prefix : Text
  pub grace_prefix : Text

-- The reply for a consumed token, from the record that was recovered and the family of the marker.
abbrev pub reply_of : Option Text → Option Text → Option Text
reply_of (some json) marker = some (codes "GRACE:" ++ json)
reply_of none (some family_id) = some (codes "REUSED:" ++ family_id)
reply_of none none = none

module _ (r : Redis) (c : RotateCall) where
  open r use {Store, get, smembers, set, del, sadd, srem, expire}

  -- the new session and, in a grace window, the pointer to it
  unfoldable pub plant_session : Store → Store
  plant_session s =
      let s1 = set s c.live_new c.json c.ttl in
      if ltb 0 c.grace_ttl then set s1 c.grace_old (c.new_hash ++ b':' ∷ c.json) c.grace_ttl else s1

  -- the consumed-family marker, and the family's membership moved onto the new hash
  unfoldable pub move_family : Store → Store
  move_family s =
      let s1 = set s c.consumed_old c.family_id c.ttl in
      let s2 = sadd (srem s1 c.family_key c.old_hash) c.family_key c.new_hash in
      if text_eq c.family_id [] then s else expire s2 c.family_key c.ttl

  -- the bookkeeping of the session index
  unfoldable pub move_index : Store → Store
  move_index s =
      let s1 = srem s c.index_key (c.live_prefix ++ b':' ∷ c.old_hash) in
      let s2 = sadd s1 c.index_key (c.live_prefix ++ b':' ∷ c.new_hash) in
      let s3 =
        if ltb 0 c.grace_ttl
        then sadd s2 c.index_key (c.grace_prefix ++ b':' ∷ c.old_hash)
        else s2 in
      expire s3 c.index_key c.ttl

  -- the live path of ROTATE_LUA
  unfoldable pub rotate_live : Store → Store
  unfolding plant_session move_family move_index
  rotate_live s = del (move_index (move_family (plant_session s))) c.live_old

  -- the record behind a grace pointer that was split, if the successor that it names is still live
  abbrev pub recovered_from : Option (Text × Text) → Store → Option Text
  recovered_from none s = none
  recovered_from (some (successor, json)) s =
      if is_some (get s (c.live_prefix ++ b':' ∷ successor)) then some json else none

  abbrev pub recovered : Option Text → Store → Option Text
  recovered none s = none
  recovered (some pointer) s = recovered_from (split_first b':' pointer) s

  -- the pointer is consumed when it is read
  unfoldable pub take_grace : Store → Store
  take_grace s = if is_some (get s c.grace_old) then del s c.grace_old else s

  -- the reply of the script where no live session stands under the old hash
  unfoldable pub reply_consumed : Store → Option Text
  unfolding take_grace
  reply_consumed s =
      reply_of (recovered (get s c.grace_old) (take_grace s)) (get (take_grace s) c.consumed_old)

  -- ROTATE_LUA; `none` is the reply false
  unfoldable pub rotate : Store → Option Text × Store
  unfolding rotate_live take_grace reply_consumed
  rotate s = elim (get s c.live_old) [
    | some old ↦ (some old, rotate_live s)
    | none ↦ (reply_consumed s, take_grace s)
  ]
