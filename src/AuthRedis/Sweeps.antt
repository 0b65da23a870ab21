-- ===== src/AuthRedis/Sweeps.antt =====
-- redis/auth-redis.service.ts: the scripts that walk the members of a set.
pub mod Shrinks
pub mod Members
pub mod Effects
pub mod Apart
use nest_auth.Prelude.{
  ℕ, ◌+◌, ◌||◌, List, [], ◌∷◌, ◌++◌, Text, text_eq, starts_with, slice_from, length, if◌then◌else◌,
  is_some, not,
}
use nest_auth.Redis.{Redis, exists_set}

module _ (r : Redis) where
  open r use {Store, get, smembers, set, del, sadd, srem, expire}

  -- the loop of REVOKE_FAMILY_LUA
  unfoldable pub revoke_members : Text → Text → Text → List Text → Store → Store
  revoke_members rt sd sess_key [] s = s
  revoke_members rt sd sess_key (hash ∷ rest) s =
      let s1 = del (del s (rt ++ b':' ∷ hash)) (sd ++ b':' ∷ hash) in
      revoke_members rt sd sess_key rest
        (if text_eq sess_key [] then s1 else srem s1 sess_key (rt ++ b':' ∷ hash))

  -- REVOKE_FAMILY_LUA; the reply is the number of members
  unfoldable pub revoke_family_script : Text → Text → Text → Text → Store → ℕ × Store
  unfolding revoke_members
  revoke_family_script family rt sd sess_key s =
      let members = smembers s family in
      (length members, del (revoke_members rt sd sess_key members s) family)

  -- one round of the loop of `sweepSessionIndex`
  unfoldable pub sweep_member : Text → Text → Text → Text → Text → Store → Store
  sweep_member index live grace detail member s =
      let s1 = del s member in
      let s2 =
        if starts_with live member
        then del s1 (detail ++ slice_from (length live) member)
        else s1 in
      if starts_with live member || starts_with grace member then srem s2 index member else s

  unfoldable pub sweep_members : Text → Text → Text → Text → List Text → Store → Store
  unfolding sweep_member
  sweep_members index live grace detail [] s = s
  sweep_members index live grace detail (member ∷ rest) s =
      sweep_members index live grace detail rest (sweep_member index live grace detail member s)

  -- the script of `sweepSessionIndex`
  unfoldable pub sweep_session_index : Text → Text → Text → Text → Store → Store
  unfolding sweep_members
  sweep_session_index index live grace detail s =
      let swept = sweep_members index live grace detail (smembers s index) s in
      if exists_set (smembers swept index) then swept else del swept index

  -- the loop of `pruneDeadMembers`, over the members that the caller names: the count of those
  -- whose key is gone, and the store without them
  unfoldable pub prune_dead : Text → List Text → Store → ℕ × Store
  prune_dead set_key [] s = (0, s)
  prune_dead set_key (member ∷ rest) s =
      let alive = is_some (get s member) in
      let (n, s') = prune_dead set_key rest (if alive then s else srem s set_key member) in
      (if alive then n else n + 1, s')

  -- the loop of `pruneExpiredGraceMembers`
  unfoldable pub prune_grace : Text → Text → List Text → Store → ℕ × Store
  prune_grace set_key grace [] s = (0, s)
  prune_grace set_key grace (member ∷ rest) s =
      let kept = not (starts_with grace member) || is_some (get s member) in
      let (n, s') = prune_grace set_key grace rest (if kept then s else srem s set_key member) in
      (if kept then n else n + 1, s')

  unfoldable pub prune_expired_grace_members : Text → Text → Store → ℕ × Store
  unfolding prune_grace
  prune_expired_grace_members set_key grace s = prune_grace set_key grace (smembers s set_key) s
