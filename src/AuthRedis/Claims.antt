-- ===== src/AuthRedis/Claims.antt =====
-- redis/auth-redis.service.ts: `SET` with `NX`, which writes only where nothing stands and answers
-- whether it wrote, and services/mfa.service.ts: the script that releases a lock.
use nest_auth.Prelude.{
  ℕ, suc, ◌≡◌, Bool, true, false, not, Option, none, some, Text, codes, text_eq, is_some,
  if◌then◌else◌, arith, text_eq_iff,
}
use nest_auth.Redis.{Redis}

-- `redis.call('GET', KEYS[1]) == ARGV[1]`
abbrev pub holds : Option Text → Text → Bool
holds none token = false
holds (some value) token = text_eq value token

module _ (r : Redis) where
  open r use {Store, get, set, del}

  -- `setIfAbsent`
  unfoldable pub set_if_absent : Text → Text → ℕ → Store → Bool × Store
  set_if_absent key value ttl s =
      if is_some (get s key) then (false, s) else (true, set s key value ttl)

  unfoldable pub setnx : Text → ℕ → Store → Bool × Store
  setnx key ttl s = if is_some (get s key) then (false, s) else (true, set s key (codes "1") ttl)

  -- RELEASE_LOCK_LUA
  unfoldable pub release_lock : Text → Text → Store → Store
  release_lock key token s = if holds (get s key) token then del s key else s

  pub setnx-reply :
      (key : Text) (ttl : ℕ) (s : Store) → (setnx key ttl s).0 ≡ not (is_some (get s key))
  unfolding setnx
  setnx-reply key ttl s = ground arith

  -- Whatever stood there, the key is taken afterwards.
  pub get-setnx :
      (key : Text) (n : ℕ) (s : Store) (j : Text)
      → get (setnx key (suc n) s).1 j ≡ (
          if text_eq key j
          then (if is_some (get s key) then get s key else some (codes "1"))
          else get s j)
  unfolding setnx
  get-setnx key n s j = ground (arith, r.get-set s key (codes "1") n j, text_eq_iff key j)

  pub set_if_absent-reply :
      (key value : Text) (ttl : ℕ) (s : Store)
      → (set_if_absent key value ttl s).0 ≡ not (is_some (get s key))
  unfolding set_if_absent
  set_if_absent-reply key value ttl s = ground arith

  pub get-set_if_absent :
      (key value : Text) (n : ℕ) (s : Store) (j : Text)
      → get (set_if_absent key value (suc n) s).1 j ≡ (
          if text_eq key j
          then (if is_some (get s key) then get s key else some value)
          else get s j)
  unfolding set_if_absent
  get-set_if_absent key value n s j = ground (arith, r.get-set s key value n j, text_eq_iff key j)

  pub get-release_lock :
      (key token : Text) (s : Store) (j : Text)
      → get (release_lock key token s) j
        ≡ (if text_eq key j then (if holds (get s key) token then none else get s key) else get s j)
  unfolding release_lock
  get-release_lock key token s j = ground (arith, r.get-del s key j, text_eq_iff key j)
