-- ===== src/SessionService/Eviction.antt =====
-- What the eviction of sessions deletes, and what it leaves.
use nest_auth.Prelude.{
  ◌≡◌, refl, ◌∙◌, Bool, true, false, ◌&&◌, ◌||◌, not, none, text_eq_refl, List, [], ◌∷◌, Text,
  text_eq, contains, if◌then◌else◌, arith,
}
use nest_auth.Json.{Platform}
use nest_auth.Keys.{dashboard, Slot, live, index, detail, key}
use nest_auth.Keys.Apart.{same_slot, text_eq-slot}
use nest_auth.SessionService.{hash_of, evict}

-- One of the members has the hash.
abbrev pub names : List Text → Text → Bool
names [] hash = false
names (member ∷ rest) hash = text_eq (hash_of member) hash || names rest hash

module _ (env : Platform) (u : Text) where
  open env use {redis}
  open redis use {Store, get, smembers}

  pub mem-evict :
      (evicted : List Text) (s : Store) (y : Text)
      → contains (smembers (evict env (key dashboard index u) evicted s) (key dashboard index u)) y
        ≡ (contains (smembers s (key dashboard index u)) y && not (contains evicted y))
  unfolding evict
  mem-evict [] s y = ground arith
  mem-evict (m ∷ rest) s y =
      mem-evict rest _ y
      ∙ simp (redis.mem-del, redis.mem-srem, text_eq-slot, text_eq_refl) (ground arith)

  -- The refresh sessions and detail records of the evicted are deleted, and no others.
  pub get-evict :
      (evicted : List Text) (s : Store) (a : Slot) (hash : Text)
      → same_slot live a || same_slot detail a ≡ true
      → get (evict env (key dashboard index u) evicted s) (key dashboard a hash)
        ≡ (if names evicted hash then none else get s (key dashboard a hash))
  unfolding evict
  get-evict [] s a hash h = refl
  get-evict (m ∷ rest) s a hash h =
      get-evict rest _ a hash h
      ∙ simp (redis.get-del, redis.get-srem, text_eq-slot) (ground (arith))
