-- ===== src/Redis/Interface.antt =====
-- The Redis server that the library talks to, which is not code of the repository: its commands
-- are parameters, and the laws are the documented replies and effects of those that the library
-- sends. The library uses each key with the commands of one type only (a prefix names the type), so
-- the laws describe a server whose keys are used so; `EXISTS` stands for its two uses, on a string
-- and on a set. A time to live that is `none` is a key without expiry. Keys that the server drops
-- by itself when their time is over are the steps of the environment in Sessions.
use nest_auth.Prelude.{
  ℕ, suc, ◌+◌, ◌≡◌, Bool, true, false, ◌||◌, Option, none, some, List, [], ◌∷◌, Text, text_eq,
  contains, distinct, if◌then◌else◌, is_some,
}
use nest_auth.Prelude.Decimal.{decimal}

pub record Redis : Type 1 where
  pub Store : Type 0
  -- GET, SMEMBERS and TTL
  pub get : Store → Text → Option Text
  pub smembers : Store → Text → List Text
  pub ttl : Store → Text → Option ℕ
  -- SET with EX, DEL, SADD, SREM, EXPIRE; INCR replies with the new count. The server refuses a time
  -- to live of 0, so the laws speak of `suc t`.
  pub set : Store → Text → Text → ℕ → Store
  pub del : Store → Text → Store
  pub sadd : Store → Text → Text → Store
  pub srem : Store → Text → Text → Store
  pub expire : Store → Text → ℕ → Store
  pub incr : Store → Text → Store × ℕ
  -- A set holds a member once.
  pub distinct-smembers : (s : Store) (k : Text) → distinct (smembers s k) ≡ true
  pub get-set :
      (s : Store) (k v : Text) (t : ℕ) (j : Text)
      → get (set s k v (suc t)) j ≡ (if text_eq k j then some v else get s j)
  pub get-del : (s : Store) (k j : Text) → get (del s k) j ≡ (if text_eq k j then none else get s j)
  pub get-sadd : (s : Store) (k m j : Text) → get (sadd s k m) j ≡ get s j
  pub get-srem : (s : Store) (k m j : Text) → get (srem s k m) j ≡ get s j
  pub get-expire : (s : Store) (k : Text) (t : ℕ) (j : Text) → get (expire s k (suc t)) j ≡ get s j
  pub mem-set :
      (s : Store) (k v : Text) (t : ℕ) (j x : Text)
      → contains (smembers (set s k v (suc t)) j) x
        ≡ (if text_eq k j then false else contains (smembers s j) x)
  pub mem-del :
      (s : Store) (k j x : Text)
      → contains (smembers (del s k) j) x
        ≡ (if text_eq k j then false else contains (smembers s j) x)
  pub mem-sadd :
      (s : Store) (k m j x : Text)
      → contains (smembers (sadd s k m) j) x ≡ (
          if text_eq k j
          then text_eq m x || contains (smembers s j) x
          else contains (smembers s j) x)
  pub mem-srem :
      (s : Store) (k m j x : Text)
      → contains (smembers (srem s k m) j) x ≡ (
          if text_eq k j
          then (if text_eq m x then false else contains (smembers s j) x)
          else contains (smembers s j) x)
  pub mem-expire :
      (s : Store) (k : Text) (t : ℕ) (j x : Text)
      → contains (smembers (expire s k (suc t)) j) x ≡ contains (smembers s j) x
  pub mem-incr :
      (s : Store) (k j x : Text) → contains (smembers (incr s k).0 j) x ≡ contains (smembers s j) x
  pub get-incr :
      (s : Store) (k j : Text)
      → get (incr s k).0 j ≡ (if text_eq k j then some (decimal (incr s k).1) else get s j)
  pub incr_absent : (s : Store) (k : Text) → get s k ≡ none → (incr s k).1 ≡ 1
  pub incr_counter :
      (s : Store) (k : Text) (n : ℕ) → get s k ≡ some (decimal n) → (incr s k).1 ≡ n + 1
  pub ttl-set :
      (s : Store) (k v : Text) (t : ℕ) (j : Text)
      → ttl (set s k v (suc t)) j ≡ (if text_eq k j then some (suc t) else ttl s j)
  pub ttl-del : (s : Store) (k j : Text) → ttl (del s k) j ≡ (if text_eq k j then none else ttl s j)
  pub ttl-expire_string :
      (s : Store) (k : Text) (t : ℕ) (j : Text)
      → is_some (get s k) ≡ true
      → ttl (expire s k (suc t)) j ≡ (if text_eq k j then some (suc t) else ttl s j)
  pub ttl-incr : (s : Store) (k j : Text) → ttl (incr s k).0 j ≡ ttl s j

-- EXISTS on the key of a string, and on the key of a set: an empty set is no key.
abbrev pub exists_set : List Text → Bool
exists_set [] = false
exists_set (x ∷ xs) = true
