-- ===== src/Redis/Hashes.antt =====
-- The commands of the Redis server on keys that hold a hash, with their documented effects. `HGET` of
-- a missing key or field replies nil, which is `none`.
use nest_auth.Prelude.{ℕ, suc, ◌+◌, ◌≡◌, ◌&&◌, Option, none, some, Text, text_eq, if◌then◌else◌}
use nest_auth.Prelude.Decimal.{decimal}

pub record Hashes : Type 1 where
  pub Store : Type 0
  -- HGET, HSET of one field, HINCRBY by 1, DEL and EXPIRE
  pub hget : Store → Text → Text → Option Text
  pub hset : Store → Text → Text → Text → Store
  pub hincr : Store → Text → Text → Store
  pub del : Store → Text → Store
  pub expire : Store → Text → ℕ → Store
  pub hget-hset :
      (s : Store) (k f v j g : Text)
      → hget (hset s k f v) j g ≡ (if text_eq k j && text_eq f g then some v else hget s j g)
  pub hget-hincr :
      (s : Store) (k f : Text) (n : ℕ) (j g : Text)
      → hget s k f ≡ some (decimal n)
      → hget (hincr s k f) j g
        ≡ (if text_eq k j && text_eq f g then some (decimal (n + 1)) else hget s j g)
  pub hget-del :
      (s : Store) (k j g : Text) → hget (del s k) j g ≡ (if text_eq k j then none else hget s j g)
  pub hget-expire :
      (s : Store) (k : Text) (t : ℕ) (j g : Text) → hget (expire s k (suc t)) j g ≡ hget s j g
