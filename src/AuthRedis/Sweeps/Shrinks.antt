-- ===== src/AuthRedis/Sweeps/Shrinks.antt =====
-- Steps that only take away: what they leave was there before.
use nest_auth.Prelude.{
  ◌≡◌, ◌⊎◌, Bool, true, false, none, some, Text, contains, if◌then◌else◌, arith,
}
use nest_auth.Redis.{Redis}

-- Keys have been deleted, and no string has been written.
abbrev pub Shrinks : (r : Redis) → r.Store → r.Store → Type 0
Shrinks r s s' = (j : Text) → (r.get s' j ≡ none) ⊎ (r.get s' j ≡ r.get s j)

pub Shrinks-trans : (r : Redis) {s t u : r.Store} → Shrinks r s t → Shrinks r t u → Shrinks r s u
Shrinks-trans r p q j = ground (arith, p j, q j)

pub Shrinks-none :
    (r : Redis) {s t : r.Store} → Shrinks r s t → (j : Text) → r.get s j ≡ none → r.get t j ≡ none
Shrinks-none r p j h = ground (arith, p j)

pub Shrinks-some :
    (r : Redis) {s t : r.Store}
    → Shrinks r s t
    → (j v : Text) → r.get t j ≡ some v
    → r.get s j ≡ some v
Shrinks-some r p j v h = ground (arith, p j)

pub Shrinks-del : (r : Redis) (s : r.Store) (k : Text) → Shrinks r s (r.del s k)
Shrinks-del r s k j = ground (arith, r.get-del s k j)

-- Sets have lost members, and none has won one.
abbrev pub SetsShrink : (r : Redis) → r.Store → r.Store → Type 0
SetsShrink r s s' =
    (j x : Text) → contains (r.smembers s' j) x ≡ true → contains (r.smembers s j) x ≡ true

pub SetsShrink-trans :
    (r : Redis) (s t u : r.Store) → SetsShrink r s t → SetsShrink r t u → SetsShrink r s u
SetsShrink-trans r s t u p q j x h = p j x (q j x h)

pub SetsShrink-del : (r : Redis) (s : r.Store) (k : Text) → SetsShrink r s (r.del s k)
SetsShrink-del r s k j x h = ground (arith, r.mem-del s k j x)

pub SetsShrink-srem : (r : Redis) (s : r.Store) (k m : Text) → SetsShrink r s (r.srem s k m)
SetsShrink-srem r s k m j x h = ground (arith, r.mem-srem s k m j x)

pub SetsShrink-if :
    (r : Redis) (s : r.Store) (b : Bool) (t u : r.Store)
    → SetsShrink r s t
    → SetsShrink r s u
    → SetsShrink r s (if b then t else u)
SetsShrink-if r s true t u p q = p
SetsShrink-if r s false t u p q = q
