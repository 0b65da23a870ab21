-- ===== src/Redis/Memory.antt =====
-- A server in memory with the laws of Redis, which shows that the parameter of the model can be
-- given: three functions from keys, for the strings, the sets and the times to live.
use nest_auth.Prelude.{
  ℕ, ◌+◌, ◌≡◌, refl, Bool, true, false, ◌||◌, Option, none, some, List, [], ◌∷◌, Text, text_eq,
  text_eq_iff, contains, without, contains-without, dedup, contains-dedup, distinct-dedup,
  if◌then◌else◌, arith, some,
}
use nest_auth.Prelude.Decimal.{decimal, parse_int, parse_int-decimal}
use nest_auth.Redis.Interface.{Redis}

pub record Memory : Type 0 where
  pub strings : Text → Option Text
  pub sets : Text → List Text
  pub times : Text → Option ℕ

abbrev pub update {ℓ} : {A : Type ℓ} → (Text → A) → Text → A → Text → A
update f k v j = if text_eq k j then v else f j

abbrev pub count_of : Option Text → ℕ
count_of none = 0
count_of (some t) = elim (parse_int t) [ none ↦ 0 | some n ↦ n ]

abbrev pub incremented : (s : Memory) → Text → Memory × ℕ
incremented s k =
    let n = count_of (s.strings k) + 1 in
    (record s { strings = update s.strings k (some (decimal n)) }, n)

-- The members that a set is listed with.
contains-if :
    (b : Bool) (xs ys : List Text) (x : Text)
    → contains (if b then xs else ys) x ≡ (if b then contains xs x else contains ys x)
contains-if true xs ys x = refl
contains-if false xs ys x = refl

pub mem-update :
    (f : Text → List Text) (k j x : Text) (l : List Text)
    → contains (update f k l j) x ≡ (if text_eq k j then contains l x else contains (f j) x)
mem-update f k j x l = contains-if (text_eq k j) l (f j) x

pub mem-insert :
    (f : Text → List Text) (k m j x : Text)
    → contains (update f k (m ∷ without m (f k)) j) x
      ≡ (if text_eq k j then text_eq m x || contains (f j) x else contains (f j) x)
mem-insert f k m j x = rw mem-update (ground (arith, contains-without m (f k) x, text_eq_iff k j))

pub mem-erase :
    (f : Text → List Text) (k m j x : Text)
    → contains (update f k (without m (f k)) j) x ≡ (
        if text_eq k j then (if text_eq m x then false else contains (f j) x) else contains (f j) x)
mem-erase f k m j x = rw mem-update (ground (arith, contains-without m (f k) x, text_eq_iff k j))

pub count_of-decimal : (o : Option Text) (n : ℕ) → o ≡ some (decimal n) → count_of o + 1 ≡ n + 1
count_of-decimal none n h = cc
count_of-decimal (some t) n h = ground (arith, parse_int-decimal n)

pub count_of-none : (o : Option Text) → o ≡ none → count_of o + 1 ≡ 1
count_of-none none h = refl
count_of-none (some t) h = cc

abbrev pub memory : Redis
memory = record {
  Store = Memory;
  get = λ s k. s.strings k;
  smembers = λ s k. dedup (s.sets k);
  ttl = λ s k. s.times k;
  set = λ s k v t. record {
    strings = update s.strings k (some v);
    sets = update s.sets k [];
    times = update s.times k (some t);
  };
  del = λ s k. record {
    strings = update s.strings k none;
    sets = update s.sets k [];
    times = update s.times k none;
  };
  sadd = λ s k m. record s { sets = update s.sets k (m ∷ without m (s.sets k)) };
  srem = λ s k m. record s { sets = update s.sets k (without m (s.sets k)) };
  expire = λ s k t. record s { times = update s.times k (some t) };
  incr = incremented;
  distinct-smembers = λ s k. distinct-dedup (s.sets k);
  get-set = λ s k v t j. refl;
  get-del = λ s k j. refl;
  get-sadd = λ s k m j. refl;
  get-srem = λ s k m j. refl;
  get-expire = λ s k t j. refl;
  mem-set = λ s k v t j x. simp contains-dedup (mem-update s.sets k j x []);
  mem-del = λ s k j x. simp contains-dedup (mem-update s.sets k j x []);
  mem-sadd = λ s k m j x. simp contains-dedup (mem-insert s.sets k m j x);
  mem-srem = λ s k m j x. simp contains-dedup (mem-erase s.sets k m j x);
  mem-expire = λ s k t j x. refl;
  mem-incr = λ s k j x. refl;
  get-incr = λ s k j. refl;
  incr_absent = λ s k h. count_of-none (s.strings k) h;
  incr_counter = λ s k n h. count_of-decimal (s.strings k) n h;
  ttl-set = λ s k v t j. refl;
  ttl-del = λ s k j. refl;
  ttl-expire_string = λ s k t j h. refl;
  ttl-incr = λ s k j. refl;
}
