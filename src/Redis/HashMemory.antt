-- ===== src/Redis/HashMemory.antt =====
-- A server with hashes in memory, which has the documented effects.
use nest_auth.Prelude.{
  ℕ, ◌+◌, ◌≡◌, refl, ap, ◌&&◌, Option, none, some, Text, text_eq, if◌then◌else◌,
}
use nest_auth.Prelude.Decimal.{decimal, number_of, number_of-decimal}
use nest_auth.Redis.Hashes.{Hashes}

abbrev count_of : Option Text → ℕ
count_of none = 0
count_of (some count) = number_of count

abbrev pub HashMemory : Type 0
HashMemory = Text → Text → Option Text

abbrev write : HashMemory → Text → Text → Option Text → HashMemory
write s k f v = λ j g. if text_eq k j && text_eq f g then v else s j g

pub count_of-decimal : (o : Option Text) (n : ℕ) → o ≡ some (decimal n) → count_of o ≡ n
count_of-decimal o n e = rw e (number_of-decimal n)

abbrev pub hash_memory : Hashes
hash_memory = record {
  Store = HashMemory;
  hget = λ s k f. s k f;
  hset = λ s k f v. write s k f (some v);
  hincr = λ s k f. write s k f (some (decimal (count_of (s k f) + 1)));
  del = λ s k j g. if text_eq k j then none else s j g;
  expire = λ s k t. s;
  hget-hset = λ s k f v j g. refl;
  hget-hincr = λ s k f n j g h.
      ap (λ m. if text_eq k j && text_eq f g then some (decimal (m + 1)) else s j g)
        (count_of-decimal (s k f) n h);
  hget-del = λ s k j g. refl;
  hget-expire = λ s k t j g. refl;
}
