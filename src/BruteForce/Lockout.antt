-- ===== src/BruteForce/Lockout.antt =====
-- services/brute-force.service.ts: what a number of failures in one window does.
use nest_auth.Prelude.{
  ℕ, zero, suc, ◌<◌, ◌≡◌, refl, ◌∙◌, ap, sym, Bool, true, false, Option, none, some, Text, leb,
  ◌==◌, codes, if◌then◌else◌, Result, ok, raise, arith, text_eq, text_eq_refl, eq_of_text_eq,
  Bool-cases, inl, inr, text_eq-append,
}
use nest_auth.Prelude.Decimal.{decimal, parse_int-decimal}
use nest_auth.Redis.{Redis}
use nest_auth.AuthRedis.Counters.{incr_with_fixed_ttl}
use nest_auth.BruteForce.{
  lockout_key, is_valid_identifier, raw_reaches, count_reaches, seconds_left, is_locked_out,
  record_failure, reset_failures, get_remaining_lockout_seconds,
}

-- The next step of a run of operations, unless one has thrown.
abbrev then_do {ℓ} : {A : Type ℓ} → Result A → (A → Result A) → Result A
then_do (ok a) next = next a
then_do (raise code) next = raise code

-- What stands before the first failure, and what after it.
abbrev pub at_zero {ℓ} : {A : Type ℓ} → ℕ → A → A → A
at_zero zero before after = before
at_zero (suc n) before after = after

at_zero-ap {ℓ κ} :
    {A : Type ℓ} {B : Type κ} (n : ℕ) (f : A → B) (x y : A)
    → f (at_zero n x y) ≡ at_zero n (f x) (f y)
at_zero-ap zero f x y = refl
at_zero-ap (suc n) f x y = refl

later_count : (n : ℕ) → suc (suc n) == 1 ≡ false
later_count n = ground arith

module _ (redis : Redis) (max_attempts window : ℕ) where
  open redis use {Store, get, ttl, incr, expire}

  -- So many failures of one identifier, one after the other.
  unfoldable pub record_failures : ℕ → Text → Store → Result Store
  record_failures zero identifier s = ok s
  record_failures (suc n) identifier s =
      then_do (record_failures n identifier s)
        (record_failure redis max_attempts (suc window) identifier)

  unfoldable pub counted : ℕ → Option Text
  counted zero = none
  counted (suc n) = some (decimal (suc n))

  pub raw_reaches-counted :
      (n : ℕ) → 0 < max_attempts → raw_reaches max_attempts (counted n) ≡ leb max_attempts n
  unfolding counted
  raw_reaches-counted zero h = ground arith
  raw_reaches-counted (suc n) h = ap (count_reaches max_attempts) (parse_int-decimal (suc n))

  incr-counted : (n : ℕ) (s : Store) (k : Text) → get s k ≡ counted n → (incr s k).1 ≡ suc n
  unfolding counted
  incr-counted zero s k h = redis.incr_absent s k h
  incr-counted (suc n) s k h = redis.incr_counter s k (suc n) h ∙ omega arith

  -- The state of a key after some failures.
  get-incr_with_fixed_ttl :
      (s : Store) (k j : Text)
      → get (incr_with_fixed_ttl redis k (suc window) s).1 j
        ≡ (if text_eq k j then some (decimal (incr s k).1) else get s j)
  unfolding incr_with_fixed_ttl
  get-incr_with_fixed_ttl s k j = elim (Bool-cases ((incr s k).1 == 1)) [
    | inl first ↦ rw first (redis.get-expire (incr s k).0 k window j ∙ redis.get-incr s k j)
    | inr later ↦ rw later (redis.get-incr s k j)
  ]

  -- The store after a failure, as its strings and its times to live show it.
  unfoldable pub IsRecorded : ℕ → Text → Store → Store → Type 0
  unfolding counted
  IsRecorded n k s s' =
      ((j : Text) → get s' j ≡ (if text_eq k j then counted (suc n) else get s j))
      × ((j : Text)
          → ttl s' j ≡ (at_zero n (if text_eq k j then some (suc window) else ttl s j) (ttl s j)))

  ttl-incr_with_fixed_ttl :
      (n : ℕ) (s : Store) (k j : Text)
      → (incr s k).1 ≡ suc n
      → ttl (incr_with_fixed_ttl redis k (suc window) s).1 j
        ≡ (at_zero n (if text_eq k j then some (suc window) else ttl s j) (ttl s j))
  unfolding incr_with_fixed_ttl
  ttl-incr_with_fixed_ttl zero s k j count = rw count (
      redis.ttl-expire_string (incr s k).0 k window j
        (rw (redis.get-incr s k k, text_eq_refl k) refl)
      ∙ ap (λ o. if text_eq k j then some (suc window) else o) (redis.ttl-incr s k j))
  ttl-incr_with_fixed_ttl (suc n) s k j count = rw (count, later_count n) (redis.ttl-incr s k j)

  pub incr_with_fixed_ttl-IsRecorded :
      (n : ℕ) (s : Store) (k : Text)
      → get s k ≡ counted n
      → IsRecorded n k s (incr_with_fixed_ttl redis k (suc window) s).1
  unfolding IsRecorded counted
  incr_with_fixed_ttl-IsRecorded n s k h =
      let count = incr-counted n s k h in
      (
        λ j. get-incr_with_fixed_ttl s k j ∙ rw count refl,
        λ j. ttl-incr_with_fixed_ttl n s k j count,
      )

  if-else :
      (b : Bool) (x y w z : Option Text)
      → w ≡ (if b then y else z)
      → (if b then x else w) ≡ (if b then x else z)
  if-else true x y w z e = refl
  if-else false x y w z e = e

  -- Where so many failures lead: a store whose key stands at their number, and whose other keys are
  -- as they were.
  AreRecorded : ℕ → Text → Store → Store → Type 0
  unfolding counted
  AreRecorded n k s s' =
      ((j : Text) → get s' j ≡ (if text_eq k j then counted n else get s j))
      × (ttl s' k ≡ at_zero n (ttl s k) (some (suc window)))

  IsRecorded-AreRecorded :
      (n : ℕ) (k : Text) (s s1 s2 : Store)
      → AreRecorded n k s s1
      → IsRecorded n k s1 s2
      → AreRecorded (suc n) k s s2
  unfolding AreRecorded IsRecorded counted
  IsRecorded-AreRecorded zero k s s1 s2 before step = (
    λ j. step.0 j ∙ if-else (text_eq k j) (some (decimal 1)) none (get s1 j) (get s j) (before.0 j),
    step.1 k ∙ rw (text_eq_refl k) refl,
  )
  IsRecorded-AreRecorded (suc n) k s s1 s2 before step = (
    λ j.
        step.0 j
        ∙ if-else (text_eq k j) (some (decimal (suc (suc n)))) (some (decimal (suc n))) (get s1 j)
            (get s j) (before.0 j),
    step.1 k ∙ before.1,
  )

  absent_at :
      (s : Store) (k j : Text) → get s k ≡ none → get s j ≡ (if text_eq k j then none else get s j)
  absent_at s k j absent = elim (Bool-cases (text_eq k j)) [
    | inl same ↦ rw (same, sym (eq_of_text_eq k j same)) absent
    | inr other ↦ rw other refl
  ]

  record_failures-AreRecorded :
      (n : ℕ) (identifier : Text) (s : Store)
      → is_valid_identifier identifier ≡ true
      → get s (lockout_key identifier) ≡ none
      → (s' : Store) × (record_failures n identifier s ≡ ok s')
        × AreRecorded n (lockout_key identifier) s s'
  unfolding AreRecorded IsRecorded counted record_failures record_failure
  record_failures-AreRecorded zero identifier s valid absent =
      (s, refl, ((λ j. absent_at s (lockout_key identifier) j absent), refl))
  record_failures-AreRecorded (suc n) identifier s valid absent =
      let k = lockout_key identifier in
      let (s1, run, before) = record_failures-AreRecorded n identifier s valid absent in
      (
        (incr_with_fixed_ttl redis k (suc window) s1).1,
        rw (run, valid) refl,
        IsRecorded-AreRecorded n k s s1 (incr_with_fixed_ttl redis k (suc window) s1).1 before
            (incr_with_fixed_ttl-IsRecorded n s1 k (before.0 k ∙ rw (text_eq_refl k) refl)),
      )

  is_locked_out-AreRecorded :
      (n : ℕ) (identifier other : Text) (s s' : Store)
      → 0 < max_attempts
      → is_valid_identifier identifier ≡ true
      → AreRecorded n (lockout_key identifier) s s'
      → is_locked_out redis max_attempts (suc window) other s' ≡ (
          if text_eq identifier other
          then ok (leb max_attempts n)
          else is_locked_out redis max_attempts (suc window) other s)
  unfolding AreRecorded counted is_locked_out lockout_key
  is_locked_out-AreRecorded n identifier other s s' positive valid after =
      elim (Bool-cases (text_eq identifier other)) [
        | inl same ↦
            rw
              (
                same,
                sym (eq_of_text_eq identifier other same),
                valid,
                after.0 (lockout_key identifier),
                text_eq_refl identifier,
              )
              (ap ok (raw_reaches-counted n positive))
        | inr apart ↦
            rw
              (
                apart,
                after.0 (lockout_key other),
                text_eq-append (codes "lf:") identifier other,
                apart,
              )
              refl
      ]

  seconds_left-AreRecorded :
      (n : ℕ) (s s' : Store) (k : Text)
      → AreRecorded n k s s'
      → ok (seconds_left (ttl s' k)) ≡ at_zero n (ok (seconds_left (ttl s k))) (ok (suc window))
  unfolding AreRecorded counted
  seconds_left-AreRecorded zero s s' k after = ap (λ o. ok (seconds_left o)) after.1
  seconds_left-AreRecorded (suc n) s s' k after = ap (λ o. ok (seconds_left o)) after.1

  -- A failure after so many, whatever time is left: only the first opens a window.
  record_failure-later :
      (n : ℕ) (identifier : Text) (s : Store)
      → is_valid_identifier identifier ≡ true
      → get s (lockout_key identifier) ≡ counted n
      → (s' : Store) × (record_failure redis max_attempts (suc window) identifier s ≡ ok s')
        × (get s' (lockout_key identifier) ≡ some (decimal (suc n)))
        × (get_remaining_lockout_seconds redis max_attempts (suc window) identifier s'
            ≡ at_zero n
                (ok (suc window))
                (get_remaining_lockout_seconds redis max_attempts (suc window) identifier s))
  unfolding IsRecorded counted record_failure get_remaining_lockout_seconds
  record_failure-later n identifier s valid standing =
      let k = lockout_key identifier in
      let recorded = incr_with_fixed_ttl-IsRecorded n s k standing in
      (
        (incr_with_fixed_ttl redis k (suc window) s).1,
        rw valid refl,
        recorded.0 k ∙ rw (text_eq_refl k) refl,
        rw valid (
            ap (λ o. ok (seconds_left o)) {y = at_zero n (some (suc window)) (ttl s k)}
              (recorded.1 k ∙ rw (text_eq_refl k) refl)
            ∙ at_zero-ap n (λ o. ok (seconds_left o)) (some (suc window)) (ttl s k)),
      )

  -- Failures of a valid identifier that has none yet, where at least one is permitted, are all
  -- recorded, lock it out exactly when they are the permitted number or more, leave every other
  -- identifier locked out or not as it was, and, once there is one, leave the whole window as the
  -- time left, whether locked out or not; a further failure at any later time at which the count
  -- still stands is counted, and only the first opens a window: the time that is left then stays
  -- as it is.
  pub record_failures-locks :
      (n : ℕ) (identifier : Text) (s : Store)
      → 0 < max_attempts
      → is_valid_identifier identifier ≡ true
      → get s (lockout_key identifier) ≡ none
      → (s' : Store) × (record_failures n identifier s ≡ ok s')
        × ((other : Text)
            → is_locked_out redis max_attempts (suc window) other s' ≡ (
                if text_eq identifier other
                then ok (leb max_attempts n)
                else is_locked_out redis max_attempts (suc window) other s))
        × (get_remaining_lockout_seconds redis max_attempts (suc window) identifier s'
            ≡ at_zero n
                (get_remaining_lockout_seconds redis max_attempts (suc window) identifier s)
                (ok (suc window)))
        × ((later : Store)
            → get later (lockout_key identifier) ≡ get s' (lockout_key identifier)
            → (s'' : Store) × (record_failure redis max_attempts (suc window) identifier later
                ≡ ok s'')
              × (get s'' (lockout_key identifier) ≡ some (decimal (suc n)))
              × (get_remaining_lockout_seconds redis max_attempts (suc window) identifier s''
                  ≡ at_zero n (ok (suc window)) (
                      get_remaining_lockout_seconds redis max_attempts
                        (suc window)
                        identifier
                        later)))
  unfolding AreRecorded counted get_remaining_lockout_seconds lockout_key
  record_failures-locks n identifier s positive valid absent =
      let (s', run, after) = record_failures-AreRecorded n identifier s valid absent in
      (
        s',
        run,
        λ other. is_locked_out-AreRecorded n identifier other s s' positive valid after,
        rw valid (seconds_left-AreRecorded n s s' (lockout_key identifier) after),
        λ later same.
            record_failure-later n identifier later valid
              (same ∙ after.0 (lockout_key identifier) ∙ rw (text_eq_refl identifier) refl),
      )

  raw_reaches-if :
      (b : Bool) (o : Option Text)
      → raw_reaches max_attempts (if b then none else o)
        ≡ (if b then false else raw_reaches max_attempts o)
  raw_reaches-if true o = refl
  raw_reaches-if false o = refl

  ok-if : (b c d : Bool) → ok (if b then c else d) ≡ (if b then ok c else ok d)
  ok-if true c d = refl
  ok-if false c d = refl

  raw_reaches-del :
      (identifier other : Text) (s : Store)
      → raw_reaches max_attempts (get (redis.del s (lockout_key identifier)) (lockout_key other))
        ≡ (if text_eq identifier other
            then false
            else raw_reaches max_attempts (get s (lockout_key other)))
  unfolding lockout_key
  raw_reaches-del identifier other s =
      rw
        (
          redis.get-del s (lockout_key identifier) (lockout_key other),
          text_eq-append (codes "lf:") identifier other,
        )
        (raw_reaches-if (text_eq identifier other) (get s (lockout_key other)))

  -- A reset of a valid identifier goes through: the identifier is not locked out and has no time
  -- left, and every other valid identifier is locked out or not as before.
  pub reset_failures-unlocks :
      (identifier other : Text) (s : Store)
      → is_valid_identifier identifier ≡ true
      → is_valid_identifier other ≡ true
      → (s' : Store) × (reset_failures redis max_attempts (suc window) identifier s ≡ ok s')
        × (get_remaining_lockout_seconds redis max_attempts (suc window) identifier s' ≡ ok 0)
        × (is_locked_out redis max_attempts (suc window) other s' ≡ (
            if text_eq identifier other
            then ok false
            else is_locked_out redis max_attempts (suc window) other s))
  unfolding is_locked_out reset_failures get_remaining_lockout_seconds
  reset_failures-unlocks identifier other s valid valid' =
      let k = lockout_key identifier in
      (
        redis.del s k,
        rw valid refl,
        rw (valid, redis.ttl-del s k k, text_eq_refl k) refl,
        rw valid' (
            ap ok (raw_reaches-del identifier other s)
            ∙ ok-if (text_eq identifier other) false
                (raw_reaches max_attempts (get s (lockout_key other)))),
      )
