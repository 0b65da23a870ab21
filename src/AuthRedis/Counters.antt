-- ===== src/AuthRedis/Counters.antt =====
-- redis/auth-redis.service.ts: the counters, one with a window that its first count fixes, one whose
-- life every count renews.
use nest_auth.Prelude.{
  ℕ, ◌+◌, ◌*◌, ◌≡◌, ◌⊎◌, inl, inr, refl, ◌∙◌, ap, sym, false, Option, none, some, Text, ◌==◌,
  if◌then◌else◌, text_eq, text_eq_refl, contains,
}
use nest_auth.Prelude.Decimal.{decimal, number_of, number_of-decimal}
use nest_auth.Redis.{Redis}
use nest_auth.Json.{Platform}
use nest_auth.Keys.{Plane, token_epoch_key}

-- `Number(raw)` of a counter, where no counter is 0.
abbrev pub counter_of : Option Text → ℕ
counter_of none = 0
counter_of (some raw) = number_of raw

pub counter_of-decimal : (n : ℕ) → counter_of (some (decimal n)) ≡ n
counter_of-decimal n = number_of-decimal n

module _ (r : Redis) where
  open r use {Store, get, expire, incr}

  unfoldable pub incr_with_fixed_ttl : Text → ℕ → Store → ℕ × Store
  incr_with_fixed_ttl key ttl s =
      let (s', v) = incr s key in (v, if v == 1 then expire s' key ttl else s')

-- TOKEN_EPOCH_RETENTION_SECONDS
abbrev pub epoch_ttl_seconds : ℕ
epoch_ttl_seconds = 30 * 24 * 60 * 60

module _ (env : Platform) where
  open env use {redis, hmac, hmac_key}
  open env.redis use {Store, get, smembers, ttl, expire, incr}

  unfoldable pub get_user_token_epoch : Text → Option Text → Plane → Store → ℕ
  get_user_token_epoch user_id tenant_id kind s =
      counter_of (get s (token_epoch_key hmac kind user_id hmac_key tenant_id))

  unfoldable pub bump_user_token_epoch : Text → Option Text → Plane → Store → ℕ × Store
  bump_user_token_epoch user_id tenant_id kind s =
      let key = token_epoch_key hmac kind user_id hmac_key tenant_id in
      let (s', v) = incr s key in (v, expire s' key epoch_ttl_seconds)

  -- A counter that `INCR` alone has written.
  abbrev pub IsCounter : Option Text → Type 0
  IsCounter raw = (raw ≡ none) ⊎ ((n : ℕ) × (raw ≡ some (decimal n)))

  incr_of : (s : Store) (k : Text) → IsCounter (get s k) → (incr s k).1 ≡ counter_of (get s k) + 1
  incr_of s k (inl absent) = redis.incr_absent s k absent ∙ sym (ap (λ o. counter_of o + 1) absent)
  incr_of s k (inr (n, present)) =
      redis.incr_counter s k n present
      ∙ sym (ap (λ o. counter_of o + 1) present ∙ ap (λ v. v + 1) (counter_of-decimal n))

  get-bump :
      (s : Store) (k j : Text)
      → get (expire (incr s k).0 k epoch_ttl_seconds) j
        ≡ (if text_eq k j then some (decimal (incr s k).1) else get s j)
  get-bump s k j = redis.get-expire (incr s k).0 k 2591999 j ∙ redis.get-incr s k j

  get-bump_self :
      (s : Store) (k : Text)
      → get (expire (incr s k).0 k epoch_ttl_seconds) k ≡ some (decimal (incr s k).1)
  get-bump_self s k = get-bump s k k ∙ rw (text_eq_refl k) refl

  ttl-bump :
      (s : Store) (k : Text)
      → ttl (expire (incr s k).0 k epoch_ttl_seconds) k ≡ some epoch_ttl_seconds
  ttl-bump s k =
      redis.ttl-expire_string (incr s k).0 k 2591999 k
        (rw (redis.get-incr s k k, text_eq_refl k) refl)
      ∙ rw (text_eq_refl k) refl

  epoch_after :
      (s : Store) (k : Text)
      → IsCounter (get s k)
      → counter_of (get (expire (incr s k).0 k epoch_ttl_seconds) k) ≡ counter_of (get s k) + 1
  epoch_after s k counter =
      ap counter_of (get-bump_self s k) ∙ counter_of-decimal (incr s k).1 ∙ incr_of s k counter

  -- A bump leaves the strings under other keys.
  pub get-bump_user_token_epoch :
      (user_id : Text) (tenant_id : Option Text) (kind : Plane) (s : Store) (j : Text)
      → text_eq (token_epoch_key hmac kind user_id hmac_key tenant_id) j ≡ false
      → get (bump_user_token_epoch user_id tenant_id kind s).1 j ≡ get s j
  unfolding bump_user_token_epoch
  get-bump_user_token_epoch user_id tenant_id kind s j other =
      get-bump s (token_epoch_key hmac kind user_id hmac_key tenant_id) j ∙ rw other refl

  -- A bump moves the epoch of the user up by one and replies with it, renews its life in full, and
  -- leaves the strings under all other keys as they were.
  pub bump_user_token_epoch_lem :
      (user_id : Text) (tenant_id : Option Text) (kind : Plane) (s : Store)
      → IsCounter (get s (token_epoch_key hmac kind user_id hmac_key tenant_id))
      → ((bump_user_token_epoch user_id tenant_id kind s).0
          ≡ get_user_token_epoch user_id tenant_id kind s + 1)
        × (get_user_token_epoch user_id tenant_id kind
              (bump_user_token_epoch user_id tenant_id kind s).1
            ≡ get_user_token_epoch user_id tenant_id kind s + 1)
        × (ttl
              (bump_user_token_epoch user_id tenant_id kind s).1
              (token_epoch_key hmac kind user_id hmac_key tenant_id)
            ≡ some epoch_ttl_seconds)
        × ((j : Text)
            → text_eq (token_epoch_key hmac kind user_id hmac_key tenant_id) j ≡ false
            → get (bump_user_token_epoch user_id tenant_id kind s).1 j ≡ get s j)
  unfolding bump_user_token_epoch get_user_token_epoch
  bump_user_token_epoch_lem user_id tenant_id kind s counter =
      let k = token_epoch_key hmac kind user_id hmac_key tenant_id in
      (
        incr_of s k counter,
        epoch_after s k counter,
        ttl-bump s k,
        get-bump_user_token_epoch user_id tenant_id kind s,
      )

  -- A bump leaves the members of every set.
  pub mem-bump_user_token_epoch :
      (user_id : Text) (tenant_id : Option Text) (kind : Plane) (s : Store) (j x : Text)
      → contains (smembers (bump_user_token_epoch user_id tenant_id kind s).1 j) x
        ≡ contains (smembers s j) x
  unfolding bump_user_token_epoch
  mem-bump_user_token_epoch user_id tenant_id kind s j x =
      let k = token_epoch_key hmac kind user_id hmac_key tenant_id in
      redis.mem-expire (incr s k).0 k 2591999 j x ∙ redis.mem-incr s k j x
