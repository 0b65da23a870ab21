-- ===== src/Mfa/Guesses.antt =====
-- services/mfa.service.ts: wrong codes lock a flow.
use nest_auth.Prelude.{
  ℕ, zero, suc, ◌<◌, ◌≡◌, refl, ◌∙◌, ap, true, false, Option, none, Text, codes, text_eq,
  text_eq_refl, leb, if◌then◌else◌, Result, ok, arith, Bool-cases, inl, inr, eq_of_text_eq,
  text_eq_iff, text_eq-append,
}
use nest_auth.Keys.{Plane}
use nest_auth.AuthRedis.Counters.{incr_with_fixed_ttl}
use nest_auth.BruteForce.{
  lockout_key, is_valid_identifier, raw_reaches, is_locked_out, record_failure,
}
use nest_auth.BruteForce.Lockout.{
  counted, raw_reaches-counted, IsRecorded, incr_with_fixed_ttl-IsRecorded,
}
use nest_auth.Mfa.{
  Server, State, Flow, legacy_counter, scoped_counter, is_mfa_flow_locked_out,
  record_mfa_flow_failure, writes, and_legacy,
}

module _ (server : Server) where
  open server use {env, max_attempts, window_seconds}
  open server.env use {redis}
  open server.env.redis use {Store, get}

  module _ (flow : Flow) (context : Plane) (user_id : Text) (tenant_id : Option Text) where
    abbrev pub legacy : Text
    legacy = legacy_counter server flow context user_id

    abbrev pub scoped : Text
    scoped = scoped_counter server flow context user_id tenant_id

    -- Both counters stand at a number, and what is no counter is as it was.
    abbrev pub AreCounted : ℕ → Store → Store → Type 0
    AreCounted n s s' =
        (get s' (lockout_key scoped) ≡ counted redis max_attempts 0 n)
        × (get s' (lockout_key legacy) ≡ counted redis max_attempts 0 n)
        × ((j : Text)
            → text_eq (lockout_key scoped) j ≡ false
            → text_eq (lockout_key legacy) j ≡ false
            → get s' j ≡ get s j)

    swapped : text_eq legacy scoped ≡ false → text_eq scoped legacy ≡ false
    swapped apart = ground (arith, text_eq_iff legacy scoped, text_eq_iff scoped legacy)

    module _ (p : ℕ) (lasts : window_seconds ≡ suc p) (valid : is_valid_identifier scoped ≡ true)
        (valid' : is_valid_identifier legacy ≡ true) where
      abbrev one : Text → Store → Store
      one identifier s = (incr_with_fixed_ttl redis (lockout_key identifier) window_seconds s).1

      counted-any : (n : ℕ) → counted redis max_attempts 0 n ≡ counted redis max_attempts p n
      unfolding counted
      counted-any zero = refl
      counted-any (suc n) = refl

      get-one :
          (identifier : Text) (n : ℕ) (s : Store) (j : Text)
          → get s (lockout_key identifier) ≡ counted redis max_attempts 0 n
          → get (one identifier s) j ≡ (
              if text_eq (lockout_key identifier) j
              then counted redis max_attempts 0 (suc n)
              else get s j)
      unfolding IsRecorded
      get-one identifier n s j h =
          rw (lasts, counted-any (suc n))
            ((incr_with_fixed_ttl-IsRecorded redis max_attempts p n s (lockout_key identifier)
                (h ∙ counted-any n)).0
              j)

      count_self :
          (identifier : Text) (n : ℕ) (s : Store)
          → get s (lockout_key identifier) ≡ counted redis max_attempts 0 n
          → get (one identifier s) (lockout_key identifier) ≡ counted redis max_attempts 0 (suc n)
      count_self identifier n s h =
          get-one identifier n s (lockout_key identifier) h
          ∙ rw (text_eq_refl (lockout_key identifier)) refl

      one-AreCounted :
          (n : ℕ) (s t : Store)
          → text_eq legacy scoped ≡ true
          → AreCounted n s t
          → AreCounted (suc n) s (one scoped t)
      one-AreCounted n s t same (a, b, others) =
          let count = count_self scoped n t a in
          (
            count,
            rw (eq_of_text_eq legacy scoped same) count,
            λ j apart apart'. get-one scoped n t j a ∙ rw apart (others j apart apart'),
          )

      two-AreCounted :
          (n : ℕ) (s t : Store)
          → text_eq legacy scoped ≡ false
          → AreCounted n s t
          → AreCounted (suc n) s (one legacy (one scoped t))
      unfolding lockout_key
      two-AreCounted n s t apart (a, b, others) =
          let apart_keys : text_eq (lockout_key legacy) (lockout_key scoped) ≡ false =
            text_eq-append (codes "lf:") legacy scoped ∙ apart in
          let kept : get (one scoped t) (lockout_key legacy) ≡ counted redis max_attempts 0 n =
            get-one scoped n t (lockout_key legacy) a
            ∙ rw (text_eq-append (codes "lf:") scoped legacy, swapped apart) b in
          (
            get-one legacy n (one scoped t) (lockout_key scoped) kept
                ∙ rw apart_keys (count_self scoped n t a),
            count_self legacy n (one scoped t) kept,
            λ j other other'.
                get-one legacy n (one scoped t) j kept
                ∙ rw (other', get-one scoped n t j a, other) (others j other other'),
          )

      abbrev record_ : Text → Store → Result Store
      record_ = record_failure redis max_attempts window_seconds

      recorded :
          (identifier : Text) (w : State server)
          → is_valid_identifier identifier ≡ true
          → writes server (record_ identifier) w
            ≡ (ok tt, record w { store = one identifier w.store })
      unfolding record_failure
      recorded identifier w ok_ = rw ok_ refl

      pub record-AreCounted :
          (n : ℕ) (s : Store) (w : State server)
          → AreCounted n s w.store
          → (w' : State server) × (record_mfa_flow_failure server flow context user_id tenant_id w
              ≡ (ok tt, w'))
            × (w'.users ≡ w.users)
            × AreCounted (suc n) s w'.store
      unfolding record_mfa_flow_failure
      record-AreCounted n s w counts = elim (Bool-cases (text_eq legacy scoped)) [
        | inl same ↦ (
          record w { store = one scoped w.store },
          ap (and_legacy server record_ legacy scoped) (recorded scoped w valid) ∙ rw same refl,
          refl,
          one-AreCounted n s w.store same counts,
        )
        | inr apart ↦ (
          record w { store = one legacy (one scoped w.store) },
          ap (and_legacy server record_ legacy scoped) (recorded scoped w valid)
              ∙ rw apart (recorded legacy (record w { store = one scoped w.store }) valid'),
          refl,
          two-AreCounted n s w.store apart counts,
        )
      ]

      pub AreCounted-fresh :
          (s : Store)
          → get s (lockout_key scoped) ≡ none
          → get s (lockout_key legacy) ≡ none
          → AreCounted 0 s s
      unfolding counted
      AreCounted-fresh s a b = (a, b, λ j other other'. refl)

      counted-reaches :
          (n : ℕ)
          → 0 < max_attempts
          → raw_reaches max_attempts (counted redis max_attempts 0 n) ≡ leb max_attempts n
      counted-reaches n positive = raw_reaches-counted redis max_attempts 0 n positive

      -- The flow is locked exactly when the count has reached the limit.
      pub AreCounted-locks :
          (n : ℕ) (s t : Store)
          → 0 < max_attempts
          → AreCounted n s t
          → is_mfa_flow_locked_out server flow context user_id tenant_id t ≡ ok (leb max_attempts n)
      unfolding is_mfa_flow_locked_out is_locked_out
      AreCounted-locks n s t positive (a, b, others) = elim (Bool-cases (leb max_attempts n)) [
        | inl reached ↦ rw (valid, a, counted-reaches n positive, reached) refl
        | inr short ↦ elim (Bool-cases (text_eq legacy scoped)) [
          | inl same ↦ rw (valid, a, counted-reaches n positive, short, same) refl
          | inr apart ↦
              rw (valid, a, counted-reaches n positive, short, apart, valid', b)
                (ap ok (counted-reaches n positive ∙ short))
        ]
      ]
