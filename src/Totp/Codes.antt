-- ===== src/Totp/Codes.antt =====
-- One-time passwords have six digits, and their check finds those of the window.
use nest_auth.Prelude.{
  ℕ, zero, suc, ◌+◌, ◌*◌, ◌-◌, ◌/◌, ◌%◌, ◌^◌, ◌≤◌, ◌<◌, ◌≡◌, ◌↔◌, inl, inr, refl, sym, ap, ◌∙◌,
  subst, Bool, true, false, ◌||◌, Option, some, List, [], ◌∷◌, ◌++◌, Text, text_eq, text_eq_iff,
  length, length-append, arith, ltb, ◌==◌, Bool-cases, Option-cases,
}
use nest_auth.Prelude.Decimal.{decimal, all_digits, all_digits-decimal, length-decimal-le}
use nest_auth.Totp.{
  generate_totp, ℤ, pos, negsuc, minus, from_base32, min_secret_bytes, max_safe_integer,
  read_u_int8, write_u_int32_be, truncate, zeros, digits_of, is_code, effective_window,
  generate_hotp, check_steps, verify_totp,
}

length-zeros : (n : ℕ) → length (zeros n) ≡ n
length-zeros zero = refl
length-zeros (suc n) = ap suc (length-zeros n)

all_digits-zeros : (n : ℕ) (t : Text) → all_digits t ≡ true → all_digits (zeros n ++ t) ≡ true
all_digits-zeros zero t h = h
all_digits-zeros (suc n) t h = all_digits-zeros n t h

digits_of-is_code : (truncated : ℕ) → is_code (digits_of truncated) ≡ true
unfolding digits_of
digits_of-is_code truncated =
    let rest = decimal (truncated % 10 ^ 6) in
    ground (
      arith,
      length-append (zeros (6 - length rest)) rest,
      length-zeros (6 - length rest),
      length-decimal-le (truncated % 10 ^ 6) 5 (omega arith),
      all_digits-zeros (6 - length rest) rest (all_digits-decimal (truncated % 10 ^ 6)),
    )

read_u_int8-in_range :
    (l : List ℕ) (i : ℕ) → i < length l → (byte : ℕ) × (read_u_int8 l i ≡ some byte)
read_u_int8-in_range [] i h = absurd (omega (arith, h))
read_u_int8-in_range (byte ∷ l) zero h = (byte, refl)
read_u_int8-in_range (byte ∷ l) (suc i) h = read_u_int8-in_range l i (omega (arith, h))

-- A digest of twenty bytes is truncated.
truncate-total : (digest : List ℕ) → length digest ≡ 20 → (n : ℕ) × (truncate digest ≡ some n)
unfolding truncate
truncate-total digest h =
    let (last, e) = read_u_int8-in_range digest (length digest - 1) (omega (arith, h)) in
    let (b0, e0) = read_u_int8-in_range digest (last % 16) (omega (arith, h)) in
    let (b1, e1) = read_u_int8-in_range digest (last % 16 + 1) (omega (arith, h)) in
    let (b2, e2) = read_u_int8-in_range digest (last % 16 + 2) (omega (arith, h)) in
    let (b3, e3) = read_u_int8-in_range digest (last % 16 + 3) (omega (arith, h)) in
    elim (Option-cases (truncate digest)) [
      | inr found ↦ found
      | inl absent ↦ absurd (ground (arith, rw (e, e0, e1, e2, e3) at absent))
    ]

minus-pos : (a b : ℕ) → b ≤ a → minus a b ≡ pos (a - b)
minus-pos a zero h = ap pos (omega arith)
minus-pos zero (suc b) h = absurd (omega (arith, h))
minus-pos (suc a) (suc b) h = minus-pos a b (omega (arith, h)) ∙ ap pos (omega arith)

effective_window-le : (window : ℤ) → effective_window window ≤ 2
unfolding effective_window
effective_window-le (pos window) = omega arith
effective_window-le (negsuc window) = omega arith

module _ (to_upper_case : Text → Text) (hmac_sha1 : List ℕ → List ℕ → List ℕ) where
  abbrev hotp : Text → ℤ → Option Text
  hotp secret counter = generate_hotp to_upper_case hmac_sha1 secret counter

  -- Every code that generateHotp returns has six characters, which are digits.
  pub generate_hotp-is_code :
      (secret : Text) (counter : ℤ) (code : Text)
      → hotp secret counter ≡ some code
      → is_code code ≡ true
  unfolding generate_hotp
  generate_hotp-is_code secret (negsuc counter) code e = cc
  generate_hotp-is_code secret (pos counter) code e =
      elim (Option-cases (from_base32 to_upper_case secret)) [
        | inl absent ↦ absurd (ground (arith, rw absent at e))
        | inr (key, decodes) ↦
            let message =
              write_u_int32_be (counter / 2 ^ 32) ++ write_u_int32_be (counter % 2 ^ 32) in
            elim (Option-cases (truncate (hmac_sha1 key message))) [
              | inl absent ↦ absurd (ground (arith, rw (decodes, absent) at e))
              | inr (n, e') ↦ ground (arith, rw (decodes, e') at e, digits_of-is_code n)
            ]
      ]

  module _ (secret : Text) (key : List ℕ) (decodes : from_base32 to_upper_case secret ≡ some key)
      (long : min_secret_bytes ≤ length key)
      (digest : (k m : List ℕ) → length (hmac_sha1 k m) ≡ 20) where
    pub generate_hotp-total :
        (counter : ℕ)
        → counter ≤ max_safe_integer
        → (code : Text) × (hotp secret (pos counter) ≡ some code)
    unfolding generate_hotp
    generate_hotp-total counter safe =
        let (n, e) =
          truncate-total
            (hmac_sha1 key
              (write_u_int32_be (counter / 2 ^ 32) ++ write_u_int32_be (counter % 2 ^ 32)))
            (digest _ _) in
        let enough : ltb (length key) min_secret_bytes || ltb max_safe_integer counter ≡ false =
          ground arith in
        (digits_of n, rw (decodes, enough, e) refl)

    -- The counters of the window.
    InWindow : ℕ → ℕ → Text → ℕ → ℕ → Type 0
    InWindow step effective code k left =
        (d : ℕ) × (k ≤ d) × (d < k + left) × (hotp secret (pos (step + d - effective)) ≡ some code)

    check_steps-finds :
        (code : Text) (step effective k left : ℕ)
        → effective ≤ step
        → step + k + left ≤ max_safe_integer + 1 + effective
        → (found : Bool) × (check_steps to_upper_case hmac_sha1 secret code step effective k left
            ≡ some found)
          × ((found ≡ true) ↔ InWindow step effective code k left)
    unfolding check_steps InWindow
    check_steps-finds code step effective k zero early safe =
        (false, refl, ((λ h. cc), λ w. absurd (omega (arith, w.1, w.2))))
    check_steps-finds code step effective k (suc left) early safe =
        let (later, e, iff) =
          check_steps-finds code step effective (suc k) left early (omega (arith, safe)) in
        let (expected, made) = generate_hotp-total (step + k - effective) (omega (arith, safe)) in
        let at = ap (hotp secret) (minus-pos (step + k) effective (omega (arith, early))) ∙ made in
        elim (Bool-cases (text_eq expected code)) [
          | inl same ↦ (
            true,
            rw (check_steps, at, same) refl,
            (
              (λ h. (
                k,
                omega arith,
                omega arith,
                made ∙ ap some ((text_eq_iff expected code).0 same),
              )),
              (λ w. refl),
            ),
          )
          | inr other ↦ (
            later,
            rw (check_steps, at, other) e,
            (
              (λ h. let w = iff.0 h in (w.0, omega (arith, w.1), omega (arith, w.2), w.3)),
              (λ w. iff.1 (elim (Bool-cases (w.0 == k)) [
                | inl here ↦
                    let again : some expected ≡ some code =
                      sym made
                      ∙ subst (λ d. hotp secret (pos (step + d - effective)) ≡ some code)
                          (ground arith) w.3 in
                    absurd (ground (arith, again, text_eq_iff expected code))
                | inr further ↦ (w.0, ground (arith, w.1), omega (arith, w.2), w.3)
              ])),
            ),
          )
        ]

    -- For a secret that decodes to twenty bytes or more, digests of twenty bytes and a clock
    -- within the safe counters, verifyTotp answers, and it answers yes exactly where the code is
    -- the one generated for a counter that lies within the clamped window around the current
    -- step; the format test rules out no such code.
    pub verify_totp_iff :
        (now : ℕ) (code : Text) (window : ℤ)
        → effective_window window ≤ now / 1000 / 30
        → now / 1000 / 30 + 2 ≤ max_safe_integer
        → (found : Bool) × (verify_totp to_upper_case hmac_sha1 now secret code window ≡ some found)
          × ((found ≡ true) ↔ (
              (d : ℕ) × (d ≤ 2 * effective_window window)
              × (hotp secret (pos (now / 1000 / 30 + d - effective_window window)) ≡ some code)))
    unfolding verify_totp InWindow
    verify_totp_iff now code window early safe =
        let step = now / 1000 / 30 in
        let effective = effective_window window in
        let (found, e, iff) =
          check_steps-finds code step effective 0 (2 * effective + 1) early
            (omega (arith, safe, effective_window-le window)) in
        elim (Bool-cases (is_code code)) [
          | inl well ↦ (
            found,
            rw well e,
            (
              (λ h. let w = iff.0 h in (w.0, omega (arith, w.2), w.3)),
              (λ w. iff.1 (w.0, omega arith, omega (arith, w.1), w.2)),
            ),
          )
          | inr badly ↦ (
            false,
            rw badly refl,
            (
              (λ h. cc),
              (λ w. absurd (
                  ground
                    (arith, generate_hotp-is_code secret (pos (step + w.0 - effective)) code w.2))),
            ),
          )
        ]

    -- For a secret that decodes to twenty bytes or more, digests of twenty bytes and a clock
    -- within the safe counters, a code that generateTotp made is accepted by verifyTotp as long
    -- as the two steps lie no further apart than the clamped window.
    pub generate_totp-accepted :
        (made now : ℕ) (code : Text) (window : ℤ)
        → generate_totp to_upper_case hmac_sha1 made secret ≡ some code
        → effective_window window ≤ now / 1000 / 30
        → now / 1000 / 30 + 2 ≤ max_safe_integer
        → now / 1000 / 30 ≤ made / 1000 / 30 + effective_window window
        → made / 1000 / 30 ≤ now / 1000 / 30 + effective_window window
        → verify_totp to_upper_case hmac_sha1 now secret code window ≡ some true
    unfolding generate_totp
    generate_totp-accepted made now code window generated early safe late_enough soon_enough =
        let (found, e, iff) = verify_totp_iff now code window early safe in
        let step = now / 1000 / 30 in
        let before = made / 1000 / 30 in
        let effective = effective_window window in
        let same : step + (before + effective - step) - effective ≡ before =
          omega (arith, early, late_enough) in
        e
        ∙ ap some (
            iff.1 (
              before + effective - step,
              omega (arith, soon_enough),
              ap (λ c. hotp secret (pos c)) same ∙ generated,
            ))
