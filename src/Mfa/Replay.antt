-- ===== src/Mfa/Replay.antt =====
-- services/mfa.service.ts: a code is accepted once.
use nest_auth.Prelude.{
  ℕ, suc, ◌+◌, ◌*◌, ◌≡◌, refl, ◌∙◌, ap, Bool, true, false, ◌&&◌, not, Option, none, some, Text,
  text_eq, text_eq_refl, is_some, if◌then◌else◌, Result, ok, raise, internal, arith, Bool-cases,
  inl, inr, text_eq_iff, eq_of_text_eq, sym,
}
use nest_auth.Redis.{Redis}
use nest_auth.Keys.{Plane}
use nest_auth.AuthRedis.Claims.{setnx, setnx-reply, get-setnx}
use nest_auth.Totp.{ℤ, effective_window, verify_totp}
use nest_auth.Mfa.{Server}
use nest_auth.Mfa.Codes.{
  totp_anti_replay_ttl_seconds, scoped_replay_key, legacy_replay_key, mark_code, marked,
  verify_totp_with_anti_replay,
}

-- The outcome of a check where the code fits or not, or the check throws.
abbrev pub outcome : Option Bool → Bool → Result Bool
outcome none is_new = raise internal
outcome (some fits) is_new = ok (fits && is_new)

module _ (r : Redis) where
  open r use {Store, get}

  -- Neither mark stands.
  abbrev pub unmarked : Text → Text → Store → Bool
  unmarked a b s = not (is_some (get s a)) && not (is_some (get s b))

  setnx_taken :
      (key : Text) (n : ℕ) (s : Store) (j : Text)
      → is_some (get (setnx r key (suc n) s).1 j)
        ≡ (if text_eq key j then true else is_some (get s j))
  setnx_taken key n s j = ground (arith, get-setnx r key n s j, text_eq_iff key j)

module _ (server : Server) where
  open server use {env, clock, to_upper_case, hmac_sha1, totp_window}
  open server.env use {redis}
  open server.env.redis use {Store, get}

  mark_code-reply :
      (a b : Text) (n : ℕ) (s : Store) → (mark_code server a b (suc n) s).0 ≡ unmarked redis a b s
  unfolding mark_code
  mark_code-reply a b n s = elim (Bool-cases (text_eq a b)) [
    | inl same ↦
        rw (same, sym (eq_of_text_eq a b same), setnx-reply redis a (suc n) s) (ground arith)
    | inr apart ↦
        rw
          (
            apart,
            setnx-reply redis a (suc n) s,
            setnx-reply redis b (suc n) (setnx redis a (suc n) s).1,
            setnx_taken redis a n s b,
            apart,
          )
          refl
  ]

  -- Both marks stand, and no other key is touched.
  mark_code-taken :
      (a b : Text) (n : ℕ) (s : Store) (j : Text)
      → is_some (get (mark_code server a b (suc n) s).1 j)
        ≡ (if text_eq a j then true else if text_eq b j then true else is_some (get s j))
  unfolding mark_code
  mark_code-taken a b n s j = elim (Bool-cases (text_eq a b)) [
    | inl same ↦ rw (same, sym (eq_of_text_eq a b same), setnx_taken redis a n s j) (ground arith)
    | inr apart ↦
        rw (apart, setnx_taken redis b n (setnx redis a (suc n) s).1 j, setnx_taken redis a n s j)
          (ground arith)
  ]

  -- The life of a mark is not 0.
  ttl_pos :
      (window : ℤ) → totp_anti_replay_ttl_seconds window ≡ suc (60 * effective_window window + 29)
  ttl_pos window = omega arith

  module _ (context : Plane) (user_id secret code : Text) (tenant_id : Option Text) where
    abbrev fits : Option Bool
    fits = verify_totp to_upper_case hmac_sha1 clock.now secret code totp_window

    abbrev is_new : Store → Bool
    is_new =
        unmarked redis (scoped_replay_key server context user_id tenant_id code)
          (legacy_replay_key server context user_id code)

    marked-reply :
        (o : Option Bool) (mark : Store → Bool × Store) (s : Store)
        → (marked server o mark s).0 ≡ outcome o (mark s).0
    marked-reply none mark s = refl
    marked-reply (some false) mark s = refl
    marked-reply (some true) mark s = refl

    -- The reply in full: it is the fit of the code, and that neither mark stands.
    pub verify_totp_with_anti_replay-reply :
        (s : Store)
        → (verify_totp_with_anti_replay server context user_id secret code tenant_id s).0
          ≡ outcome fits (is_new s)
    unfolding verify_totp_with_anti_replay
    verify_totp_with_anti_replay-reply s =
        marked-reply fits _ s
        ∙ ap (outcome fits) (
            rw (ttl_pos totp_window) (
              mark_code-reply (scoped_replay_key server context user_id tenant_id code)
                (legacy_replay_key server context user_id code)
                (60 * effective_window totp_window + 29) s))

    pub marks-taken :
        (s : Store) (j : Text)
        → fits ≡ some true
        → is_some
            (get (verify_totp_with_anti_replay server context user_id secret code tenant_id s).1 j)
          ≡ (if text_eq (scoped_replay_key server context user_id tenant_id code) j
              then true
              else if text_eq (legacy_replay_key server context user_id code) j
              then true
              else is_some (get s j))
    unfolding verify_totp_with_anti_replay
    marks-taken s j fit =
        rw (fit, marked, ttl_pos totp_window)
          (mark_code-taken (scoped_replay_key server context user_id tenant_id code)
            (legacy_replay_key server context user_id code) (60 * effective_window totp_window + 29)
            s j)

    reply-fitting :
        (s : Store) (b : Bool)
        → fits ≡ some true
        → is_new s ≡ b
        → (verify_totp_with_anti_replay server context user_id secret code tenant_id s).0 ≡ ok b
    reply-fitting s b fit new = verify_totp_with_anti_replay-reply s ∙ rw (fit, outcome) (ap ok new)

    is_new-after :
        (s : Store)
        → fits ≡ some true
        → is_new (verify_totp_with_anti_replay server context user_id secret code tenant_id s).1
          ≡ false
    is_new-after s fit =
        let a = scoped_replay_key server context user_id tenant_id code in
        rw (marks-taken s a fit, text_eq_refl a) refl

    -- Of a code that fits, verifyTotpWithAntiReplay answers true exactly when neither the scoped
    -- nor the legacy mark of the code stands; the check leaves both marks standing and every
    -- other key with or without a value as before; and the same code, checked again on that store
    -- or on any store where one of the marks stands, is answered false.
    pub verify_totp_with_anti_replay-once :
        (s later : Store)
        → verify_totp to_upper_case hmac_sha1 clock.now secret code totp_window ≡ some true
        → unmarked redis
            (scoped_replay_key server context user_id tenant_id code)
            (legacy_replay_key server context user_id code)
            later
          ≡ false
        → let check = verify_totp_with_anti_replay server context user_id secret code tenant_id in
          ((check s).0
            ≡ ok (
                unmarked redis
                  (scoped_replay_key server context user_id tenant_id code)
                  (legacy_replay_key server context user_id code)
                  s))
          × ((j : Text)
              → is_some (get (check s).1 j) ≡ (
                  if text_eq (scoped_replay_key server context user_id tenant_id code) j
                  then true
                  else if text_eq (legacy_replay_key server context user_id code) j
                  then true
                  else is_some (get s j)))
          × ((check (check s).1).0 ≡ ok false)
          × ((check later).0 ≡ ok false)
    verify_totp_with_anti_replay-once s later fit stands = (
      reply-fitting s (is_new s) fit refl,
      λ j. marks-taken s j fit,
      reply-fitting _ false fit (is_new-after s fit),
      reply-fitting later false fit stands,
    )
