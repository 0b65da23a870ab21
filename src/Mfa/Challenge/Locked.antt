-- ===== src/Mfa/Challenge/Locked.antt =====
-- services/mfa.service.ts: wrong codes lock the challenge of an account.
use nest_auth.Prelude.{
  ℕ, suc, ◌<◌, ◌≤◌, ◌≡◌, refl, ◌∙◌, ap, sym, subst, true, false, Option, none, Text, text_eq, leb,
  ok, raise, account_locked, arith, inl, inr, Option-cases, Bool-cases, List, [], ◌∷◌, some, length,
  All, mfa_invalid_code, min,
}
use nest_auth.Prelude.Action.{continue}
use nest_auth.Keys.{Plane, dashboard, platform, token_epoch_key}
use nest_auth.Access.{verify_with_rotation}
use nest_auth.AuthRedis.Counters.{get_user_token_epoch}
use nest_auth.BruteForce.{lockout_key, is_valid_identifier}
use nest_auth.TokenManager.MfaTemp.{
  MfaTempToken, mfa_key, temp_token_in, admit_temp_token, verify_mfa_temp_token,
}
use nest_auth.Users.{Account}
use nest_auth.Mfa.{
  Server, State, challenge, Decrypted, fetch_user_for_context, decrypt_with_rotation,
  legacy_counter, scoped_counter, is_mfa_flow_locked_out,
}
use nest_auth.Mfa.Guesses.{AreCounted, AreCounted-fresh, record-AreCounted, AreCounted-locks}
use nest_auth.Mfa.Challenge.{Attempt, enabled_secret, pass_challenge, challenge_mfa}
use nest_auth.Mfa.Challenge.Wrong.{IsWrong, challenge_mfa-counts}

not_reached : (limit m : ℕ) → m < limit → leb limit m ≡ false
not_reached limit m h = ground arith

reached : (limit n : ℕ) → limit ≤ n → leb limit n ≡ true
reached limit n h = ground arith

module _ (server : Server) where
  open server use {env, verification, max_attempts, window_seconds}
  open server.env use {redis, hmac, hmac_key}
  open server.env.redis use {Store, get}

  lockout-mfa_key : (x jti : Text) → text_eq (lockout_key x) (mfa_key env jti) ≡ false
  unfolding lockout_key mfa_key
  lockout-mfa_key x jti = refl

  lockout-epoch_key :
      (x : Text) (p : Plane) (user_id : Text) (tenant_id : Option Text)
      → text_eq (lockout_key x) (token_epoch_key hmac p user_id hmac_key tenant_id) ≡ false
  unfolding lockout_key token_epoch_key
  lockout-epoch_key x dashboard user_id tenant_id = refl
  lockout-epoch_key x platform user_id tenant_id = refl

  -- The token is judged by two keys.
  verify-same :
      (token : Text) (s s' : Store)
      → ((jti : Text) → get s' (mfa_key env jti) ≡ get s (mfa_key env jti))
      → ((p : Plane) (user_id : Text) (tenant_id : Option Text)
          → get s' (token_epoch_key hmac p user_id hmac_key tenant_id)
            ≡ get s (token_epoch_key hmac p user_id hmac_key tenant_id))
      → verify_mfa_temp_token env verification token s'
        ≡ verify_mfa_temp_token env verification token s
  unfolding verify_mfa_temp_token admit_temp_token get_user_token_epoch
  verify-same token s s' same same' =
      elim (Option-cases (verify_with_rotation verification token)) [
        | inl bad ↦ rw (verify_mfa_temp_token, bad) refl
        | inr (payload, signed) ↦ elim (Option-cases (temp_token_in payload)) [
          | inl bad ↦ rw (verify_mfa_temp_token, signed, bad) refl
          | inr (t, reads) ↦
              rw
                (
                  verify_mfa_temp_token,
                  signed,
                  reads,
                  same t.jti,
                  same' t.context t.user_id t.tenant_id,
                )
                refl
        ]
      ]

  locked_out :
      (a : Attempt) (t : MfaTempToken) (w : State server)
      → verify_mfa_temp_token env verification a.mfa_temp_token w.store ≡ ok t
      → is_mfa_flow_locked_out server challenge t.context t.user_id t.tenant_id w.store ≡ ok true
      → challenge_mfa server a w ≡ (raise account_locked, w)
  unfolding challenge_mfa pass_challenge continue
  locked_out a t w verified locked = rw (verified, locked) refl

  -- The world after challenges one after the other, the latest of the list first.
  unfoldable pub after_challenges : List Attempt → State server → State server
  after_challenges [] w = w
  after_challenges (a ∷ earlier) w = (challenge_mfa server a (after_challenges earlier w)).1

  -- A challenge with the token and a wrong code.
  abbrev pub IsGuess : Text → Account → Text → Attempt → Type 0
  IsGuess token user secret a = (a.mfa_temp_token ≡ token) × IsWrong server user secret a.code

  module _ (t : MfaTempToken) (token encrypted : Text) (user : Account) (d : Decrypted)
      (w : State server) (p : ℕ)
      (verified : verify_mfa_temp_token env verification token w.store ≡ ok t)
      (fetched : fetch_user_for_context server t.context t.user_id t.tenant_id w.users ≡ ok user)
      (enabled : enabled_secret server user ≡ some encrypted)
      (opened : decrypt_with_rotation server encrypted ≡ some d) (lasts : window_seconds ≡ suc p)
      (valid : is_valid_identifier (scoped_counter server challenge t.context t.user_id t.tenant_id)
        ≡ true)
      (valid' : is_valid_identifier (legacy_counter server challenge t.context t.user_id) ≡ true)
      (fresh : get w.store
          (lockout_key (scoped_counter server challenge t.context t.user_id t.tenant_id))
        ≡ none)
      (fresh' : get w.store (lockout_key (legacy_counter server challenge t.context t.user_id))
        ≡ none)
      (positive : 0 < max_attempts) where
    -- So many failures are counted, and nothing else is changed.
    abbrev Counts : ℕ → State server → Type 0
    Counts n v =
        (v.users ≡ w.users)
        × AreCounted server challenge t.context t.user_id t.tenant_id n w.store v.store

    verified-Counts :
        (n : ℕ) (v : State server) (a : Attempt)
        → Counts n v
        → a.mfa_temp_token ≡ token
        → verify_mfa_temp_token env verification a.mfa_temp_token v.store ≡ ok t
    verified-Counts n v a counts same =
        ap (λ x. verify_mfa_temp_token env verification x v.store) same
        ∙ verify-same token w.store v.store
            (λ jti. counts.1.2 (mfa_key env jti) (lockout-mfa_key _ jti) (lockout-mfa_key _ jti))
            (λ q user_id tenant_id.
              counts.1.2 (token_epoch_key hmac q user_id hmac_key tenant_id)
                (lockout-epoch_key _ q user_id tenant_id) (lockout-epoch_key _ q user_id tenant_id))
        ∙ verified

    locks-Counts :
        (n : ℕ) (v : State server)
        → Counts n v
        → is_mfa_flow_locked_out server challenge t.context t.user_id t.tenant_id v.store
          ≡ ok (leb max_attempts n)
    locks-Counts n v counts =
        AreCounted-locks server challenge t.context t.user_id t.tenant_id p lasts valid valid' n
          w.store v.store positive counts.1

    guess-Counts :
        (n : ℕ) (v : State server) (a : Attempt)
        → n < max_attempts
        → Counts n v
        → IsGuess token user d.secret a
        → (v' : State server) × (challenge_mfa server a v ≡ (raise mfa_invalid_code, v'))
          × Counts (suc n) v'
    guess-Counts n v a few counts guess =
        let (v', recorded, users, counts') =
          record-AreCounted server challenge t.context t.user_id t.tenant_id p lasts valid valid' n
            w.store v counts.1 in
        (
          v',
          challenge_mfa-counts server a t user encrypted d v v'
              (verified-Counts n v a counts guess.0)
              (locks-Counts n v counts ∙ ap ok (not_reached max_attempts n few))
              (rw counts.0 fetched) enabled opened guess.1 recorded,
          (users ∙ counts.0, counts'),
        )

    after_challenges-Counts :
        (guesses : List Attempt)
        → All (IsGuess token user d.secret) guesses
        → Counts (min (length guesses) max_attempts) (after_challenges guesses w)
    unfolding after_challenges
    after_challenges-Counts [] wrong =
        let nothing : min 0 max_attempts ≡ 0 = ground arith in
        rw nothing (
          refl,
          AreCounted-fresh server challenge t.context t.user_id t.tenant_id p lasts valid valid'
              w.store fresh fresh',
        )
    after_challenges-Counts (a ∷ earlier) wrong =
        let before = after_challenges-Counts earlier wrong.1 in
        let v = after_challenges earlier w in
        elim (Bool-cases (leb max_attempts (length earlier))) [
          | inl full ↦
              let all : min (length earlier) max_attempts ≡ max_attempts = ground (arith, full) in
              let still : min (suc (length earlier)) max_attempts ≡ max_attempts =
                ground (arith, full) in
              let counts : Counts max_attempts v = rw all at before in
              let shut = locked_out a t v (verified-Counts max_attempts v a counts wrong.0.0) (
                locks-Counts max_attempts v counts
                ∙ ap ok (reached max_attempts max_attempts (omega arith))) in
              rw still (subst (λ r. Counts max_attempts r.1) (sym shut) counts)
          | inr short ↦
              let few : length earlier < max_attempts = ground (arith, short) in
              let so_far : min (length earlier) max_attempts ≡ length earlier =
                ground (arith, few) in
              let one_more : min (suc (length earlier)) max_attempts ≡ suc (length earlier) =
                ground (arith, few) in
              let (v', run, counts) =
                guess-Counts (length earlier) v a few (rw so_far at before) wrong.0 in
              rw one_more (subst (λ r. Counts (suc (length earlier)) r.1) (sym run) counts)
        ]

    -- With a temporary token that is accepted, on an account with a second factor whose secret
    -- can be opened, and two counters of its user that are valid identifiers and have no count
    -- yet: a wrong code that follows fewer wrong codes than are permitted is answered with
    -- MFA_INVALID_CODE, and after as many wrong codes or more every challenge with the token,
    -- whatever its code, throws ACCOUNT_LOCKED and changes neither the store nor the accounts.
    pub challenge_mfa-locks :
        (few many : List Attempt) (guess next : Attempt)
        → All (IsGuess token user d.secret) few
        → All (IsGuess token user d.secret) many
        → IsGuess token user d.secret guess
        → next.mfa_temp_token ≡ token
        → length few < max_attempts
        → max_attempts ≤ length many
        → ((challenge_mfa server guess (after_challenges few w)).0 ≡ raise mfa_invalid_code)
          × (challenge_mfa server next (after_challenges many w)
              ≡ (raise account_locked, after_challenges many w))
    challenge_mfa-locks few many guess next wrong wrong' misses same fewer enough =
        let so_far : min (length few) max_attempts ≡ length few = ground (arith, fewer) in
        let all : min (length many) max_attempts ≡ max_attempts = ground (arith, enough) in
        let counts = rw so_far at (after_challenges-Counts few wrong) in
        let counts' = rw all at (after_challenges-Counts many wrong') in
        let (v, run, _) =
          guess-Counts (length few) (after_challenges few w) guess fewer counts misses in
        (
          ap (λ r. r.0) run,
          locked_out next t (after_challenges many w)
              (verified-Counts max_attempts (after_challenges many w) next counts' same)
              (locks-Counts max_attempts (after_challenges many w) counts'
                ∙ ap ok (reached max_attempts max_attempts (omega arith))),
        )
