-- ===== src/Mfa/Codes.antt =====
-- services/mfa.service.ts: the codes that a user presents, one-time passwords and recovery codes.
use nest_auth.Prelude.{
  ℕ, suc, ◌+◌, ◌*◌, Bool, true, false, ◌&&◌, ◌||◌, Option, none, some, List, [], ◌∷◌, ◌++◌, Text,
  codes, text_eq, if◌then◌else◌, Result, ok, raise, internal, map,
}
use nest_auth.Keys.{Plane, user_subject}
use nest_auth.AuthRedis.Claims.{setnx}
use nest_auth.TokenManager.MfaTemp.{plane_text}
use nest_auth.Totp.{ℤ, effective_window, totp_step_seconds, verify_totp}
use nest_auth.Mfa.{Server}

-- `totpAntiReplayTtlSeconds`
abbrev pub totp_anti_replay_ttl_seconds : ℤ → ℕ
totp_anti_replay_ttl_seconds window = (2 * effective_window window + 1) * totp_step_seconds

-- RECOVERY_CODE_CLAIM_TTL_SECONDS
abbrev pub recovery_code_claim_ttl_seconds : ℕ
recovery_code_claim_ttl_seconds = 300

-- whether one of the candidates is the digest
abbrev pub is_candidate : List Text → Text → Bool
is_candidate [] hashed_code = false
is_candidate (candidate ∷ rest) hashed_code =
    text_eq candidate hashed_code || is_candidate rest hashed_code

-- the index of the first digest that is a candidate
unfoldable pub first_match : List Text → List Text → Option ℕ
first_match candidates [] = none
first_match candidates (hashed_code ∷ rest) =
    if is_candidate candidates hashed_code
    then some 0
    else elim (first_match candidates rest) [ none ↦ none | some index ↦ some (suc index) ]

module _ (server : Server) where
  open server use {env, clock, to_upper_case, hmac_sha1, totp_window, previous_hmac_keys}
  open server.env use {redis, hmac, hmac_key}
  open server.env.redis use {Store}

  unfoldable pub scoped_replay_key : Plane → Text → Option Text → Text → Text
  scoped_replay_key context user_id tenant_id code =
      codes "tu:" ++ hmac (user_subject context user_id tenant_id ++ b':' ∷ code) hmac_key

  unfoldable pub legacy_replay_key : Plane → Text → Text → Text
  legacy_replay_key context user_id code =
      codes "tu:" ++ hmac (plane_text context ++ b':' ∷ (user_id ++ b':' ∷ code)) hmac_key

  -- the marks of a code that fits, and whether they are new
  unfoldable pub mark_code : Text → Text → ℕ → Store → Bool × Store
  mark_code scoped legacy ttl s =
      let (scoped_is_new, s1) = setnx redis scoped ttl s in
      let (legacy_is_new, s2) = setnx redis legacy ttl s1 in
      if text_eq scoped legacy then (scoped_is_new, s1) else (scoped_is_new && legacy_is_new, s2)

  abbrev pub marked : Option Bool → (Store → Bool × Store) → Store → Result Bool × Store
  marked none mark s = (raise internal, s)
  marked (some false) mark s = (ok false, s)
  marked (some true) mark s = let (is_new, s') = mark s in (ok is_new, s')

  -- An error of `verifyTotp`, on a secret that is no secret, is `internal`.
  unfoldable pub verify_totp_with_anti_replay :
      Plane → Text → Text → Text → Option Text → Store → Result Bool × Store
  verify_totp_with_anti_replay context user_id secret_base32 code tenant_id =
      marked (verify_totp to_upper_case hmac_sha1 clock.now secret_base32 code totp_window) (
        mark_code (scoped_replay_key context user_id tenant_id code)
          (legacy_replay_key context user_id code) (totp_anti_replay_ttl_seconds totp_window))

  -- `digestRecoveryCode` under the present key, then the digests under the previous ones
  abbrev pub recovery_candidates : Text → List Text
  recovery_candidates code = hmac code hmac_key ∷ map (λ key. hmac code key) previous_hmac_keys

  -- `verifyRecoveryCode`; `none` is its -1
  unfoldable pub verify_recovery_code : Text → List Text → Option ℕ
  unfolding first_match
  verify_recovery_code code hashed_codes = first_match (recovery_candidates code) hashed_codes

  unfoldable pub recovery_claim_key : Plane → Text → Option Text → Text → Text
  recovery_claim_key context user_id tenant_id code =
      codes "rcu:" ++ hmac (user_subject context user_id tenant_id ++ b':' ∷ code) hmac_key

  unfoldable pub claim_recovery_code : Plane → Text → Option Text → Text → Store → Bool × Store
  claim_recovery_code context user_id tenant_id code =
      setnx redis (recovery_claim_key context user_id tenant_id code)
        recovery_code_claim_ttl_seconds
