-- ===== src/Mfa/LockSets.antt =====
-- services/mfa.service.ts: the locks of a transition are strings, and no set is touched.
use nest_auth.Prelude.{
  ℕ, suc, ◌≡◌, refl, ◌∙◌, false, Option, Text, text_eq, contains, is_some, Result, Bool-cases, inl,
  inr,
}
use nest_auth.Redis.{Redis}
use nest_auth.Keys.{Plane}
use nest_auth.AuthRedis.Claims.{holds, set_if_absent, release_lock}
use nest_auth.Users.{Account, MfaWrite}
use nest_auth.Mfa.{Server, State}
use nest_auth.Mfa.Transition.{scoped_lock_key, legacy_lock_key, transition_mfa_record}

module _ (r : Redis) (k token j x : Text) (apart : text_eq k j ≡ false) where
  open r use {Store, smembers}

  mem-set_if_absent :
      (n : ℕ) (s : Store)
      → contains (smembers (set_if_absent r k token (suc n) s).1 j) x ≡ contains (smembers s j) x
  unfolding set_if_absent
  mem-set_if_absent n s = elim (Bool-cases (is_some (r.get s k))) [
    | inl taken ↦ rw taken refl
    | inr free ↦ rw (free, r.mem-set s k token n j x, apart) refl
  ]

  mem-release_lock :
      (s : Store) → contains (smembers (release_lock r k token s) j) x ≡ contains (smembers s j) x
  unfolding release_lock
  mem-release_lock s = elim (Bool-cases (holds (r.get s k) token)) [
    | inl mine ↦ rw (mine, r.mem-del s k j x, apart) refl
    | inr other ↦ rw other refl
  ]

module _ (server : Server) where
  open server use {env}
  open server.env use {redis}
  open server.env.redis use {Store, smembers}

  pub mem-transition_mfa_record :
      (context : Plane) (user_id : Text) (tenant_id : Option Text)
      (mutate : Account → Result (Option MfaWrite)) (lock_token : Text) (w : State server)
      (j x : Text)
      → text_eq (scoped_lock_key server context user_id tenant_id) j ≡ false
      → text_eq (legacy_lock_key server context user_id) j ≡ false
      → contains
          (smembers
            (transition_mfa_record server context user_id tenant_id mutate lock_token w).1.store
            j)
          x
        ≡ contains (smembers w.store j) x
  unfolding transition_mfa_record
  mem-transition_mfa_record context user_id tenant_id mutate lock_token w j x apart apart' =
      let a = scoped_lock_key server context user_id tenant_id in
      let b = legacy_lock_key server context user_id in
      let s1 = (set_if_absent redis a lock_token 10 w.store).1 in
      let s2 = (set_if_absent redis b lock_token 10 s1).1 in
      let m1 = mem-set_if_absent redis a lock_token j x apart 9 w.store in
      let m2 = mem-set_if_absent redis b lock_token j x apart' 9 s1 in
      let back = mem-release_lock redis a lock_token j x apart in
      elim (Bool-cases (set_if_absent redis a lock_token 10 w.store).0) [
        | inr beaten ↦ rw beaten m1
        | inl took ↦ elim (Bool-cases (text_eq b a)) [
          | inl same ↦ rw (took, same) (back s1 ∙ m1)
          | inr two ↦ elim (Bool-cases (set_if_absent redis b lock_token 10 s1).0) [
            | inl took' ↦
                rw (took, two, took')
                  (mem-release_lock redis b lock_token j x apart' _ ∙ back s2 ∙ m2 ∙ m1)
            | inr beaten ↦ rw (took, two, beaten) (back s2 ∙ m2 ∙ m1)
          ]
        ]
      ]
