-- ===== src/Mfa/Reauthenticated.antt =====
-- services/mfa.service.ts: `assertReauthenticated` leaves the accounts and the pending setups.
use nest_auth.Prelude.{
  ◌≡◌, refl, ◌∙◌, subst, Bool, true, false, Option, none, some, Text, text_eq, Result, ok, raise,
  Bool-cases, inl, inr,
}
use nest_auth.Prelude.Action.{through, reply_inv, throw_if_inv}
use nest_auth.Keys.{Plane}
use nest_auth.BruteForce.{lockout_key, is_valid_identifier, reset_failures}
use nest_auth.Mfa.{
  Server, State, Flow, reauth, writes, and_legacy, legacy_counter, scoped_counter,
  reset_mfa_flow_failures,
}
use nest_auth.Mfa.Gated.{users-reset_mfa_flow_failures}
use nest_auth.Mfa.Removal.{matched, password_or_empty, assert_reauthenticated}

module _ (server : Server) where
  open server use {env, max_attempts, window_seconds}
  open server.env use {redis, hmac, hmac_key}
  open server.env.redis use {Store, get}

  -- Not the key of a count of failures.
  abbrev pub IsNoCount : Text → Type 0
  IsNoCount j = (identifier : Text) → text_eq (lockout_key identifier) j ≡ false

  module _ (j : Text) (apart : IsNoCount j) where
    abbrev reset : Text → Store → Result Store
    reset = reset_failures redis max_attempts window_seconds

    get-reset :
        (identifier : Text) (w : State server)
        → get (writes server (reset identifier) w).1.store j ≡ get w.store j
    unfolding reset_failures
    get-reset identifier w = elim (Bool-cases (is_valid_identifier identifier)) [
      | inl valid ↦
          rw valid (redis.get-del w.store (lockout_key identifier) j ∙ rw (apart identifier) refl)
      | inr invalid ↦ rw invalid refl
    ]

    get-and_legacy :
        (legacy scoped : Text) (p : Result (Unit {0}) × State server)
        → get (and_legacy server reset legacy scoped p).1.store j ≡ get p.1.store j
    get-and_legacy legacy scoped (raise code, w) = refl
    get-and_legacy legacy scoped (ok done, w) = elim (Bool-cases (text_eq legacy scoped)) [
      | inl same ↦ rw same refl
      | inr other ↦ rw other (get-reset legacy w)
    ]

    pub get-reset_mfa_flow_failures :
        (flow : Flow) (context : Plane) (user_id : Text) (tenant_id : Option Text)
        (w : State server)
        → get (reset_mfa_flow_failures server flow context user_id tenant_id w).1.store j
          ≡ get w.store j
    unfolding reset_mfa_flow_failures
    get-reset_mfa_flow_failures flow context user_id tenant_id w =
        let scoped = scoped_counter server flow context user_id tenant_id in
        get-and_legacy (legacy_counter server flow context user_id) scoped
          (writes server (reset scoped) w)
        ∙ get-reset scoped w

    matched-keeps :
        (context : Plane) (user_id : Text) (tenant_id : Option Text) (matches : Bool)
        (w w' : State server)
        → matched server context user_id tenant_id matches w ≡ (ok tt, w')
        → (w'.users ≡ w.users) × (get w'.store j ≡ get w.store j)
    matched-keeps context user_id tenant_id true w w' h = (
      subst (λ p. p.1.users ≡ w.users) h
          (users-reset_mfa_flow_failures server reauth context user_id tenant_id w),
      subst (λ p. get p.1.store j ≡ get w.store j) h
          (get-reset_mfa_flow_failures reauth context user_id tenant_id w),
    )
    matched-keeps context user_id tenant_id false w w' h = through h λ done w1 e1 h1. cc

    -- Where a caller is known, the accounts and the keys that count no failures are as they were.
    pub assert_reauthenticated-keeps :
        (compare : Text → Text → Bool) (context : Plane) (user_id : Text)
        (password_hash password tenant_id : Option Text) (w w' : State server)
        → assert_reauthenticated server compare context user_id password_hash password tenant_id w
          ≡ (ok tt, w')
        → (w'.users ≡ w.users) × (get w'.store j ≡ get w.store j)
    unfolding assert_reauthenticated
    assert_reauthenticated-keeps compare context user_id none password tenant_id w w' h =
        let same = (reply_inv _ _ h).1 in rw same (refl, refl)
    assert_reauthenticated-keeps compare context user_id (some hash) password tenant_id w w' h =
        through h λ locked w1 e1 h1. through h1 λ free w2 e2 h2.
          let start : w2 ≡ w = (throw_if_inv _ _ _ e2).1 ∙ (reply_inv _ _ e1).1 in
          let after =
            matched-keeps context user_id tenant_id
              (compare (password_or_empty server password) hash) w2 w' h2 in
          rw start at after
