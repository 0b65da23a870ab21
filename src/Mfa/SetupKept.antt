-- ===== src/Mfa/SetupKept.antt =====
-- services/mfa.service.ts: what `setup` shows is what it keeps, and is shown again.
use nest_auth.Prelude.{◌≡◌, ◌∙◌, some, Text, ok, Option-cases, inl, inr}
use nest_auth.Mfa.{Server, State}
use nest_auth.Mfa.Setup.{MfaSetupResult, SetupRequest, key_of, setup}
use nest_auth.Mfa.Shown.{Kept, show_again-Kept, Kept-unique, setup_inv}
use nest_auth.Mfa.Drawn.{CanEncrypt, first_setup-Kept}

module _ (server : Server) where
  open server use {env, node, encryption_key, recovery_code_count, compare}
  open server.env use {redis, hmac, hmac_key, stringify}
  open server.env.redis use {Store, get, set}

  -- Where setup goes through, what is kept is what is shown.
  setup-Kept :
      (r : SetupRequest) (w w' : State server) (shown : MfaSetupResult)
      → CanEncrypt server r
      → setup server r w ≡ (ok shown, w')
      → (raw : Text) × Kept server raw shown × (get w'.store (key_of server r) ≡ some raw)
  setup-Kept r w w' shown can h =
      let (user, v, fits, fetched, off, users, same, run) = setup_inv server r w w' shown h in
      elim (Option-cases (get w.store (key_of server r))) [
        | inl free ↦
            let (raw, k, stands, _, _) =
              first_setup-Kept server r user v w' shown can (same ∙ free) (rw free at run) in
            (raw, k, stands)
        | inr (raw, stood) ↦
            let (k, stays) = show_again-Kept server user raw v w' shown (rw stood at run) in
            (raw, k, rw stays (same ∙ stood))
      ]

  -- Where what is drawn can be encrypted, a setup that goes through while the record of an
  -- earlier one stands, of the same account, shows the secret and the recovery codes that the
  -- earlier one has shown, whatever it draws itself, and leaves that record.
  pub setup-repeats :
      (r r' : SetupRequest) (w w' v v' : State server) (shown again : MfaSetupResult)
      → CanEncrypt server r
      → setup server r w ≡ (ok shown, w')
      → setup server r' v ≡ (ok again, v')
      → key_of server r' ≡ key_of server r
      → get v.store (key_of server r) ≡ get w'.store (key_of server r)
      → (again.secret ≡ shown.secret)
        × (again.recovery_codes ≡ shown.recovery_codes)
        × (get v'.store (key_of server r) ≡ get w'.store (key_of server r))
  setup-repeats r r' w w' v v' shown again can h h' one_key same =
      let (raw, k, stands) = setup-Kept r w w' shown can h in
      let stood : get v.store (key_of server r) ≡ some raw = same ∙ stands in
      let (user, u, fits, fetched, off, users, kept, run) = setup_inv server r' v v' again h' in
      let (k', stays) = show_again-Kept server user raw u v' again (rw (one_key, stood) at run) in
      let (secret, codes) = Kept-unique server raw shown again k k' in
      (secret, codes, rw stays ((rw one_key at kept) ∙ same))
