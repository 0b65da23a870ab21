-- ===== src/TokenManager/Recovery.antt =====
-- services/token-manager.service.ts: the presentation of a refresh token in its grace window.
use nest_auth.Prelude.{
  ◌≡◌, refl, ◌∙◌, ap, sym, true, false, none, some, [], ◌∷◌, ◌++◌, Text, text_eq, contains, Free,
  raise, refresh_token_invalid, if◌then◌else◌, Bool-cases, inl, inr, ok,
}
use nest_auth.Json.{Platform}
use nest_auth.Keys.{dashboard, live, grace, family, key}
use nest_auth.AuthRedis.Scripts.{take_grace}
use nest_auth.AuthRedis.Sessions.{rotate_call, family_of}
use nest_auth.AuthRedis.Sessions.Replayed.{outcome-recovered, run_consumed}
use nest_auth.TokenManager.{
  RefreshSession, Settings, Clock, serialize_session, is_within_absolute_lifetime,
  is_rotatable_tenant,
}
use nest_auth.AuthRedis.Scripts.Effects.{get-take_grace}
use nest_auth.TokenManager.Records.{family_of-serialize_session, parse_session-serialize_session}
use nest_auth.TokenManager.Refresh.{
  Exchange, rotate_from_grace, recover_session, on_outcome, rotate_seed, reissue_tokens,
}
use nest_auth.TokenManager.Renewal.{params_of, stored_session-named}
use nest_auth.TokenManager.Replay.{
  placeholder, placeholder_within, placeholder_rotatable, run_placeholder,
}

module _ (env : Platform) (settings : Settings) (clock : Clock) (x : Exchange)
    (session : RefreshSession) where
  open env use {redis, sha256}
  open env.redis use {Store, get, smembers}

  refused_recovery :
      (s : Store)
      → (if is_within_absolute_lifetime settings clock session
          then is_rotatable_tenant session
          else false)
        ≡ false
      → recover_session env settings clock x session s ≡ (raise refresh_token_invalid, none, s)
  unfolding recover_session
  refused_recovery s unfit =
      elim (Bool-cases (is_within_absolute_lifetime settings clock session)) [
        | inl within ↦
            rw
              (
                within,
                recover_session,
                sym (ap (λ b. if b then is_rotatable_tenant session else false) within) ∙ unfit,
              )
              refl
        | inr outlived ↦ rw (outlived, recover_session) refl
      ]

  refused_grace :
      (s : Store)
      → text_eq session.family_id [] ≡ false
      → (if is_within_absolute_lifetime settings clock session
          then is_rotatable_tenant session
          else false)
        ≡ false
      → rotate_from_grace env settings clock x (serialize_session env session) s
        ≡ (raise refresh_token_invalid, none, s)
  unfolding rotate_from_grace
  refused_grace s named unfit =
      rw
        (
          parse_session-serialize_session env session ∙ ap ok (stored_session-named session named),
          rotate_from_grace,
        )
        (refused_recovery s unfit)

  run_late :
      (s : Store) (hash r m : Text)
      → Free b':' hash
      → get s (key dashboard live (sha256 x.old_refresh)) ≡ none
      → get s (key dashboard grace (sha256 x.old_refresh))
        ≡ some (hash ++ b':' ∷ serialize_session env session)
      → get s (key dashboard live hash) ≡ some r
      → contains
          (smembers s (key dashboard family (family_of env (serialize_session env session))))
          m
        ≡ true
      → text_eq session.family_id [] ≡ false
      → (if is_within_absolute_lifetime settings clock session
          then is_rotatable_tenant session
          else false)
        ≡ false
      → reissue_tokens env settings clock x s ≡ (
        raise refresh_token_invalid,
        none,
        take_grace redis
            (rotate_call env (params_of env settings clock x (placeholder env settings clock x s)))
            s,
      )
  unfolding rotate_seed on_outcome
  run_late s hash r m free gone opened alive mate named unfit =
      let p = params_of env settings clock x (placeholder env settings clock x s) in
      let outcome =
        outcome-recovered env p s hash (serialize_session env session) r m free gone opened alive
          mate in
      run_placeholder env settings clock x s gone
      ∙ rw
          (
            placeholder_within env settings clock x s,
            rotate_seed,
            placeholder_rotatable env settings clock x s,
            outcome,
            run_consumed env p s gone,
          )
          (refused_grace _ named unfit)

  -- The grace window does not reach beyond the absolute cap: where the pointer of a refresh token
  -- that was exchanged holds the record of a living session of a family, and the login of this record
  -- has outlived the cap or names no tenant, the token is refused, nothing is reported, and of the
  -- strings only the pointer is gone.
  pub reissue_tokens-late :
      (s : Store) (hash r m : Text)
      → Free b':' hash
      → get s (key dashboard live (sha256 x.old_refresh)) ≡ none
      → get s (key dashboard grace (sha256 x.old_refresh))
        ≡ some (hash ++ b':' ∷ serialize_session env session)
      → get s (key dashboard live hash) ≡ some r
      → contains (smembers s (key dashboard family session.family_id)) m ≡ true
      → text_eq session.family_id [] ≡ false
      → (if is_within_absolute_lifetime settings clock session
          then is_rotatable_tenant session
          else false)
        ≡ false
      → let run = reissue_tokens env settings clock x s in
        (run.0 ≡ raise refresh_token_invalid)
        × (run.1 ≡ none)
        × ((j : Text)
            → get run.2 j
              ≡ (if text_eq (key dashboard grace (sha256 x.old_refresh)) j then none else get s j))
  reissue_tokens-late s hash r m free gone opened alive mate named unfit =
      rw
        (run_late s hash r m free gone opened alive (rw family_of-serialize_session mate) named
          unfit)
        (
          refl,
          refl,
          get-take_grace redis
              (rotate_call env
                (params_of env settings clock x (placeholder env settings clock x s)))
              s,
        )
