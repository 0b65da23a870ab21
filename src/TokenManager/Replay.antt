-- ===== src/TokenManager/Replay.antt =====
-- services/token-manager.service.ts: the presentation of a refresh token that was exchanged before.
use nest_auth.Prelude.{
  ◌≡◌, ◌⊎◌, inl, inr, refl, ◌∙◌, ap, true, false, none, some, [], Text, text_eq, All, All-contains,
  raise, refresh_token_invalid, if◌then◌else◌, arith, ltb, Bool-cases, ◌&&◌, not,
}
use nest_auth.Json.{Platform, str}
use nest_auth.Keys.{dashboard, live, grace, consumed, family, key}
use nest_auth.AuthRedis.Scripts.{take_grace}
use nest_auth.AuthRedis.Sessions.{reused, rotate_refresh_session, revoke_family, read_family_owner}
use nest_auth.AuthRedis.Sessions.Replayed.{outcome-reused, run_consumed}
use nest_auth.AuthRedis.Sessions.FamilyRevoked.{revoke_family-ends}
use nest_auth.TokenManager.{
  RefreshSession, Settings, Clock, build_session, read_seed_session, is_within_absolute_lifetime,
  is_rotatable_tenant,
}
use nest_auth.TokenManager.Refresh.{
  Exchange, emit_reuse_detected, on_outcome, rotate_seed, reissue_tokens,
}
use nest_auth.TokenManager.Renewal.{params_of}

module _ (env : Platform) (settings : Settings) (clock : Clock) (x : Exchange)
    (s : env.redis.Store) where
  open env use {redis, sha256}
  open env.redis use {Store, get, smembers}

  -- The record that stands in for the one of a token that is not live.
  pub placeholder : RefreshSession
  placeholder =
      build_session clock [] (some (str [])) [] x.ip x.user_agent false []
        (clock.to_iso_string clock.now) false

  pub placeholder_within : is_within_absolute_lifetime settings clock placeholder ≡ true
  unfolding placeholder is_within_absolute_lifetime build_session
  placeholder_within = elim (Bool-cases (ltb 0 settings.absolute_session_lifetime_days)) [
    | inl capped ↦ rw (capped, clock.date_parse-to_iso_string) (ground arith)
    | inr uncapped ↦ rw uncapped refl
  ]

  pub placeholder_rotatable : is_rotatable_tenant placeholder ≡ true
  unfolding placeholder is_rotatable_tenant build_session
  placeholder_rotatable = refl

  pub run_placeholder :
      get s (key dashboard live (sha256 x.old_refresh)) ≡ none
      → reissue_tokens env settings clock x s ≡ rotate_seed env settings clock x placeholder s
  unfolding reissue_tokens read_seed_session placeholder
  run_placeholder gone = rw (gone, read_seed_session, reissue_tokens) refl

  run_reused :
      (family_id : Text)
      → (rotate_refresh_session env (params_of env settings clock x placeholder) s).0
        ≡ reused family_id
      → let s' = (rotate_refresh_session env (params_of env settings clock x placeholder) s).1 in
        rotate_seed env settings clock x placeholder s ≡ (
          raise refresh_token_invalid,
          emit_reuse_detected env settings clock x dashboard
              (revoke_family env dashboard family_id s').0.1
              family_id,
          (revoke_family env dashboard family_id s').1,
        )
  unfolding rotate_seed on_outcome
  run_reused family_id outcome =
      rw (placeholder_within, rotate_seed, placeholder_rotatable, outcome) refl

  module _ (family_id : Text) (gone : get s (key dashboard live (sha256 x.old_refresh)) ≡ none)
      (closed : get s (key dashboard grace (sha256 x.old_refresh)) ≡ none)
      (marked : get s (key dashboard consumed (sha256 x.old_refresh)) ≡ some family_id) where
    store_kept : (rotate_refresh_session env (params_of env settings clock x placeholder) s).1 ≡ s
    unfolding take_grace
    store_kept =
        rw (run_consumed env (params_of env settings clock x placeholder) s gone)
          (rw (closed, take_grace) refl)

    run_replayed : reissue_tokens env settings clock x s ≡ (
      raise refresh_token_invalid,
      emit_reuse_detected env settings clock x dashboard
          (revoke_family env dashboard family_id s).0.1
          family_id,
      (revoke_family env dashboard family_id s).1,
    )
    run_replayed =
        run_placeholder gone
        ∙ run_reused family_id (
            outcome-reused env (params_of env settings clock x placeholder) s family_id gone closed
              marked)
        ∙ rw store_kept refl

    owner_revoked :
        text_eq family_id [] ≡ false
        → (revoke_family env dashboard family_id s).0.1
          ≡ (read_family_owner env dashboard (smembers s (key dashboard family family_id)) s).0
    unfolding revoke_family
    owner_revoked named = rw (named, revoke_family) refl

    reported :
        (owner : Text)
        → emit_reuse_detected env settings clock x dashboard owner family_id ≡ (
            if settings.has_reuse_hook && not (text_eq owner [])
            then some (record {
              plane = dashboard;
              user_id = owner;
              family_id = family_id;
              ip = x.ip;
              user_agent = x.user_agent;
            })
            else none)
    unfolding emit_reuse_detected
    reported owner = ground arith

    -- A refresh token of a family that was exchanged, and whose grace window is over, is refused
    -- when presented again, whether the set of the family still names a session or none: every
    -- session that it names is gone, no string is written, and the reuse is reported to the hook
    -- with the owner that a member names, unless there is no hook or no owner.
    pub reissue_tokens-replayed :
        text_eq family_id [] ≡ false
        → let run = reissue_tokens env settings clock x s in
          let owner =
            (read_family_owner env dashboard (smembers s (key dashboard family family_id)) s).0 in
          (run.0 ≡ raise refresh_token_invalid)
          × All
              (λ h. get run.2 (key dashboard live h) ≡ none)
              (smembers s (key dashboard family family_id))
          × ((j : Text) → (get run.2 j ≡ none) ⊎ (get run.2 j ≡ get s j))
          × (run.1 ≡ (
              if settings.has_reuse_hook && not (text_eq owner [])
              then some (record {
                plane = dashboard;
                user_id = owner;
                family_id = family_id;
                ip = x.ip;
                user_agent = x.user_agent;
              })
              else none))
    reissue_tokens-replayed named =
        let ends = (revoke_family-ends env dashboard family_id s).0 named in
        rw run_replayed (
          refl,
          All-contains _ _ ends.0,
          ends.1,
          ap (λ o. emit_reuse_detected env settings clock x dashboard o family_id)
                (owner_revoked named)
              ∙ reported
                  (read_family_owner env dashboard (smembers s (key dashboard family family_id))
                    s).0,
        )
