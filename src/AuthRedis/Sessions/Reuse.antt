-- ===== src/AuthRedis/Sessions/Reuse.antt =====
-- A refresh token that is presented three times.
use nest_auth.Prelude.{
  ℕ, suc, ◌≡◌, ◌≢◌, ◌∙◌, true, false, none, some, [], ◌∷◌, ◌++◌, Text, text_eq, text_eq_refl,
  text_eq_ne, contains, ltb, if◌then◌else◌, arith, Free, inl, inr, Bool-cases,
}
use nest_auth.Json.{Platform}
use nest_auth.Keys.{live, grace, consumed, family, key}
use nest_auth.AuthRedis.Scripts.{rotate_live, take_grace}
use nest_auth.AuthRedis.Sessions.{
  RotationParams, recovered, reused, rotate_call, family_of, rotate_refresh_session,
}
use nest_auth.AuthRedis.Sessions.Rotated.{
  string_after, in_family_after, get-rotated, family-rotated, run-rotate_refresh_session,
}
use nest_auth.AuthRedis.Sessions.Replayed.{
  retry, run_consumed, get-taken, outcome-reused, outcome-recovered,
}

module _ (env : Platform) (p : RotationParams) (n : ℕ) (lasts : p.refresh_ttl ≡ suc n) where
  open env use {redis}
  open env.redis use {Store, get, smembers}

  abbrev once : Store → Store
  once s = rotate_live redis (rotate_call env p) s

  module _ (s : Store) (fresh : p.old_hash ≢ p.new_hash)
      (lineage : text_eq p.family_id [] ≡ false) where
    live_once : get (once s) (key p.kind live p.old_hash) ≡ none
    unfolding string_after
    live_once = get-rotated env p n lasts s live p.old_hash ∙ rw text_eq_refl

    new_once : get (once s) (key p.kind live p.new_hash) ≡ some p.new_session_json
    unfolding string_after
    new_once =
        get-rotated env p n lasts s live p.new_hash ∙ rw (text_eq_ne _ _ fresh) (rw text_eq_refl)

    marker_once : get (once s) (key p.kind consumed p.old_hash) ≡ some p.family_id
    unfolding string_after
    marker_once = get-rotated env p n lasts s consumed p.old_hash ∙ rw lineage (rw text_eq_refl)

    pointer_once : get (once s) (key p.kind grace p.old_hash) ≡ (
        if ltb 0 p.grace_ttl
        then some (p.new_hash ++ b':' ∷ p.new_session_json)
        else get s (key p.kind grace p.old_hash))
    unfolding string_after
    pointer_once = get-rotated env p n lasts s grace p.old_hash ∙ rw text_eq_refl (ground arith)

    member_once : contains (smembers (once s) (key p.kind family p.family_id)) p.new_hash ≡ true
    unfolding in_family_after
    member_once =
        family-rotated env p n lasts s p.family_id p.new_hash
        ∙ rw lineage (rw (text_eq_refl p.family_id) (rw (text_eq_refl p.new_hash)))

    module _ (plain : Free b':' p.new_hash) (names : family_of env p.new_session_json ≡ p.family_id)
        (no_pointer : get s (key p.kind grace p.old_hash) ≡ none) where
      second :
          (hash json : Text)
          → (rotate_refresh_session env (retry p hash json) (once s)).0
            ≡ (if ltb 0 p.grace_ttl then recovered p.new_session_json else reused p.family_id)
      second hash json = elim (Bool-cases (ltb 0 p.grace_ttl)) [
        | inl opened ↦ rw opened (
            outcome-recovered env (retry p hash json) (once s) p.new_hash p.new_session_json
              p.new_session_json p.new_hash plain live_once (pointer_once ∙ rw opened) new_once
              (rw names member_once))
        | inr closed ↦ rw closed (
            outcome-reused env (retry p hash json) (once s) p.family_id live_once
              (pointer_once ∙ rw closed no_pointer) marker_once)
      ]

      third :
          (hash json : Text)
          → (rotate_refresh_session env
              (retry p hash json)
              (take_grace redis (rotate_call env p) (once s))).0
            ≡ reused p.family_id
      third hash json =
          outcome-reused env (retry p hash json) _ p.family_id
            (get-taken env p (once s) live p.old_hash ∙ live_once)
            (get-taken env p (once s) grace p.old_hash ∙ rw text_eq_refl)
            (get-taken env p (once s) consumed p.old_hash ∙ marker_once)

      -- A live refresh token of a family is good for one rotation, where sessions have a life,
      -- the new hash is another one without a colon, the new record names the family, and no
      -- pointer of the token stands yet: presented a second time it recovers the new session if
      -- there is a grace window and is reported as reused if there is none, and presented a third
      -- time it is reported as reused.
      pub rotate_refresh_session-thrice :
          (record_ hash json hash' json' : Text)
          → get s (key p.kind live p.old_hash) ≡ some (b'{' ∷ record_)
          → ((rotate_refresh_session env (retry p hash json) (rotate_refresh_session env p s).1).0
              ≡ (if ltb 0 p.grace_ttl then recovered p.new_session_json else reused p.family_id))
            × ((rotate_refresh_session env
                  (retry p hash' json')
                  (rotate_refresh_session env
                    (retry p hash json)
                    (rotate_refresh_session env p s).1).1).0
                ≡ reused p.family_id)
      unfolding take_grace
      rotate_refresh_session-thrice record_ hash json hash' json' was_live =
          rw (run-rotate_refresh_session env p n lasts s record_ was_live) (
            second hash json,
            rw (run_consumed env (retry p hash json) (once s) live_once) (third hash' json'),
          )
