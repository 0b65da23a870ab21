-- ===== src/AuthRedis/Sessions/Replayed.antt =====
-- `rotateRefreshSession` at a token that is no longer live: the grace window and reuse detection.
use nest_auth.Prelude.{
  ◌≡◌, refl, ap, ap₂, ◌∙◌, true, Option, none, some, List, [], ◌∷◌, ◌++◌, Text, codes, text_eq,
  contains, if◌then◌else◌, arith, Free, split_first-append,
}
use nest_auth.Redis.{exists_set}
use nest_auth.Json.{Platform}
use nest_auth.Keys.{live, grace, consumed, family, Slot, prefixes_for, key}
use nest_auth.Keys.Apart.{same_slot, text_eq-slot}
use nest_auth.AuthRedis.Scripts.{
  rotate, take_grace, recovered, recovered_from, reply_of, reply_consumed,
}
use nest_auth.AuthRedis.Scripts.Effects.{get-take_grace, mem-take_grace}
use nest_auth.AuthRedis.Sessions.{
  RotationParams, recovered as recovery, reused, rotate_call, family_of, family_is_alive,
  outcome_of, rotate_refresh_session,
}

pub exists_set-contains : (l : List Text) (x : Text) → contains l x ≡ true → exists_set l ≡ true
exists_set-contains [] x h = cc
exists_set-contains (y ∷ l) x h = refl

-- A token that is presented again: no session is found under it, so the seed of the rotation names
-- no user and no family.
abbrev pub retry : RotationParams → Text → Text → RotationParams
retry p hash json = record p {
  new_hash = hash;
  new_session_json = json;
  family_id = [];
  user_id = [];
  tenant_id = some [];
}

module _ (env : Platform) (p : RotationParams) where
  open env use {redis}
  open env.redis use {Store, get, smembers}

  -- Whatever else the parameters are, a token that is not live takes the consumed path.
  pub run_consumed :
      (s : Store)
      → get s (key p.kind live p.old_hash) ≡ none
      → rotate_refresh_session env p s ≡ (
        outcome_of env p.kind
            (reply_consumed redis (rotate_call env p) s)
            (take_grace redis (rotate_call env p) s),
        take_grace redis (rotate_call env p) s,
      )
  unfolding rotate_refresh_session rotate
  run_consumed s gone = rw (gone, rotate)

  -- Taking the pointer leaves the other strings.
  pub get-taken :
      (s : Store) (a : Slot) (x : Text)
      → get (take_grace redis (rotate_call env p) s) (key p.kind a x) ≡ (
          if same_slot grace a
          then (if text_eq p.old_hash x then none else get s (key p.kind a x))
          else get s (key p.kind a x))
  get-taken s grace x = rw get-take_grace (simp text_eq-slot)
  get-taken s _ x = rw get-take_grace (simp text_eq-slot)

  -- Without a pointer the consumed marker decides.
  reply-marker :
      (s : Store) (family_id : Text)
      → get s (key p.kind grace p.old_hash) ≡ none
      → get s (key p.kind consumed p.old_hash) ≡ some family_id
      → reply_consumed redis (rotate_call env p) s ≡ some (codes "REUSED:" ++ family_id)
  unfolding reply_consumed
  reply-marker s family_id closed marked =
      ap₂ reply_of
        (ap
          (λ (o : Option Text).
            recovered redis (rotate_call env p) o (take_grace redis (rotate_call env p) s))
          closed)
        (get-taken s consumed p.old_hash ∙ marked)

  -- A token that was consumed, and whose grace window is over, is reported with its family.
  pub outcome-reused :
      (s : Store) (family_id : Text)
      → get s (key p.kind live p.old_hash) ≡ none
      → get s (key p.kind grace p.old_hash) ≡ none
      → get s (key p.kind consumed p.old_hash) ≡ some family_id
      → (rotate_refresh_session env p s).0 ≡ reused family_id
  unfolding outcome_of
  outcome-reused s family_id gone closed marked =
      rw (run_consumed s gone) (rw (reply-marker s family_id closed marked))

  taken_live :
      (s : Store) (hash : Text)
      → get (take_grace redis (rotate_call env p) s) (prefixes_for p.kind live ++ b':' ∷ hash)
        ≡ get s (key p.kind live hash)
  unfolding key
  taken_live s hash = get-taken s live hash

  reply-pointer :
      (s : Store) (hash json session : Text)
      → Free b':' hash
      → get s (key p.kind grace p.old_hash) ≡ some (hash ++ b':' ∷ json)
      → get s (key p.kind live hash) ≡ some session
      → reply_consumed redis (rotate_call env p) s ≡ some (codes "GRACE:" ++ json)
  unfolding reply_consumed
  reply-pointer s hash json session free opened alive =
      ap
        (λ (o : Option Text).
          reply_of o
            (get (take_grace redis (rotate_call env p) s) (key p.kind consumed p.old_hash)))
        (ap
            (λ (o : Option Text).
              recovered redis (rotate_call env p) o (take_grace redis (rotate_call env p) s))
            opened
          ∙ ap
              (λ (o : Option (Text × Text)).
                recovered_from redis (rotate_call env p) o (take_grace redis (rotate_call env p) s))
              (split_first-append b':' hash json free)
          ∙ still_live)
    where
      still_live :
          recovered_from redis
            (rotate_call env p)
            (some (hash, json))
            (take_grace redis (rotate_call env p) s)
          ≡ some json
      still_live = rw (taken_live s hash ∙ alive)

  -- In the grace window the record of the pointer is given out, if its family still has a member.
  pub outcome-recovered :
      (s : Store) (hash json session m : Text)
      → Free b':' hash
      → get s (key p.kind live p.old_hash) ≡ none
      → get s (key p.kind grace p.old_hash) ≡ some (hash ++ b':' ∷ json)
      → get s (key p.kind live hash) ≡ some session
      → contains (smembers s (key p.kind family (family_of env json))) m ≡ true
      → (rotate_refresh_session env p s).0 ≡ recovery json
  unfolding outcome_of family_is_alive
  outcome-recovered s hash json session m free gone opened alive mate =
      rw (run_consumed s gone)
        (rw (reply-pointer s hash json session free opened alive) (rw family_lives (ground arith)))
    where
      family_lives :
          exists_set (
            smembers
              (take_grace redis (rotate_call env p) s)
              (key p.kind family (family_of env json)))
          ≡ true
      family_lives =
          exists_set-contains _ m
            (mem-take_grace redis (rotate_call env p) s _ m (rw text_eq-slot) ∙ mate)
