-- ===== src/AuthRedis/Sessions/Rotated.antt =====
-- The live path of `rotateRefreshSession`: what it replies and what it leaves.
use nest_auth.Prelude.{
  ℕ, suc, ◌≡◌, refl, Bool, false, ◌&&◌, ◌||◌, Option, none, some, [], ◌∷◌, ◌++◌, Text, text_eq,
  contains, ltb, if◌then◌else◌, arith,
}
use nest_auth.Json.{Platform}
use nest_auth.Keys.{
  live, grace, consumed, family, index, Slot, user_subject, key, session_index_key,
}
use nest_auth.Keys.Apart.{text_eq-slot}
use nest_auth.AuthRedis.Scripts.{rotate, rotate_live}
use nest_auth.AuthRedis.Scripts.Effects.{
  get-rotate_live, mem-rotate_live, get-move_family, mem-move_family, mem-move_index,
  get-plant_session, mem-plant_session,
}
use nest_auth.AuthRedis.Sessions.{RotationParams, rotated, rotate_call, rotate_refresh_session}

module _ (env : Platform) where
  open env use {redis, hmac, hmac_key}
  open env.redis use {Store, get, smembers}

  -- The digest in the key of the session index that a rotation is for.
  abbrev pub subject_of : RotationParams → Text
  subject_of p = hmac (user_subject p.kind p.user_id p.tenant_id) hmac_key

  -- What stands under a key of the rotating plane after a rotation of a live token: the old token
  -- is gone, the new one is live, the grace pointer and the consumed marker of the old one are
  -- planted as far as the parameters ask for them, and nothing else has changed.
  unfoldable pub string_after : RotationParams → Store → Slot → Text → Option Text
  string_after p s live x =
      if text_eq p.old_hash x
      then none
      else if text_eq p.new_hash x
      then some p.new_session_json
      else get s (key p.kind live x)
  string_after p s grace x =
      if ltb 0 p.grace_ttl && text_eq p.old_hash x
      then some (p.new_hash ++ b':' ∷ p.new_session_json)
      else get s (key p.kind grace x)
  string_after p s consumed x =
      if text_eq p.family_id []
      then get s (key p.kind consumed x)
      else if text_eq p.old_hash x
      then some p.family_id
      else get s (key p.kind consumed x)
  string_after p s a x = get s (key p.kind a x)

  -- Whether `m` is in the set of the family `f` after the rotation.
  unfoldable pub in_family_after : RotationParams → Store → Text → Text → Bool
  in_family_after p s f m =
      let before = contains (smembers s (key p.kind family f)) m in
      if text_eq p.family_id []
      then before
      else if text_eq p.family_id f
      then text_eq p.new_hash m || (if text_eq p.old_hash m then false else before)
      else before

  -- Whether `m` is in the session index of the subject `u` after the rotation.
  unfoldable pub in_index_after : RotationParams → Store → Text → Text → Bool
  in_index_after p s u m =
      let before = contains (smembers s (key p.kind index u)) m in
      if text_eq (subject_of p) u
      then ((ltb 0 p.grace_ttl && text_eq (key p.kind grace p.old_hash) m)
          || (text_eq (key p.kind live p.new_hash) m
              || (if text_eq (key p.kind live p.old_hash) m then false else before)))
      else before

  module _ (p : RotationParams) (n : ℕ) (lasts : p.refresh_ttl ≡ suc n) (s : Store) where
    pub get-rotated :
        (a : Slot) (x : Text)
        → get (rotate_live redis (rotate_call env p) s) (key p.kind a x) ≡ string_after p s a x
    unfolding string_after
    get-rotated live x = rw (get-rotate_live redis (rotate_call env p) n lasts s) (
        rw (get-move_family redis (rotate_call env p) n lasts) (
          rw (get-plant_session redis (rotate_call env p) n lasts)
            (simp text_eq-slot (ground arith))))
    get-rotated _ x = rw (get-rotate_live redis (rotate_call env p) n lasts s) (
        rw (get-move_family redis (rotate_call env p) n lasts) (
          rw (get-plant_session redis (rotate_call env p) n lasts)
            (simp text_eq-slot (ground arith))))

    pub family-rotated :
        (f m : Text)
        → contains (smembers (rotate_live redis (rotate_call env p) s) (key p.kind family f)) m
          ≡ in_family_after p s f m
    unfolding in_family_after session_index_key
    family-rotated f m = rw (mem-rotate_live redis (rotate_call env p) n lasts s) (
        rw (mem-move_index redis (rotate_call env p) n lasts) (
          rw (mem-move_family redis (rotate_call env p) n lasts) (
            rw (mem-plant_session redis (rotate_call env p) n lasts)
              (simp text_eq-slot (ground arith)))))

    pub index-rotated :
        (u m : Text)
        → contains (smembers (rotate_live redis (rotate_call env p) s) (key p.kind index u)) m
          ≡ in_index_after p s u m
    unfolding in_index_after session_index_key key
    index-rotated u m = rw (mem-rotate_live redis (rotate_call env p) n lasts s) (
        rw (mem-move_index redis (rotate_call env p) n lasts) (
          rw (mem-move_family redis (rotate_call env p) n lasts) (
            rw (mem-plant_session redis (rotate_call env p) n lasts)
              (simp text_eq-slot (ground arith)))))

    -- A record of the server is a JSON object, so it carries neither tag of the script.
    module _ (record_ : Text)
        (was_live : get s (key p.kind live p.old_hash) ≡ some (b'{' ∷ record_)) where
      pub reply-rotate :
          rotate redis (rotate_call env p) s
          ≡ (some (b'{' ∷ record_), rotate_live redis (rotate_call env p) s)
      unfolding rotate
      reply-rotate = rw (was_live, rotate)

      pub run-rotate_refresh_session :
          rotate_refresh_session env p s
          ≡ (rotated (b'{' ∷ record_), rotate_live redis (rotate_call env p) s)
      unfolding rotate_refresh_session
      run-rotate_refresh_session = rw reply-rotate

      -- A live refresh token is rotated: the outcome is its record, and afterwards every string,
      -- every family and every session index of the plane is as the three descriptions say.
      pub rotate_refresh_session-live :
          ((rotate_refresh_session env p s).0 ≡ rotated (b'{' ∷ record_))
          × ((a : Slot) (x : Text)
              → get (rotate_refresh_session env p s).1 (key p.kind a x) ≡ string_after p s a x)
          × ((f m : Text)
              → contains (smembers (rotate_refresh_session env p s).1 (key p.kind family f)) m
                ≡ in_family_after p s f m)
          × ((u m : Text)
              → contains (smembers (rotate_refresh_session env p s).1 (key p.kind index u)) m
                ≡ in_index_after p s u m)
      rotate_refresh_session-live =
          rw run-rotate_refresh_session (refl, get-rotated, family-rotated, index-rotated)
