-- ===== src/SessionService/Revocation.antt =====
-- What the revocation of one session deletes.
use nest_auth.Prelude.{
  ◌≡◌, Bool, true, false, ◌&&◌, ◌||◌, not, none, List, [], Text, text_eq, text_eq_refl, text_eq_iff,
  contains, ok, raise, validation, session_not_found, if◌then◌else◌, arith,
}
use nest_auth.Json.{Platform}
use nest_auth.Keys.{dashboard, live, detail, key, session_index_key}
use nest_auth.Keys.Apart.{text_eq-slot}
use nest_auth.SessionService.Records.{is_valid_session_hash}
use nest_auth.SessionService.{is_session, hash_of, index_key, revoke_session_script, revoke_session}

-- A tenant and a hash that the service accepts.
abbrev pub accepted : Text → Text → Bool
accepted tenant_id hash = not (text_eq tenant_id []) && is_valid_session_hash hash

-- Every member is the key of a session whose hash the service accepts.
abbrev pub AllAccepted : Text → List Text → Type 0
AllAccepted tenant_id l =
    (m : Text) → contains l m ≡ true → (is_session m && accepted tenant_id (hash_of m)) ≡ true

module _ (env : Platform) (user_id tenant_id : Text) where
  open env use {redis}
  open redis use {Store, get, smembers}

  -- The index of the user names the session.
  abbrev pub owns : Store → Text → Bool
  owns s hash = contains (smembers s (index_key env user_id tenant_id)) (key dashboard live hash)

  pub revoke_session-reply :
      (hash : Text) (s : Store)
      → (revoke_session env user_id tenant_id hash s).0 ≡ (
          if accepted tenant_id hash
          then (if owns s hash then ok tt else raise session_not_found)
          else raise validation)
  unfolding revoke_session revoke_session_script
  revoke_session-reply hash s = ground (arith)

  abbrev removed : Text → Store → Store
  removed hash s =
      redis.del
        (redis.srem (redis.del s (key dashboard live hash)) (index_key env user_id tenant_id)
          (key dashboard live hash))
        (key dashboard detail hash)

  revoke_session-state :
      (hash : Text) (s : Store)
      → (revoke_session env user_id tenant_id hash s).1
        ≡ (if accepted tenant_id hash && owns s hash then removed hash s else s)
  unfolding revoke_session revoke_session_script
  revoke_session-state hash s = ground arith

  -- Its key and its detail record are deleted where the index names it, and no string else.
  pub get-revoke_session :
      (hash : Text) (s : Store) (j : Text)
      → get (revoke_session env user_id tenant_id hash s).1 j ≡ (
          if accepted tenant_id hash
            && (owns s hash
                && (text_eq (key dashboard live hash) j || text_eq (key dashboard detail hash) j))
          then none
          else get s j)
  get-revoke_session hash s j = rw (revoke_session-state hash s) (
      ground (
        arith,
        redis.get-del
            (redis.srem (redis.del s (key dashboard live hash)) (index_key env user_id tenant_id)
              (key dashboard live hash))
            (key dashboard detail hash) j,
        redis.get-srem (redis.del s (key dashboard live hash)) (index_key env user_id tenant_id)
            (key dashboard live hash) j,
        redis.get-del s (key dashboard live hash) j,
      ))

  mem-removed :
      (hash : Text) (s : Store) (x : Text)
      → contains (smembers (removed hash s) (index_key env user_id tenant_id)) x ≡ (
          if text_eq (key dashboard live hash) x
          then false
          else contains (smembers s (index_key env user_id tenant_id)) x)
  unfolding session_index_key
  mem-removed hash s x = simp (redis.mem-del, redis.mem-srem, text_eq-slot, text_eq_refl)

  -- The index of the user loses it, and no other member.
  pub mem-revoke_session :
      (hash : Text) (s : Store) (x : Text)
      → contains
          (smembers
            (revoke_session env user_id tenant_id hash s).1
            (index_key env user_id tenant_id))
          x
        ≡ (contains (smembers s (index_key env user_id tenant_id)) x
            && not (accepted tenant_id hash && text_eq (key dashboard live hash) x))
  mem-revoke_session hash s x =
      rw (revoke_session-state hash s)
        (ground (arith, mem-removed hash s x, text_eq_iff (key dashboard live hash) x))
