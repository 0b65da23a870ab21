-- ===== src/AuthRedis/Sessions/FamilyRevoked.antt =====
-- Reuse detection ends in the revocation of the token family.
use nest_auth.Prelude.{◌≡◌, ◌⊎◌, true, false, none, [], Text, contains, text_eq, length}
use nest_auth.Json.{Platform}
use nest_auth.Keys.{Plane, live, family, key}
use nest_auth.AuthRedis.Sweeps.{revoke_family_script}
use nest_auth.AuthRedis.Sessions.{revoke_family}
use nest_auth.AuthRedis.Sessions.Safe.{revoke_family_script-kills, revoke_family_script-IsSafe}

module _ (env : Platform) (k : Plane) (family_id : Text) (s : env.redis.Store) where
  open env use {redis}
  open env.redis use {Store, get, smembers}

  -- Revoking a family that has a name deletes every session that the family's set names, writes no
  -- string, and replies with the number of the set's members; revoking the nameless family does
  -- nothing.
  pub revoke_family-ends :
      (text_eq family_id [] ≡ false
        → ((h : Text)
            → contains (smembers s (key k family family_id)) h ≡ true
            → get (revoke_family env k family_id s).1 (key k live h) ≡ none)
          × ((j : Text)
              → (get (revoke_family env k family_id s).1 j ≡ none)
                ⊎ (get (revoke_family env k family_id s).1 j ≡ get s j))
          × ((revoke_family env k family_id s).0.0 ≡ length (smembers s (key k family family_id))))
      × (text_eq family_id [] ≡ true → revoke_family env k family_id s ≡ ((0, []), s))
  unfolding revoke_family revoke_family_script
  revoke_family-ends = (
    λ named. (
      λ h c.
          rw (named, revoke_family) (revoke_family_script-kills redis k (λ x. x) family_id _ s h c),
      λ j.
          rw (named, revoke_family)
            ((revoke_family_script-IsSafe redis k (λ x. x) family_id _ s).shrinks j),
      rw (named, revoke_family),
    ),
    λ unnamed. rw (unnamed, revoke_family),
  )
