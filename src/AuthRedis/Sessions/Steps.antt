-- ===== src/AuthRedis/Sessions/Steps.antt =====
-- The life of the sessions of one plane, as a relation between stores: the scripts and operations
-- of auth-redis.service.ts and session.service.ts that write sessions, grace pointers and session
-- indexes, in any order and for any users, the single commands with which the services delete a key
-- or take a member out of an index, the expiry of keys, and whatever writes other keys. A loop of
-- commands, such as the eviction of session.service.ts, its loop over the grace pointers, the
-- clearing of a recovered pointer on the platform plane, or a logout, is a sequence of such steps,
-- between which other clients may take theirs.
use nest_auth.Prelude.{ℕ, suc, ◌≡◌, true, false, Option, none, some, List, Text, contains}
use nest_auth.Json.{Platform}
use nest_auth.Keys.{Plane, live, index, detail, Slot, key, user_subject}
use nest_auth.Keys.Apart.{same_slot}
use nest_auth.AuthRedis.Sweeps.{prune_dead, prune_expired_grace_members}
use nest_auth.AuthRedis.Sessions.{
  RotationParams, NewSession, rotate_refresh_session, write_new_session, write_recovered_session,
  revoke_family, invalidate_user_sessions,
}
use nest_auth.AuthRedis.Sessions.Rotated.{subject_of}
use nest_auth.AuthRedis.Sessions.Coverage.{subject_of_new, swept_slot}
use nest_auth.SessionService.{revoke_session_script}

module _ (env : Platform) (k : Plane) (own : Text → Text) where
  open env use {redis, hmac, hmac_key}
  open env.redis use {Store, get, smembers, del, srem}

  -- A hash belongs to the user for whom it was minted: `own` gives the digest of that user's subject.
  -- `deleted` is the expiry of a key, too.
  pub data Step (s : Store) : Store → Type 0 where
    login :
        (p : NewSession) (n : ℕ)
        → p.kind ≡ k
        → p.refresh_ttl ≡ suc n
        → own p.token_hash ≡ subject_of_new env own p
        → Step s (write_new_session env p s)
    rotation :
        (p : RotationParams) (n : ℕ) (old : Text)
        → p.kind ≡ k
        → p.refresh_ttl ≡ suc n
        → own p.old_hash ≡ subject_of env p
        → own p.new_hash ≡ subject_of env p
        → get s (key p.kind live p.old_hash) ≡ some old
        → Step s (rotate_refresh_session env p s).1
    replay :
        (p : RotationParams)
        → p.kind ≡ k
        → get s (key p.kind live p.old_hash) ≡ none
        → Step s (rotate_refresh_session env p s).1
    recovery :
        (p : NewSession) (n : ℕ)
        → p.kind ≡ k
        → p.refresh_ttl ≡ suc n
        → own p.token_hash ≡ subject_of_new env own p
        → Step s (write_recovered_session env p s).1
    family_revoked : (family_id : Text) → Step s (revoke_family env k family_id s).1
    everywhere :
        (user_id : Text) (tenant_id : Option Text)
        → Step s (invalidate_user_sessions env user_id tenant_id k s)
    members_pruned : (set_key : Text) (l : List Text) → Step s (prune_dead redis set_key l s).1
    pointers_pruned :
        (set_key lead : Text) → Step s (prune_expired_grace_members redis set_key lead s).1
    session_revoked :
        (u h : Text)
        → Step s
            (revoke_session_script env
              (key k index u)
              (key k live h)
              (key k detail h)
              (key k live h)
              s).1
    deleted : (a : Slot) (x : Text) → same_slot a index ≡ false → Step s (del s (key k a x))
    unlisted : (set_key member : Text) → get s member ≡ none → Step s (srem s set_key member)
    elsewhere :
        (t : Store)
        → ((a : Slot) (h : Text) → swept_slot a ≡ true → get t (key k a h) ≡ get s (key k a h))
        → ((u m : Text)
            → contains (smembers t (key k index u)) m ≡ contains (smembers s (key k index u)) m)
        → Step s t

  pub data Reach (s : Store) : Store → Type 0 where
    here : Reach s s
    next : {t u : Store} → Reach s t → Step t u → Reach s u

  -- The digest of the subject of a user.
  abbrev pub digest : Text → Option Text → Text
  digest user_id tenant_id = hmac (user_subject k user_id tenant_id) hmac_key
