-- ===== src/SessionService/Listing.antt =====
-- services/session.service.ts: the listing of a user's sessions. A read of Redis that fails is left
-- out, and the pruning, which the source does not wait for, is run in its place.
use nest_auth.Prelude.{
  ℕ, Bool, false, Option, none, some, List, [], ◌∷◌, Text, codes, text_eq, keep, leb, slice_to,
  if◌then◌else◌, Result, ok, raise, validation,
}
use nest_auth.Json.{Platform}
use nest_auth.AuthRedis.Sweeps.{prune_dead, prune_expired_grace_members}
use nest_auth.SessionService.Records.{StoredSessionDetail}
use nest_auth.SessionService.Details.{detail_of}
use nest_auth.SessionService.{is_session, hash_of, index_key}

-- `SessionInfo`
pub record SessionInfo : Type 0 where
  pub id : Text
  pub session_hash : Text
  pub device : Text
  pub ip : Text
  pub is_current : Bool
  pub created_at : ℕ
  pub last_activity_at : ℕ

-- `results.sort((a, b) => b.createdAt - a.createdAt)`, which is stable: as insertion
unfoldable pub insert_newest : SessionInfo → List SessionInfo → List SessionInfo
insert_newest x [] = x ∷ []
insert_newest x (y ∷ ys) =
    let later = y ∷ insert_newest x ys in
    if leb y.created_at x.created_at then x ∷ y ∷ ys else later

unfoldable pub newest_first : List SessionInfo → List SessionInfo
unfolding insert_newest
newest_first [] = []
newest_first (x ∷ xs) = insert_newest x (newest_first xs)

-- what `readSession` makes of a record
abbrev pub info_of : Text → Option Text → StoredSessionDetail → SessionInfo
info_of hash current d = record {
  id = slice_to 8 hash;
  session_hash = hash;
  device = d.device;
  ip = d.ip;
  is_current = elim current [ none ↦ false | some current_hash ↦ text_eq hash current_hash ];
  created_at = d.created_at;
  last_activity_at = d.last_activity_at;
}

module _ (env : Platform) where
  open env use {redis}
  open redis use {Store, smembers}

  -- `readSession`; `none` is a stale member
  unfoldable pub read_session : Text → Option Text → Store → Option SessionInfo
  read_session member current s = elim (detail_of env (hash_of member) s) [
    | none ↦ none
    | some d ↦ some (info_of (hash_of member) current d)
  ]

  -- the loop of `listSessions` over the reads: the sessions, and the members that are stale
  unfoldable pub read_all : List Text → Option Text → Store → List SessionInfo × List Text
  unfolding read_session
  read_all [] current s = ([], [])
  read_all (member ∷ rest) current s =
      let (results, stale_keys) = read_all rest current s in
      elim (read_session member current s) [
        | some info ↦ (info ∷ results, stale_keys)
        | none ↦ (results, member ∷ stale_keys)
      ]

  -- `listSessions`
  unfoldable pub list_sessions :
      Text → Text → Option Text → Store → Result (List SessionInfo) × Store
  unfolding read_all newest_first
  list_sessions user_id tenant_id current s =
      let index = index_key env user_id tenant_id in
      let s' = (prune_expired_grace_members redis index (codes "rp:") s).1 in
      let (results, stale_keys) = read_all (keep is_session (smembers s' index)) current s' in
      if text_eq tenant_id []
      then (raise validation, s)
      else (ok (newest_first results), (prune_dead redis index stale_keys s').1)
