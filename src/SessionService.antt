-- ===== src/SessionService.antt =====
-- services/session.service.ts: the sessions of a user, their detail records, their revocation, and
-- the limit on their number. Log lines and the alert hooks are left out, but that the evicted
-- sessions, which a hook is told of, are a result.
pub mod Records
pub mod Details
pub mod Eviction
pub mod Revocation
pub mod RevokedOthers
pub mod Choice
pub mod Limit
pub mod Listing
pub mod Listed
pub mod Evicted
pub mod Revoked
pub mod Histories
use nest_auth.Prelude.{
  ℕ, ◌*◌, ◌≡◌, Bool, true, false, ◌&&◌, ◌||◌, not, Option, none, some, List, [], ◌∷◌, ◌++◌, Text,
  codes, text_eq, starts_with, slice_from, slice_to, split_first, length, keep, contains, leb, ltb,
  ◌==◌, ◌-◌, sort_by, if◌then◌else◌, Result, ok, raise, validation, session_not_found,
}
use nest_auth.Redis.{Redis}
use nest_auth.Json.{
  Json, num, str, obj, Fields, end, field, find, as_string, as_number, member, Platform,
}
use nest_auth.SessionService.Records.{
  StoredSessionDetail, max_ip_length, is_valid_session_hash, parse_user_agent, detail_fields,
  created_in, or_number,
}
use nest_auth.Keys.{dashboard, live, grace, detail, key, session_index_key}
use nest_auth.AuthRedis.Counters.{bump_user_token_epoch}
use nest_auth.AuthRedis.Sweeps.{prune_expired_grace_members}

-- The prefix of the members that are refresh sessions, and of those that are grace pointers.
abbrev pub is_session : Text → Bool
is_session member = starts_with (codes "rt:") member

abbrev pub is_pointer : Text → Bool
is_pointer member = starts_with (codes "rp:") member

-- `member.slice(3)`
abbrev pub hash_of : Text → Text
hash_of member = slice_from 3 member

abbrev pub is_live_member : List Text → Text → Bool
is_live_member [] session_hash = false
is_live_member (member ∷ members) session_hash =
    (is_session member && text_eq (hash_of member) session_hash)
    || is_live_member members session_hash

module _ (env : Platform) where
  open env use {redis, sha256, hmac, hmac_key, stringify, parse}
  open env.redis use {Store, get, smembers, set, del, srem}

  abbrev pub index_key : Text → Text → Text
  index_key user_id tenant_id = session_index_key hmac dashboard user_id hmac_key (some tenant_id)

  -- The creation time that stands in the detail record of a session.
  abbrev pub stored_created_at : Text → Store → Option ℕ
  stored_created_at hash s = elim (get s (key dashboard detail hash)) [
    | none ↦ none
    | some raw ↦ created_in (parse raw)
  ]

  abbrev pub detail_json : StoredSessionDetail → Text
  detail_json d = stringify (obj (detail_fields d))

  -- the detail record that `createSession` and `rotateSession` write
  abbrev pub new_detail : Text → Text → ℕ → ℕ → StoredSessionDetail
  new_detail user_agent ip created_at now = record {
    device = parse_user_agent user_agent;
    ip = slice_to max_ip_length ip;
    created_at = created_at;
    last_activity_at = now;
  }

  -- `rotateSession`; a hash that is not valid is refused, and equal hashes change nothing
  unfoldable pub rotate_session :
      Text → Text → Text → Text → ℕ → ℕ → Store → Result (Unit {0}) × Store
  rotate_session old_hash new_hash ip user_agent now ttl s =
      let created_at = or_number (stored_created_at old_hash s) now in
      let s' =
        set (del s (key dashboard detail old_hash)) (key dashboard detail new_hash)
          (detail_json (new_detail user_agent ip created_at now)) ttl in
      if is_valid_session_hash old_hash && is_valid_session_hash new_hash
      then (ok tt, if text_eq old_hash new_hash then s else s')
      else (raise validation, s)

  -- REVOKE_SESSION_LUA
  unfoldable pub revoke_session_script : Text → Text → Text → Text → Store → ℕ × Store
  revoke_session_script index live_key detail_key member s =
      if contains (smembers s index) member
      then (1, del (srem (del s live_key) index member) detail_key)
      else (0, s)

  -- `revokeSession`
  unfoldable pub revoke_session : Text → Text → Text → Store → Result (Unit {0}) × Store
  unfolding revoke_session_script
  revoke_session user_id tenant_id session_hash s =
      let (revoked, s') =
        revoke_session_script (index_key user_id tenant_id) (key dashboard live session_hash)
          (key dashboard detail session_hash) (key dashboard live session_hash) s in
      if text_eq tenant_id [] || not (is_valid_session_hash session_hash)
      then (raise validation, s)
      else if revoked == 0
      then (raise session_not_found, s')
      else (ok tt, s')

  -- `revokeOtherSession`
  unfoldable pub revoke_other_session : Text → Text → Text → Store → Result (Unit {0}) × Store
  revoke_other_session user_id tenant_id session_hash s =
      let (reply, s') = revoke_session user_id tenant_id session_hash s in
      elim reply [
        | ok done ↦ (ok tt, (bump_user_token_epoch env user_id (some tenant_id) dashboard s').1)
        | raise code ↦ (raise code, s')
      ]

  -- `graceSuccessor`
  unfoldable pub grace_successor : Text → Store → Option Text
  grace_successor session_hash s = elim (get s (key dashboard grace session_hash)) [
    | none ↦ none
    | some pointer ↦ elim (split_first b':' pointer) [
      | none ↦ none
      | some (successor, rest) ↦ if is_valid_session_hash successor then some successor else none
    ]
  ]

  -- `resolveLiveMember`
  unfoldable pub resolve_live_member : List Text → Text → Store → Result Text
  unfolding grace_successor
  resolve_live_member members session_hash s =
      if is_live_member members session_hash
      then ok session_hash
      else elim (grace_successor session_hash s) [
        | none ↦ raise session_not_found
        | some successor ↦
            if is_live_member members successor then ok successor else raise session_not_found
      ]

  -- `resolveLiveSession`
  unfoldable pub resolve_live_session : Text → Text → Text → Store → Result Text
  resolve_live_session user_id tenant_id session_hash s =
      if text_eq tenant_id [] || not (is_valid_session_hash session_hash)
      then raise validation
      else resolve_live_member (smembers s (index_key user_id tenant_id)) session_hash s

  -- the loop of `revokeAllExceptCurrent` over the refresh sessions: one that is not there any more
  -- is passed over, and any other failure ends the loop
  unfoldable pub revoke_others : Text → Text → Text → List Text → Store → Result (Unit {0}) × Store
  revoke_others user_id tenant_id kept [] s = (ok tt, s)
  revoke_others user_id tenant_id kept (member ∷ rest) s =
      let (reply, s') = revoke_session user_id tenant_id (hash_of member) s in
      let later = revoke_others user_id tenant_id kept rest in
      if text_eq (hash_of member) kept then later s else elim reply [
        | ok done ↦ later s'
        | raise session_not_found ↦ later s'
        | raise code ↦ (raise code, s')
      ]

  -- its loop over the grace pointers
  unfoldable pub drop_pointers : Text → List Text → Store → Store
  drop_pointers index [] s = s
  drop_pointers index (member ∷ rest) s =
      drop_pointers index rest (srem (del s member) index member)

  -- `revokeAllExceptCurrent` from the kept session on
  unfoldable pub revoke_all_except :
      Text → Text → List Text → Text → Store → Result (Unit {0}) × Store
  unfolding revoke_others drop_pointers
  revoke_all_except user_id tenant_id members kept s =
      let (reply, s') = revoke_others user_id tenant_id kept (keep is_session members) s in
      let s'' = drop_pointers (index_key user_id tenant_id) (keep is_pointer members) s' in
      elim reply [
        | raise code ↦ (raise code, s')
        | ok done ↦ (ok tt, (bump_user_token_epoch env user_id (some tenant_id) dashboard s'').1)
      ]

  unfoldable pub revoke_all_except_current : Text → Text → Text → Store → Result (Unit {0}) × Store
  unfolding revoke_all_except
  revoke_all_except_current user_id tenant_id current_session_hash s =
      let members = smembers s (index_key user_id tenant_id) in
      if text_eq tenant_id [] || not (is_valid_session_hash current_session_hash)
      then (raise validation, s)
      else elim (resolve_live_member members current_session_hash s) [
        | raise code ↦ (raise code, s)
        | ok kept ↦ revoke_all_except user_id tenant_id members kept s
      ]

  -- `readCreatedAt`
  unfoldable pub read_created_at : Text → Store → ℕ
  read_created_at member_hash s = or_number (stored_created_at member_hash s) 0

  -- the eviction loop of `enforceSessionLimit`
  unfoldable pub evict : Text → List Text → Store → Store
  evict index [] s = s
  evict index (member ∷ rest) s = evict index rest (
      del (srem (del s (key dashboard live (hash_of member))) index member)
        (key dashboard detail (hash_of member)))

  -- the members that are to be evicted: the oldest that are not the new session
  unfoldable pub to_evict : List Text → Text → ℕ → Store → List Text
  to_evict sessions new_hash limit s = slice_to (length sessions - limit) (
      keep (λ member. not (text_eq (hash_of member) new_hash))
        (sort_by (λ member. read_created_at (hash_of member) s) sessions))

  -- `enforceSessionLimit`: the evicted members and the store
  unfoldable pub enforce_session_limit : Text → Text → Text → ℕ → Store → List Text × Store
  unfolding to_evict evict
  enforce_session_limit user_id tenant_id new_hash limit s =
      let index = index_key user_id tenant_id in
      let s' = (prune_expired_grace_members redis index (codes "rp:") s).1 in
      let sessions = keep is_session (smembers s' index) in
      let evicted = to_evict sessions new_hash limit s' in
      if leb (length sessions) limit then ([], s') else (evicted, evict index evicted s')

  -- `createSession`: the hash of the new session, or the refusal of an empty tenant
  unfoldable pub create_session_detail :
      Text → Text → Text → Text → Text → ℕ → ℕ → ℕ → Store → Result Text × Store
  unfolding enforce_session_limit
  create_session_detail user_id tenant_id raw_refresh_token ip user_agent now ttl limit s =
      let hash = sha256 raw_refresh_token in
      let written =
        set s (key dashboard detail hash) (detail_json (new_detail user_agent ip now now)) ttl in
      if text_eq tenant_id []
      then (raise validation, s)
      else (ok hash, (enforce_session_limit user_id tenant_id hash limit written).1)
