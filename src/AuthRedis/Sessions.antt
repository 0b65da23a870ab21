-- ===== src/AuthRedis/Sessions.antt =====
-- redis/auth-redis.service.ts: the operations on refresh sessions, each a call of a script and the
-- reading of its reply.
pub mod Rotated
pub mod Coverage
pub mod Preserved
pub mod Safe
pub mod Steps
pub mod Everywhere
pub mod FamilyRevoked
pub mod Reuse
pub mod Replayed
use nest_auth.Prelude.{
  ℕ, ◌≡◌, refl, Bool, true, false, ◌&&◌, ◌||◌, not, Option, none, some, List, [], ◌∷◌, ◌++◌, Text,
  codes, text_eq, starts_with, slice_from, if◌then◌else◌,
}
use nest_auth.Redis.{Redis, exists_set}
use nest_auth.Json.{Json, Platform, member, as_string}
use nest_auth.Keys.{
  Plane, dashboard, platform, live, grace, consumed, family, index, detail, prefixes_for, key,
  session_index_key,
}
use nest_auth.AuthRedis.Scripts.{create_session, recover_grace, RotateCall, rotate}
use nest_auth.AuthRedis.Sweeps.{revoke_family_script, sweep_session_index}

-- RefreshRotationParams
pub record RotationParams : Type 0 where
  pub kind : Plane
  pub tenant_id : Option Text
  pub old_hash : Text
  pub new_hash : Text
  pub new_session_json : Text
  pub family_id : Text
  pub user_id : Text
  pub refresh_ttl : ℕ
  pub grace_ttl : ℕ

-- RefreshRotationOutcome
pub data Outcome : Type 0 where
  rotated recovered : Text → Outcome
  reused : Text → Outcome
  invalid : Outcome

-- The parameters of `writeNewSession` and of `writeRecoveredSession`.
pub record NewSession : Type 0 where
  pub kind : Plane
  pub tenant_id : Option Text
  pub token_hash : Text
  pub session_json : Text
  pub family_id : Text
  pub user_id : Text
  pub refresh_ttl : ℕ

module _ (env : Platform) where
  open env use {redis, hmac, hmac_key, parse}
  open env.redis use {Store, get, smembers}

  -- the keys and arguments that `rotateRefreshSession` passes to the script
  abbrev pub rotate_call : RotationParams → RotateCall
  rotate_call p = record {
    live_old = key p.kind live p.old_hash;
    live_new = key p.kind live p.new_hash;
    grace_old = key p.kind grace p.old_hash;
    consumed_old = key p.kind consumed p.old_hash;
    family_key = key p.kind family p.family_id;
    index_key = session_index_key hmac p.kind p.user_id hmac_key p.tenant_id;
    json = p.new_session_json;
    ttl = p.refresh_ttl;
    grace_ttl = p.grace_ttl;
    family_id = p.family_id;
    old_hash = p.old_hash;
    new_hash = p.new_hash;
    live_prefix = prefixes_for p.kind live;
    grace_prefix = prefixes_for p.kind grace;
  }

  -- the family that a stored record names; '' where it names none
  unfoldable pub family_of : Text → Text
  family_of session_json = elim (parse session_json) [
    | none ↦ []
    | some record_ ↦ elim (as_string (member (codes "familyId") record_)) [
      | none ↦ []
      | some family_id ↦ family_id
    ]
  ]

  unfoldable pub family_is_alive : Plane → Text → Store → Bool
  unfolding family_of
  family_is_alive kind session_json s =
      text_eq (family_of session_json) []
      || exists_set (smembers s (key kind family (family_of session_json)))

  -- the reading of the script's reply
  unfoldable pub outcome_of : Plane → Option Text → Store → Outcome
  outcome_of kind none s = invalid
  outcome_of kind (some raw) s =
      if starts_with (codes "GRACE:") raw
      then (if family_is_alive kind (slice_from 6 raw) s
          then recovered (slice_from 6 raw)
          else invalid)
      else if starts_with (codes "REUSED:") raw
      then reused (slice_from 7 raw)
      else rotated raw

  unfoldable pub rotate_refresh_session : RotationParams → Store → Outcome × Store
  unfolding outcome_of
  rotate_refresh_session p s =
      let (raw, s') = rotate redis (rotate_call p) s in (outcome_of p.kind raw s', s')

  unfoldable pub write_new_session : NewSession → Store → Store
  write_new_session p s =
      create_session redis (key p.kind live p.token_hash)
        (session_index_key hmac p.kind p.user_id hmac_key p.tenant_id)
        (key p.kind family p.family_id) p.session_json p.refresh_ttl p.family_id
        (prefixes_for p.kind live) p.token_hash s

  unfoldable pub write_recovered_session : NewSession → Store → Bool × Store
  write_recovered_session p s =
      recover_grace redis (key p.kind live p.token_hash)
        (session_index_key hmac p.kind p.user_id hmac_key p.tenant_id)
        (key p.kind family p.family_id) p.session_json p.refresh_ttl p.family_id
        (prefixes_for p.kind live) p.token_hash s

  -- the user and the tenant of a stored record; '' where it names no user
  unfoldable pub owner_in : Text → Text × Option Text
  owner_in session_json = elim (parse session_json) [
    | none ↦ ([], none)
    | some record_ ↦ elim (as_string (member (codes "userId") record_)) [
      | none ↦ ([], none)
      | some user_id ↦ (user_id, as_string (member (codes "tenantId") record_))
    ]
  ]

  -- a blank tenant is none
  abbrev pub with_named_tenant : Text × Option Text → Text × Option Text
  with_named_tenant (user_id, some []) = (user_id, none)
  with_named_tenant owner = owner

  -- `readSessionOwner`
  unfoldable pub read_session_owner : Text → Store → Text × Option Text
  unfolding owner_in
  read_session_owner key s = elim (get s key) [
    | none ↦ ([], none)
    | some raw ↦ with_named_tenant (owner_in raw)
  ]

  -- the loop of `readFamilyOwner`: the first member whose record names a user
  unfoldable pub read_family_owner : Plane → List Text → Store → Text × Option Text
  unfolding owner_in
  read_family_owner kind [] s = ([], none)
  read_family_owner kind (hash ∷ rest) s =
      let later = read_family_owner kind rest s in
      elim (get s (key kind live hash)) [
        | none ↦ later
        | some session_json ↦
            let owner = owner_in session_json in if text_eq owner.0 [] then later else owner
      ]

  -- whether the owner of a family names a session index
  unfoldable pub is_nameable : Plane → Text × Option Text → Bool
  is_nameable platform (user_id, tenant_id) = not (text_eq user_id [])
  is_nameable dashboard (user_id, none) = false
  is_nameable dashboard (user_id, some tenant) = not (text_eq user_id []) && not (text_eq tenant [])

  unfoldable pub revoke_family : Plane → Text → Store → (ℕ × Text) × Store
  unfolding read_family_owner is_nameable
  revoke_family kind family_id s =
      let members = smembers s (key kind family family_id) in
      let owner = read_family_owner kind members s in
      let index_key =
        if is_nameable kind owner
        then session_index_key hmac kind owner.0 hmac_key owner.1
        else [] in
      let (removed, s') =
        revoke_family_script redis (key kind family family_id) (prefixes_for kind live)
          (prefixes_for kind detail) index_key s in
      if text_eq family_id [] then ((0, []), s) else ((removed, owner.0), s')

  unfoldable pub invalidate_user_sessions : Text → Option Text → Plane → Store → Store
  invalidate_user_sessions user_id tenant_id platform s =
      sweep_session_index redis (session_index_key hmac platform user_id hmac_key tenant_id)
        (codes "prt:") (codes "prp:") (codes "psd:") s
  invalidate_user_sessions user_id tenant_id dashboard s =
      sweep_session_index redis (session_index_key hmac dashboard user_id hmac_key tenant_id)
        (codes "rt:") (codes "rp:") (codes "sd:") s
