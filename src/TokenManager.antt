-- ===== src/TokenManager.antt =====
-- services/token-manager.service.ts: the records of refresh sessions, and what a rotation demands of
-- the record that it starts from.
pub mod Records
pub mod Refresh
pub mod Renewal
pub mod Cap
pub mod Replay
pub mod Issue
pub mod Recovery
pub mod PlatformRefresh
pub mod Logins
pub mod PlatformRenewal
pub mod MfaTemp
use nest_auth.Prelude.{
  ℕ, ◌+◌, ◌*◌, ◌-◌, ◌≡◌, Bool, true, false, not, ◌||◌, Option, none, some, [], ◌∷◌, ◌++◌, Text,
  text_eq, ltb, codes, if◌then◌else◌, Result, ok, raise, refresh_token_invalid,
}
use nest_auth.Prelude.Decimal.{decimal}
use nest_auth.Json.{
  Json, null, bool, num, str, obj, arr, Items, nil, item, Fields, end, field, find, as_string,
  as_bool, Platform,
}

-- `RefreshSession`. The fields that `parseSession` does not check hold what was stored, and `none` is
-- a missing field.
pub record RefreshSession : Type 0 where
  pub user_id : Text
  pub tenant_id : Option Json
  pub role : Text
  pub device : Option Json
  pub ip : Option Json
  pub created_at : Option Json
  pub family_id : Text
  pub family_created_at : Text
  pub mfa_enabled : Bool
  pub mfa_verified : Bool

-- The options that a rotation reads.
pub record Settings : Type 0 where
  pub refresh_expires_in_days : ℕ
  pub refresh_grace_window_seconds : ℕ
  pub absolute_session_lifetime_days : ℕ
  pub has_reuse_hook : Bool

-- `Date.now()` at the operation and the two conversions of `Date`, which undo each other.
pub record Clock : Type 0 where
  pub now : ℕ
  pub to_iso_string : ℕ → Text
  pub date_parse : Text → Option ℕ
  pub date_parse-to_iso_string : (t : ℕ) → date_parse (to_iso_string t) ≡ some t

-- `String(tenantId)` where a value is present; a record of the server holds a string there
abbrev mutual
  pub text_of : Json → Text
  text_of null = codes "null"
  text_of (bool true) = codes "true"
  text_of (bool false) = codes "false"
  text_of (num n) = decimal n
  text_of (str t) = t
  text_of (obj fs) = codes "[object Object]"
  text_of (arr items) = joined items

  -- The members of an array with commas between them, `null` as the empty text.
  joined : Items → Text
  joined nil = []
  joined (item null nil) = []
  joined (item v nil) = text_of v
  joined (item null rest) = b',' ∷ joined rest
  joined (item v rest) = text_of v ++ b',' ∷ joined rest

abbrev pub tenant_of : RefreshSession → Option Text
tenant_of session = elim session.tenant_id [ none ↦ none | some value ↦ some (text_of value) ]

-- `JSON.stringify` leaves a missing field out.
abbrev pub optional_field : Text → Option Json → Fields → Fields
optional_field name none fs = fs
optional_field name (some value) fs = field name value fs

abbrev pub verified_field : Bool → Fields
verified_field true = field (codes "mfaVerified") (bool true) end
verified_field false = end

abbrev pub family_fields : RefreshSession → Fields
family_fields session =
    let tail = verified_field session.mfa_verified in
    if text_eq session.family_id []
    then tail
    else field (codes "familyId") (str session.family_id)
        (field (codes "familyCreatedAt") (str session.family_created_at) tail)

abbrev pub session_fields : RefreshSession → Fields
session_fields session = field (codes "userId") (str session.user_id) (
    optional_field (codes "tenantId") session.tenant_id (
      field (codes "role") (str session.role) (
        optional_field (codes "device") session.device (
          optional_field (codes "ip") session.ip (
            optional_field (codes "createdAt") session.created_at
              (field (codes "mfaEnabled") (bool session.mfa_enabled) (family_fields session)))))))

-- `withOptionalFields`: a field of another type than the text or flag that it should hold reads as
-- missing.
abbrev pub text_or_empty : Option Text → Text
text_or_empty none = []
text_or_empty (some t) = t

abbrev pub is_true : Option Bool → Bool
is_true (some true) = true
is_true _ = false

unfoldable pub with_optional_fields : Fields → Text → Text → Bool → RefreshSession
with_optional_fields rec user_id role mfa_enabled = record {
  user_id = user_id;
  tenant_id = find (codes "tenantId") rec;
  role = role;
  device = find (codes "device") rec;
  ip = find (codes "ip") rec;
  created_at = find (codes "createdAt") rec;
  family_id = text_or_empty (as_string (find (codes "familyId") rec));
  family_created_at = text_or_empty (as_string (find (codes "familyCreatedAt") rec));
  mfa_enabled = mfa_enabled;
  mfa_verified = is_true (as_bool (find (codes "mfaVerified") rec));
}

-- the checks of `parseSession` on an object
unfoldable pub session_in : Fields → Result RefreshSession
session_in rec = elim (as_string (find (codes "userId") rec)) [
  | none ↦ raise refresh_token_invalid
  | some user_id ↦ elim (as_string (find (codes "role") rec)) [
    | none ↦ raise refresh_token_invalid
    | some role ↦ elim (as_bool (find (codes "mfaEnabled") rec)) [
      | none ↦ raise refresh_token_invalid
      | some mfa_enabled ↦ ok (with_optional_fields rec user_id role mfa_enabled)
    ]
  ]
]

abbrev pub session_of : Option Json → Result RefreshSession
session_of (some (obj rec)) = session_in rec
session_of _ = raise refresh_token_invalid

-- `assertRotatableTenant` throws where this is false; a record that names no user passes.
unfoldable pub is_rotatable_tenant : RefreshSession → Bool
is_rotatable_tenant session =
    text_eq session.user_id []
    || elim session.tenant_id [ none ↦ false | some (str t) ↦ not (text_eq t []) | some _ ↦ true ]

abbrev pub is_within : ℕ → ℕ → Option ℕ → Bool
is_within cap_ms now none = true
is_within cap_ms now (some born_at) = not (ltb cap_ms (now - born_at))

-- `assertWithinAbsoluteLifetime` throws where this is false. A birth in the future has a negative age,
-- which is within the cap.
unfoldable pub is_within_absolute_lifetime : Settings → Clock → RefreshSession → Bool
is_within_absolute_lifetime settings clock session =
    if ltb 0 settings.absolute_session_lifetime_days
    then is_within (settings.absolute_session_lifetime_days * 86400000) clock.now
        (clock.date_parse session.family_created_at)
    else true

unfoldable pub build_session :
    Clock → Text → Option Json → Text → Text → Text → Bool → Text → Text → Bool → RefreshSession
build_session clock user_id tenant_id role ip device mfa_enabled family_id family_created_at
      mfa_verified =
    record {
      user_id = user_id;
      tenant_id = tenant_id;
      role = role;
      device = some (str device);
      ip = some (str ip);
      created_at = some (str (clock.to_iso_string clock.now));
      family_id = family_id;
      family_created_at = family_created_at;
      mfa_enabled = mfa_enabled;
      mfa_verified = mfa_verified;
    }

module _ (env : Platform) where
  open env use {stringify, parse, redis}
  open env.redis use {Store, get}

  -- JSON.stringify keeps the order of the fields: `mfaVerified` stands last.
  unfoldable pub serialize_session : RefreshSession → Text
  serialize_session session = stringify (obj (session_fields session))

  unfoldable pub parse_session : Text → Result RefreshSession
  parse_session json = session_of (parse json)

  unfoldable pub read_seed_session : Clock → Text → Text → Text → Store → Result RefreshSession
  unfolding parse_session
  read_seed_session clock session_key ip user_agent s = elim (get s session_key) [
    | none ↦ ok (
        build_session clock [] (some (str [])) [] ip user_agent false []
          (clock.to_iso_string clock.now) false)
    | some json ↦ parse_session json
  ]
