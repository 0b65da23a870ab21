-- ===== src/TokenManager/Records.antt =====
-- services/token-manager.service.ts: a stored session record is read back as it was written.
use nest_auth.Prelude.{
  ◌≡◌, refl, true, false, [], Text, text_eq, codes, if◌then◌else◌, ok, none, some, ap, ◌∙◌, Option,
  Bool, Bool-cases, text_eq_refl, eq_of_text_eq, sym, text_eq_refl, inl, inr,
}
use nest_auth.AuthRedis.Sessions.{family_of}
use nest_auth.Json.{Json, Platform, member, find, Fields, field, as_bool, as_string, bool, str}
use nest_auth.TokenManager.{
  RefreshSession, serialize_session, parse_session, session_of, session_in, with_optional_fields,
  session_fields, family_fields, optional_field, verified_field, is_true, text_or_empty,
}

-- What a record keeps of a session: one without a family keeps no birth of a family.
unfoldable pub stored_session : RefreshSession → RefreshSession
stored_session session = record {
  user_id = session.user_id;
  tenant_id = session.tenant_id;
  role = session.role;
  device = session.device;
  ip = session.ip;
  created_at = session.created_at;
  family_id = session.family_id;
  family_created_at = if text_eq session.family_id [] then [] else session.family_created_at;
  mfa_enabled = session.mfa_enabled;
  mfa_verified = session.mfa_verified;
}

-- A field that another name is looked up past.
find-optional_field :
    (other name : Text) (value : Option Json) (fs : Fields)
    → text_eq other name ≡ false
    → find name (optional_field other value fs) ≡ find name fs
unfolding find
find-optional_field other name none fs apart = refl
find-optional_field other name (some v) fs apart = rw apart refl

find-optional_field_here :
    (name : Text) (value : Option Json) (fs : Fields)
    → find name fs ≡ none
    → find name (optional_field name value fs) ≡ value
unfolding find
find-optional_field_here name none fs absent = absent
find-optional_field_here name (some v) fs absent = rw (text_eq_refl name) refl

find-verified_field :
    (name : Text) (verified : Bool)
    → text_eq (codes "mfaVerified") name ≡ false
    → find name (verified_field verified) ≡ none
unfolding find
find-verified_field name true apart = rw apart refl
find-verified_field name false apart = refl

is_true-verified_field :
    (verified : Bool)
    → is_true (as_bool (find (codes "mfaVerified") (verified_field verified))) ≡ verified
unfolding find
is_true-verified_field true = refl
is_true-verified_field false = refl

session_in-found :
    (rec : Fields) (user_id role : Text) (mfa_enabled : Bool)
    → find (codes "userId") rec ≡ some (str user_id)
    → find (codes "role") rec ≡ some (str role)
    → find (codes "mfaEnabled") rec ≡ some (bool mfa_enabled)
    → session_in rec ≡ ok (with_optional_fields rec user_id role mfa_enabled)
unfolding session_in
session_in-found rec user_id role mfa_enabled a b c = rw (a, session_in, b, c) refl

with_optional_fields-found :
    (rec : Fields) (session : RefreshSession)
    → find (codes "tenantId") rec ≡ session.tenant_id
    → find (codes "device") rec ≡ session.device
    → find (codes "ip") rec ≡ session.ip
    → find (codes "createdAt") rec ≡ session.created_at
    → text_or_empty (as_string (find (codes "familyId") rec)) ≡ session.family_id
    → text_or_empty (as_string (find (codes "familyCreatedAt") rec)) ≡ session.family_created_at
    → is_true (as_bool (find (codes "mfaVerified") rec)) ≡ session.mfa_verified
    → with_optional_fields rec session.user_id session.role session.mfa_enabled ≡ session
unfolding with_optional_fields
with_optional_fields-found rec session a b c d e f g = rw (a, b, c, d, e, f, g) refl

module _ (session : RefreshSession) where
  -- The names before the family's do not occur after it.
  find-family_fields :
      (name : Text)
      → text_eq (codes "familyId") name ≡ false
      → text_eq (codes "familyCreatedAt") name ≡ false
      → text_eq (codes "mfaVerified") name ≡ false
      → find name (family_fields session) ≡ none
  unfolding find
  find-family_fields name a b c = elim (Bool-cases (text_eq session.family_id [])) [
    | inl nameless ↦ rw nameless (find-verified_field name session.mfa_verified c)
    | inr named ↦ rw (named, a, b) (find-verified_field name session.mfa_verified c)
  ]

  family_fields-family_id :
      text_or_empty (as_string (find (codes "familyId") (family_fields session)))
      ≡ session.family_id
  unfolding find
  family_fields-family_id = elim (Bool-cases (text_eq session.family_id [])) [
    | inl nameless ↦
        rw (nameless, find-verified_field (codes "familyId") session.mfa_verified refl)
          (sym (eq_of_text_eq session.family_id [] nameless))
    | inr named ↦ rw named refl
  ]

  family_fields-family_created_at :
      text_or_empty (as_string (find (codes "familyCreatedAt") (family_fields session)))
      ≡ (if text_eq session.family_id [] then [] else session.family_created_at)
  unfolding find
  family_fields-family_created_at = elim (Bool-cases (text_eq session.family_id [])) [
    | inl nameless ↦
        rw (nameless, find-verified_field (codes "familyCreatedAt") session.mfa_verified refl) refl
    | inr named ↦ rw named refl
  ]

  family_fields-mfa_verified :
      is_true (as_bool (find (codes "mfaVerified") (family_fields session))) ≡ session.mfa_verified
  unfolding find
  family_fields-mfa_verified = elim (Bool-cases (text_eq session.family_id [])) [
    | inl nameless ↦ rw nameless (is_true-verified_field session.mfa_verified)
    | inr named ↦ rw named (is_true-verified_field session.mfa_verified)
  ]

  -- The fields from one name on.
  abbrev from_enabled : Fields
  from_enabled = field (codes "mfaEnabled") (bool session.mfa_enabled) (family_fields session)

  abbrev from_created : Fields
  from_created = optional_field (codes "createdAt") session.created_at from_enabled

  abbrev from_ip : Fields
  from_ip = optional_field (codes "ip") session.ip from_created

  abbrev from_device : Fields
  from_device = optional_field (codes "device") session.device from_ip

  abbrev from_role : Fields
  from_role = field (codes "role") (str session.role) from_device

  past_device :
      (name : Text)
      → text_eq (codes "device") name ≡ false
      → text_eq (codes "ip") name ≡ false
      → text_eq (codes "createdAt") name ≡ false
      → find name from_device ≡ find name from_enabled
  past_device name a b c =
      find-optional_field (codes "device") name session.device from_ip a
      ∙ find-optional_field (codes "ip") name session.ip from_created b
      ∙ find-optional_field (codes "createdAt") name session.created_at from_enabled c

  past_tenant :
      (name : Text)
      → text_eq (codes "userId") name ≡ false
      → text_eq (codes "tenantId") name ≡ false
      → find name (session_fields session) ≡ find name from_role
  unfolding find
  past_tenant name a b =
      rw a (find-optional_field (codes "tenantId") name session.tenant_id from_role b)

  past_all :
      (name : Text)
      → text_eq (codes "userId") name ≡ false
      → text_eq (codes "tenantId") name ≡ false
      → text_eq (codes "role") name ≡ false
      → text_eq (codes "device") name ≡ false
      → text_eq (codes "ip") name ≡ false
      → text_eq (codes "createdAt") name ≡ false
      → find name (session_fields session) ≡ find name from_enabled
  unfolding find
  past_all name a b c d e f = past_tenant name a b ∙ rw c (past_device name d e f)

  absent_from_enabled :
      (name : Text)
      → text_eq (codes "mfaEnabled") name ≡ false
      → text_eq (codes "familyId") name ≡ false
      → text_eq (codes "familyCreatedAt") name ≡ false
      → text_eq (codes "mfaVerified") name ≡ false
      → find name from_enabled ≡ none
  unfolding find
  absent_from_enabled name a b c d = rw a (find-family_fields name b c d)

  find-tenant_id : find (codes "tenantId") (session_fields session) ≡ session.tenant_id
  unfolding find
  find-tenant_id = find-optional_field_here (codes "tenantId") session.tenant_id from_role (
      past_device (codes "tenantId") refl refl refl
      ∙ absent_from_enabled (codes "tenantId") refl refl refl refl)

  find-device : find (codes "device") (session_fields session) ≡ session.device
  unfolding find
  find-device =
      past_tenant (codes "device") refl refl
      ∙ find-optional_field_here (codes "device") session.device from_ip (
          find-optional_field (codes "ip") (codes "device") session.ip from_created refl
          ∙ find-optional_field (codes "createdAt") (codes "device") session.created_at from_enabled
              refl
          ∙ absent_from_enabled (codes "device") refl refl refl refl)

  find-ip : find (codes "ip") (session_fields session) ≡ session.ip
  unfolding find
  find-ip =
      past_tenant (codes "ip") refl refl
      ∙ find-optional_field (codes "device") (codes "ip") session.device from_ip refl
      ∙ find-optional_field_here (codes "ip") session.ip from_created (
          find-optional_field (codes "createdAt") (codes "ip") session.created_at from_enabled refl
          ∙ absent_from_enabled (codes "ip") refl refl refl refl)

  find-created_at : find (codes "createdAt") (session_fields session) ≡ session.created_at
  unfolding find
  find-created_at =
      past_tenant (codes "createdAt") refl refl
      ∙ find-optional_field (codes "device") (codes "createdAt") session.device from_ip refl
      ∙ find-optional_field (codes "ip") (codes "createdAt") session.ip from_created refl
      ∙ find-optional_field_here (codes "createdAt") session.created_at from_enabled
          (absent_from_enabled (codes "createdAt") refl refl refl refl)

  -- What stands at the family's names.
  at_family :
      (name : Text)
      → text_eq (codes "userId") name ≡ false
      → text_eq (codes "tenantId") name ≡ false
      → text_eq (codes "role") name ≡ false
      → text_eq (codes "device") name ≡ false
      → text_eq (codes "ip") name ≡ false
      → text_eq (codes "createdAt") name ≡ false
      → text_eq (codes "mfaEnabled") name ≡ false
      → find name (session_fields session) ≡ find name (family_fields session)
  unfolding find
  at_family name a b c d e f g = past_all name a b c d e f ∙ rw g refl

  session_fields-family_id :
      text_or_empty (as_string (find (codes "familyId") (session_fields session)))
      ≡ session.family_id
  session_fields-family_id =
      ap (λ o. text_or_empty (as_string o))
        (at_family (codes "familyId") refl refl refl refl refl refl refl)
      ∙ family_fields-family_id

  session_in-fields : session_in (session_fields session) ≡ ok (stored_session session)
  unfolding stored_session find
  session_in-fields =
      session_in-found (session_fields session) session.user_id session.role session.mfa_enabled
        refl (past_tenant (codes "role") refl refl ∙ refl)
        (past_all (codes "mfaEnabled") refl refl refl refl refl refl ∙ refl)
      ∙ ap ok (
          with_optional_fields-found (session_fields session) (stored_session session)
            find-tenant_id find-device find-ip find-created_at session_fields-family_id
            (ap (λ o. text_or_empty (as_string o))
                (at_family (codes "familyCreatedAt") refl refl refl refl refl refl refl)
              ∙ family_fields-family_created_at)
            (ap (λ o. is_true (as_bool o))
                (at_family (codes "mfaVerified") refl refl refl refl refl refl refl)
              ∙ family_fields-mfa_verified))

family_or_empty :
    (o : Option Text) → elim o [ none ↦ [] | some family_id ↦ family_id ] ≡ text_or_empty o
family_or_empty none = refl
family_or_empty (some family_id) = refl

module _ (env : Platform) where
  -- The family that a written record names is the family of its session.
  pub family_of-serialize_session :
      (session : RefreshSession) → family_of env (serialize_session env session) ≡ session.family_id
  unfolding family_of serialize_session member
  family_of-serialize_session session =
      rw (env.parse-stringify, family_of)
        (family_or_empty (as_string (find (codes "familyId") (session_fields session)))
          ∙ session_fields-family_id session)

  -- A session record that the server has written is read back whole, but that a session without a
  -- family loses the birth of its family.
  pub parse_session-serialize_session :
      (session : RefreshSession)
      → parse_session env (serialize_session env session) ≡ ok (stored_session session)
  unfolding parse_session serialize_session
  parse_session-serialize_session session =
      ap session_of (env.parse-stringify _) ∙ session_in-fields session
