-- ===== src/Mfa.antt =====
-- services/mfa.service.ts: the second factor. The library's surroundings and its options are one
-- record, the state is the Redis store with the accounts, and what `randomBytes` draws is an argument.
-- Log lines, mails and the hooks of the application are left out.
pub mod Codes
pub mod Transition
pub mod Replay
pub mod Locking
pub mod Guesses
pub mod Challenge
pub mod Removal
pub mod Rewritten
pub mod LockSets
pub mod Removed
pub mod Gated
pub mod Disabled
pub mod RecoveryCodes
pub mod Regenerated
pub mod SetupData
pub mod Enabling
pub mod Enabled
pub mod Setup
pub mod Reauthenticated
pub mod Shown
pub mod Drawn
pub mod SetupKept
pub mod EnablingRuns
pub mod Enrolled
use nest_auth.Prelude.{
  ℕ, Bool, true, false, not, Option, none, some, List, [], ◌∷◌, ◌++◌, Text, codes, text_eq, is_some,
  if◌then◌else◌, Result, ok, raise, validation, token_invalid,
}
use nest_auth.Prelude.Action.{Action}
use nest_auth.Json.{Platform}
use nest_auth.Keys.{Plane, dashboard, platform, user_subject}
use nest_auth.BruteForce.{is_locked_out, record_failure, reset_failures}
use nest_auth.Crypto.AesGcm.{Node, encrypt, decrypt}
use nest_auth.Totp.{ℤ}
use nest_auth.Access.{Verification}
use nest_auth.Access.Status.{StatusOptions, assert_not_blocked}
use nest_auth.TokenManager.{Settings, Clock}
use nest_auth.TokenManager.MfaTemp.{plane_text}
use nest_auth.Users.{Account, Repositories}

pub record Server : Type 1 where
  pub env : Platform
  pub node : Node
  pub verification : Verification
  pub status : StatusOptions
  pub settings : Settings
  pub clock : Clock
  pub repositories : Repositories
  pub has_platform_repository : Bool
  pub to_upper_case : Text → Text
  pub hmac_sha1 : List ℕ → List ℕ → List ℕ
  pub totp_window : ℤ
  pub encryption_key : Text
  pub previous_encryption_keys : List Text
  pub previous_hmac_keys : List Text
  pub max_attempts : ℕ
  pub window_seconds : ℕ
  pub recovery_code_count : Option ℕ
  pub sessions_enabled : Bool
  pub issuer : Text
  pub encode_uri_component : Text → Text
  -- `compare` of services/password.service.ts
  pub compare : Text → Text → Bool

pub record World (S U : Type 0) : Type 0 where
  pub store : S
  pub users : U

pub data Flow : Type 0 where
  challenge disable reauth : Flow

abbrev pub flow_text : Flow → Text
flow_text challenge = codes "challenge"
flow_text disable = codes "disable"
flow_text reauth = codes "reauth"

-- a secret, and whether it was encrypted under a key that is retired
pub record Decrypted : Type 0 where
  pub secret : Text
  pub stale : Bool

-- `!user.mfaSecret`: no secret, or an empty one
abbrev pub stored_secret : Option Text → Option Text
stored_secret none = none
stored_secret (some []) = none
stored_secret (some (c ∷ t)) = some (c ∷ t)

abbrev found : Option Account → Result Account
found none = raise token_invalid
found (some a) = ok a

module _ (server : Server) where
  open server use {
    env, node, status, repositories, has_platform_repository, max_attempts, window_seconds,
    encryption_key, previous_encryption_keys,
  }
  open server.env use {redis, hmac, hmac_key}
  open server.env.redis use {Store}
  open server.repositories use {Users, find_user, find_admin}

  abbrev pub State : Type 0
  State = World Store Users

  -- A method of the store alone, and one that reads it.
  abbrev pub on_store : {A : Type 0} → (Store → A × Store) → Action State A
  on_store f w = let (a, s) = f w.store in (ok a, record w { store = s })

  abbrev pub from_store : {A : Type 0} → (Store → Result A) → Action State A
  from_store f w = (f w.store, w)

  -- A method of the store that answers with the store, or throws.
  abbrev pub written : State → Result Store → Result (Unit {0}) × State
  written w (ok s) = (ok tt, record w { store = s })
  written w (raise code) = (raise code, w)

  abbrev pub writes : (Store → Result Store) → Action State (Unit {0})
  writes f w = written w (f w.store)

  -- `mfaFlowCounterIds`
  unfoldable pub legacy_counter : Flow → Plane → Text → Text
  legacy_counter flow context user_id =
      hmac (flow_text flow ++ b':' ∷ (plane_text context ++ b':' ∷ user_id)) hmac_key

  unfoldable pub scoped_counter : Flow → Plane → Text → Option Text → Text
  scoped_counter flow context user_id tenant_id =
      hmac (flow_text flow ++ b':' ∷ user_subject context user_id tenant_id) hmac_key

  abbrev either : Result Bool → Result Bool → Result Bool
  either (raise code) second = raise code
  either (ok true) second = ok true
  either (ok false) second = second

  unfoldable pub is_mfa_flow_locked_out : Flow → Plane → Text → Option Text → Store → Result Bool
  is_mfa_flow_locked_out flow context user_id tenant_id s =
      let legacy = legacy_counter flow context user_id in
      let scoped = scoped_counter flow context user_id tenant_id in
      either (is_locked_out redis max_attempts window_seconds scoped s) (
        if text_eq legacy scoped
        then ok false
        else is_locked_out redis max_attempts window_seconds legacy s)

  -- the operation on the scoped counter, and on the legacy one where it is another
  abbrev pub and_legacy :
      (Text → Store → Result Store)
      → Text
      → Text
      → Result (Unit {0}) × State
      → Result (Unit {0}) × State
  and_legacy f legacy scoped (raise code, w) = (raise code, w)
  and_legacy f legacy scoped (ok done, w) =
      if text_eq legacy scoped then (ok tt, w) else writes (f legacy) w

  abbrev pub on_both : (Text → Store → Result Store) → Text → Text → Action State (Unit {0})
  on_both f legacy scoped w = and_legacy f legacy scoped (writes (f scoped) w)

  unfoldable pub record_mfa_flow_failure :
      Flow → Plane → Text → Option Text → Action State (Unit {0})
  record_mfa_flow_failure flow context user_id tenant_id =
      on_both (record_failure redis max_attempts window_seconds)
        (legacy_counter flow context user_id) (scoped_counter flow context user_id tenant_id)

  unfoldable pub reset_mfa_flow_failures :
      Flow → Plane → Text → Option Text → Action State (Unit {0})
  reset_mfa_flow_failures flow context user_id tenant_id =
      on_both (reset_failures redis max_attempts window_seconds)
        (legacy_counter flow context user_id) (scoped_counter flow context user_id tenant_id)

  -- `assertDashboardTenant`
  unfoldable pub assert_dashboard_tenant : Option Text → Result Text
  assert_dashboard_tenant none = raise validation
  assert_dashboard_tenant (some []) = raise validation
  assert_dashboard_tenant (some (c ∷ t)) = ok (c ∷ t)

  unfoldable pub assert_plane_tenant : Plane → Option Text → Result (Unit {0})
  unfolding assert_dashboard_tenant
  assert_plane_tenant dashboard tenant_id = elim (assert_dashboard_tenant tenant_id) [
    | raise code ↦ raise code
    | ok t ↦ ok tt
  ]
  assert_plane_tenant platform none = ok tt
  assert_plane_tenant platform (some t) = raise validation

  abbrev unless_blocked : Result Account → Result Account
  unless_blocked (raise code) = raise code
  unless_blocked (ok a) = elim (assert_not_blocked status a.safe.status) [
    | raise code ↦ raise code
    | ok done ↦ ok a
  ]

  unfoldable pub fetch_user_for_context : Plane → Text → Option Text → Users → Result Account
  unfolding assert_dashboard_tenant
  fetch_user_for_context dashboard user_id tenant_id u = elim (assert_dashboard_tenant tenant_id) [
    | raise code ↦ raise code
    | ok tenant ↦ unless_blocked (found (find_user u tenant user_id))
  ]
  fetch_user_for_context platform user_id tenant_id u =
      if has_platform_repository
      then unless_blocked (found (find_admin u user_id))
      else raise token_invalid

  -- `encryptSecret`; `none` is the error of `encrypt`
  abbrev pub encrypt_secret : List ℕ → Text → Option Text
  encrypt_secret iv secret = encrypt node iv secret encryption_key

  -- the loop of `decryptWithRotation` over the retired keys
  unfoldable pub decrypt_retired : List Text → Text → Option Decrypted
  decrypt_retired [] encrypted = none
  decrypt_retired (key ∷ keys) encrypted =
      let later = decrypt_retired keys encrypted in
      elim (decrypt node encrypted key) [
        | none ↦ later
        | some secret ↦ some (record { secret = secret; stale = true })
      ]

  -- `decryptWithRotation`; `none` is its TOKEN_INVALID
  unfoldable pub decrypt_with_rotation : Text → Option Decrypted
  unfolding decrypt_retired
  decrypt_with_rotation encrypted = elim (decrypt node encrypted encryption_key) [
    | none ↦ decrypt_retired previous_encryption_keys encrypted
    | some secret ↦ some (record { secret = secret; stale = false })
  ]

  abbrev pub same_secret : Option Decrypted → Text → Bool
  same_secret none secret = false
  same_secret (some d) secret = text_eq d.secret secret

  unfoldable pub holds_secret : Option Text → Text → Bool
  unfolding decrypt_with_rotation
  holds_secret stored secret_base32 = elim (stored_secret stored) [
    | none ↦ false
    | some encrypted ↦ same_secret (decrypt_with_rotation encrypted) secret_base32
  ]
