-- ===== src/Mfa/RecoveryCodes.antt =====
-- services/mfa.service.ts: `hashRecoveryCodes` and `regenerateRecoveryCodes`, which replaces every
-- recovery code of an account. What `randomBytes` draws is a field of the request.
use nest_auth.Prelude.{
  ℕ, zero, suc, ◌+◌, ◌/◌, ◌%◌, ◌-◌, ltb, Bool, true, false, not, Option, none, some, List, [], ◌∷◌,
  ◌++◌, Text, if◌then◌else◌, Result, ok, account_locked, mfa_not_enabled, token_invalid,
}
use nest_auth.Prelude.Action.{Action, pure, or_throw, from_result, throw_if, ◌>>=◌, ◌>>◌}
use nest_auth.Keys.{Plane, dashboard, platform}
use nest_auth.Users.{Account, MfaWrite}
use nest_auth.Mfa.{
  Server, State, from_store, disable, stored_secret, is_mfa_flow_locked_out, assert_plane_tenant,
  decrypt_with_rotation,
}
use nest_auth.Mfa.Codes.{verify_totp_with_anti_replay}
use nest_auth.Mfa.Transition.{transition_mfa_record}
use nest_auth.Mfa.Challenge.{on_result_store, settle_code}
use nest_auth.Mfa.Removal.{fetch}

-- DEFAULT_RECOVERY_CODE_COUNT
abbrev pub default_recovery_code_count : ℕ
default_recovery_code_count = 8

abbrev pub count_or_default : Option ℕ → ℕ
count_or_default none = default_recovery_code_count
count_or_default (some count) = count

abbrev hex_digit : ℕ → ℕ
hex_digit n = if ltb n 10 then b'0' + n else b'a' + (n - 10)

-- `toString('hex')` of bytes
unfoldable pub hex : List ℕ → Text
hex [] = []
hex (byte ∷ bytes) = hex_digit (byte / 16) ∷ (hex_digit (byte % 16) ∷ hex bytes)

-- the slices of four characters, the last one shorter where the length is no multiple of four
unfoldable pub groups : Text → List Text
groups [] = []
groups (a ∷ []) = (a ∷ []) ∷ []
groups (a ∷ (b ∷ [])) = (a ∷ (b ∷ [])) ∷ []
groups (a ∷ (b ∷ (c ∷ []))) = (a ∷ (b ∷ (c ∷ []))) ∷ []
groups (a ∷ (b ∷ (c ∷ (d ∷ t)))) = (a ∷ (b ∷ (c ∷ (d ∷ [])))) ∷ groups t

-- `join('-')`
unfoldable pub join : List Text → Text
join [] = []
join (group ∷ []) = group
join (group ∷ (next ∷ rest)) = group ++ b'-' ∷ join (next ∷ rest)

-- the codes that are shown, and their digests
pub record CodeSet : Type 0 where
  pub plain_codes : List Text
  pub hashed_codes : List Text

-- the request, with the token that is drawn for the lock and the bytes that are drawn for each code
pub record Regeneration : Type 0 where
  pub user_id : Text
  pub totp_code : Text
  pub context : Plane
  pub tenant_id : Option Text
  pub lock_token : Text
  pub draws : ℕ → List ℕ

module _ (server : Server) where
  open server use {env, to_upper_case, has_platform_repository, recovery_code_count}
  open server.env use {hmac, hmac_key}

  unfoldable pub shown_code : List ℕ → Text
  shown_code bytes = to_upper_case (join (groups (hex bytes)))

  -- the loop of `hashRecoveryCodes`, with the codes that are left
  unfoldable pub hash_recovery_codes : (ℕ → List ℕ) → ℕ → ℕ → CodeSet
  hash_recovery_codes draws i zero = record { plain_codes = []; hashed_codes = [] }
  hash_recovery_codes draws i (suc n) =
      let rest = hash_recovery_codes draws (suc i) n in
      let code = shown_code (draws i) in
      record {
        plain_codes = code ∷ rest.plain_codes;
        hashed_codes = hmac code hmac_key ∷ rest.hashed_codes;
      }

  -- The codes are not written where the second factor is gone.
  abbrev pub replace_codes : List Text → Account → Result (Option MfaWrite)
  replace_codes hashed current =
      if current.safe.mfa_enabled
      then ok (
          some (record {
            mfa_enabled = true;
            mfa_secret = current.mfa_secret;
            mfa_recovery_codes = some hashed;
          }))
      else ok none

  abbrev pub lacks_repository : Plane → Bool
  lacks_repository dashboard = false
  lacks_repository platform = not has_platform_repository

  unfoldable pub write_codes : Regeneration → CodeSet → Action (State server) (List Text)
  write_codes r set = do
    replaced ←
        transition_mfa_record server r.context r.user_id r.tenant_id
          (replace_codes set.hashed_codes) r.lock_token
    throw_if (not replaced) mfa_not_enabled
    pure set.plain_codes

  unfoldable pub regenerate_recovery_codes : Regeneration → Action (State server) (List Text)
  regenerate_recovery_codes r = do
    from_result (assert_plane_tenant server r.context r.tenant_id)
    throw_if (lacks_repository r.context) mfa_not_enabled
    user ← fetch server r.context r.user_id r.tenant_id
    throw_if (not user.safe.mfa_enabled) mfa_not_enabled
    locked ←
        from_store server (is_mfa_flow_locked_out server disable r.context r.user_id r.tenant_id)
    throw_if locked account_locked
    encrypted ← or_throw token_invalid (stored_secret user.mfa_secret)
    d ← or_throw token_invalid (decrypt_with_rotation server encrypted)
    valid ←
        on_result_store server
          (verify_totp_with_anti_replay server r.context r.user_id d.secret r.totp_code r.tenant_id)
    settle_code server disable r.context r.user_id r.tenant_id valid
    write_codes r (hash_recovery_codes r.draws 0 (count_or_default recovery_code_count))
