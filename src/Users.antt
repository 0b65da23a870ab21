-- ===== src/Users.antt =====
-- interfaces/user-repository.interface.ts and interfaces/platform-user-repository.interface.ts: the
-- accounts of both planes. The application implements the two repositories: they are parameters, and
-- the laws are what the interfaces document, that a write is read back and touches one account.
pub mod Memory
use nest_auth.Prelude.{
  ℕ, ◌≡◌, Bool, true, false, ◌&&◌, Option, none, some, List, [], ◌∷◌, Text, text_eq, if◌then◌else◌,
}
use nest_auth.TokenManager.Issue.{LoginUser}

-- The fields of `AuthUser` and of `AuthPlatformUser` that the modelled operations read: `safe` is what
-- is left without the secrets, where an administrator has the empty tenant.
pub record Account : Type 0 where
  pub safe : LoginUser
  pub email : Text
  pub password_hash : Option Text
  pub mfa_secret : Option Text
  pub mfa_recovery_codes : Option (List Text)

-- The argument of `updateMfa`.
pub record MfaWrite : Type 0 where
  pub mfa_enabled : Bool
  pub mfa_secret : Option Text
  pub mfa_recovery_codes : Option (List Text)

abbrev pub with_mfa : MfaWrite → Account → Account
with_mfa write a = record a {
  safe = record a.safe { mfa_enabled = write.mfa_enabled };
  mfa_secret = write.mfa_secret;
  mfa_recovery_codes = write.mfa_recovery_codes;
}

abbrev pub mapped : (Account → Account) → Option Account → Option Account
mapped f none = none
mapped f (some a) = some (f a)

pub record Repositories : Type 1 where
  pub Users : Type 0
  -- `findById` and `updateMfa` of users, by tenant and id, and of administrators, by id
  pub find_user : Users → Text → Text → Option Account
  pub update_user_mfa : Users → Text → Text → MfaWrite → Users
  pub find_admin : Users → Text → Option Account
  pub update_admin_mfa : Users → Text → MfaWrite → Users
  pub find_user-update_user_mfa :
      (u : Users) (tenant id : Text) (w : MfaWrite) (tenant' id' : Text)
      → find_user (update_user_mfa u tenant id w) tenant' id' ≡ (
          if text_eq tenant tenant' && text_eq id id'
          then mapped (with_mfa w) (find_user u tenant' id')
          else find_user u tenant' id')
  pub find_admin-update_user_mfa :
      (u : Users) (tenant id : Text) (w : MfaWrite) (id' : Text)
      → find_admin (update_user_mfa u tenant id w) id' ≡ find_admin u id'
  pub find_admin-update_admin_mfa :
      (u : Users) (id : Text) (w : MfaWrite) (id' : Text)
      → find_admin (update_admin_mfa u id w) id'
        ≡ (if text_eq id id' then mapped (with_mfa w) (find_admin u id') else find_admin u id')
  pub find_user-update_admin_mfa :
      (u : Users) (id : Text) (w : MfaWrite) (tenant' id' : Text)
      → find_user (update_admin_mfa u id w) tenant' id' ≡ find_user u tenant' id'
