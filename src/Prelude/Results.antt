-- ===== src/Prelude/Results.antt =====
-- The exceptions of the server, and absent values: each `throw new AuthException(code)` is a `raise code`.
use mathlib.Core.Option.{Option, none, some}

-- errors/auth-error-codes.ts, the codes that the modelled operations throw; `internal` stands for an
-- `Error` that carries no code.
pub data ErrorCode : Type 0 where
  account_banned account_inactive account_locked account_suspended email_not_verified forbidden
        insufficient_role internal invalid_credentials mfa_already_enabled mfa_invalid_code
        mfa_not_enabled mfa_required mfa_setup_required mfa_state_conflict mfa_temp_token_invalid
        otp_invalid pending_approval platform_auth_required reauthentication_required
        refresh_token_invalid session_not_found token_invalid validation :
      ErrorCode

pub data Result {ℓ} (A : Type ℓ) : Type ℓ where
  ok : A → Result A
  raise : ErrorCode → Result A

-- The early returns of a chain of reads that may find nothing.
infixl 20 ◌>>=◌
abbrev pub ◌>>=◌ {ℓ κ} : {A : Type ℓ} {B : Type κ} → Option A → (A → Option B) → Option B
none >>= next = none
some a >>= next = next a
