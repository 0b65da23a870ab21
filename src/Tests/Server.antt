-- ===== src/Tests/Server.antt =====
-- A server with one account that has a second factor.
use nest_auth.Prelude.{
  ℕ, zero, suc, ◌+◌, ◌-◌, ◌≡◌, refl, ap, true, false, none, some, List, [], ◌∷◌, ◌++◌, Text, codes,
  text_eq, keep, not, ◌==◌, Free, if◌then◌else◌, arith,
}
use nest_auth.Redis.Memory.{Memory}
use nest_auth.Json.{Platform}
use nest_auth.Keys.{dashboard}
use nest_auth.Crypto.AesGcm.{Node}
use nest_auth.Totp.{pos}
use nest_auth.Access.{Verification}
use nest_auth.Access.Status.{StatusOptions}
use nest_auth.TokenManager.MfaTemp.{MfaTempToken, temp_payload, issue_mfa_temp_token}
use nest_auth.Users.{Account}
use nest_auth.Users.Memory.{Directory, directory}
use nest_auth.Mfa.{Server, World}
use nest_auth.Tests.Given.{given, nothing}
use nest_auth.Tests.Tokens.{at_time, one_day}

-- A digest without colons.
abbrev pub plain_env : Platform
plain_env = record given { hmac = λ t k. keep (λ c. not (c == b':')) t ++ k }

-- A cipher that hides nothing, and a text form whose characters are behind the colon.
abbrev pub shifted : List ℕ → Text
shifted [] = []
shifted (x ∷ l) = (x + 59) ∷ shifted l

abbrev pub unshifted : Text → List ℕ
unshifted [] = []
unshifted (x ∷ l) = (x - 59) ∷ unshifted l

pub unshifted-shifted : (l : List ℕ) → unshifted (shifted l) ≡ l
unshifted-shifted [] = refl
unshifted-shifted (x ∷ l) = ground (arith, unshifted-shifted l)

pub shifted-Free : (l : List ℕ) → Free b':' (shifted l)
shifted-Free [] = tt
shifted-Free (x ∷ l) = (ground arith, shifted-Free l)

abbrev pub repeated : ℕ → ℕ → List ℕ
repeated zero x = []
repeated (suc n) x = x ∷ repeated n x

abbrev pub plain_node : Node
plain_node = record {
  from_base64 = unshifted;
  to_base64 = shifted;
  from_utf8 = λ t. t;
  to_utf8 = λ t. t;
  seal = λ key iv plain. (plain, repeated 16 0);
  open_sealed = λ key iv tag sealed. some sealed;
  from_base64-to_base64 = unshifted-shifted;
  to_base64-Free = shifted-Free;
  length-tag = λ key iv plain. refl;
  open_sealed-seal = λ key iv plain. refl;
}

abbrev pub token : MfaTempToken
token = record {
  user_id = codes "u";
  context = dashboard;
  jti = codes "j";
  tenant_id = some (codes "t");
}

abbrev pub verification : Verification
verification = record {
  jwt_verify = λ secret text. elim secret [ none ↦ some (temp_payload token 0) | some s ↦ none ];
  previous_secrets = [];
  tenant_binding_enforced = false;
}

abbrev pub accounts : StatusOptions
accounts = record {
  blocked_statuses = codes "banned" ∷ [];
  to_lower_case = λ t. t;
  email_verification_required = false;
  user_status_cache_ttl_seconds = 60;
  find_user = λ user_id tenant_id. none;
  find_platform_status = λ user_id. none;
}

abbrev pub totp_secret : Text
totp_secret = codes "AAAAAAAAAAAAAAAAAAAAAAAAAAAAAAAA"

abbrev pub recovery_code : Text
recovery_code = codes "spare"

-- The digests of two recovery codes.
abbrev pub digests : List Text
digests = (codes "other" ++ codes "k") ∷ (recovery_code ++ codes "k") ∷ []

abbrev pub user : Account
user = record {
  safe = record {
    id = codes "u";
    tenant_id = codes "t";
    role = codes "ADMIN";
    status = codes "active";
    mfa_enabled = true;
  };
  email = codes "u@example.com";
  password_hash = none;
  mfa_secret =
      some
        (shifted (repeated 12 1) ++ b':' ∷ (shifted (repeated 16 0) ++ b':' ∷ shifted totp_secret));
  mfa_recovery_codes = some digests;
}

abbrev pub server : Server
server = record {
  env = plain_env;
  node = plain_node;
  verification = verification;
  status = accounts;
  settings = one_day;
  clock = at_time 1700000000000;
  repositories = directory;
  has_platform_repository = true;
  to_upper_case = λ t. t;
  hmac_sha1 = λ key message. repeated 20 0;
  totp_window = pos 1;
  encryption_key = shifted (repeated 32 7);
  previous_encryption_keys = [];
  previous_hmac_keys = [];
  max_attempts = 3;
  window_seconds = 900;
  recovery_code_count = some 2;
  sessions_enabled = true;
  issuer = codes "Example";
  encode_uri_component = λ t. t;
  compare = text_eq;
}

abbrev pub people : Directory
people = record {
  users = λ tenant id. if text_eq id (codes "u") then some user else none;
  admins = λ id. none;
}

-- Before the second step of a login.
abbrev pub begun : World Memory Directory
begun = record { store = (issue_mfa_temp_token plain_env token nothing).1; users = people }

-- A run whose reply is known.
pub paired : {A B : Type 0} (p : A × B) (a : A) → p.0 ≡ a → p ≡ (a, p.1)
paired p a h = ap (λ x. (x, p.1)) h
