-- ===== src/Mfa/SetupData.antt =====
-- services/mfa.service.ts: the record of a pending setup, `parseSetupData` and
-- `parsePlainRecoveryCodes`.
use nest_auth.Prelude.{◌≡◌, refl, Option, some, [], ◌∷◌, List, Text, codes, ◌>>=◌}
use nest_auth.Json.{
  Json, Platform, str, obj, arr, field, end, Items, nil, item, as_string, as_texts, member, find,
  texts_in,
}

-- MfaSetupData
pub record MfaSetupData : Type 0 where
  pub encrypted_secret : Text
  pub hashed_codes : List Text
  pub encrypted_plain_codes : Text

-- `isMfaSetupData`
abbrev pub setup_data_in : Json → Option MfaSetupData
setup_data_in parsed = do
  encrypted_secret ← as_string (member (codes "encryptedSecret") parsed)
  encrypted_plain_codes ← as_string (member (codes "encryptedPlainCodes") parsed)
  hashed_codes ← as_texts (member (codes "hashedCodes") parsed)
  some (record {
    encrypted_secret = encrypted_secret;
    hashed_codes = hashed_codes;
    encrypted_plain_codes = encrypted_plain_codes;
  })

-- `parseSetupData`; `none` is its MFA_SETUP_REQUIRED
unfoldable pub parse_setup_data : Platform → Text → Option MfaSetupData
parse_setup_data env raw = env.parse raw >>= setup_data_in

-- `parsePlainRecoveryCodes`; `none` is its MFA_SETUP_REQUIRED
unfoldable pub parse_plain_recovery_codes : Platform → Text → Option (List Text)
parse_plain_recovery_codes env raw = as_texts (env.parse raw)

-- What `JSON.stringify` is given.
unfoldable pub texts_out : List Text → Items
texts_out [] = nil
texts_out (t ∷ texts) = item (str t) (texts_out texts)

unfoldable pub setup_json : MfaSetupData → Json
setup_json setup = obj (
    field (codes "encryptedSecret") (str setup.encrypted_secret) (
      field (codes "hashedCodes") (arr (texts_out setup.hashed_codes))
        (field (codes "encryptedPlainCodes") (str setup.encrypted_plain_codes) end)))

texts_in-texts_out : (texts : List Text) → texts_in (texts_out texts) ≡ some texts
unfolding texts_in texts_out
texts_in-texts_out [] = refl
texts_in-texts_out (t ∷ texts) = rw (texts_in-texts_out texts) refl

pub parse_setup_data-setup_json :
    (env : Platform) (setup : MfaSetupData)
    → parse_setup_data env (env.stringify (setup_json setup)) ≡ some setup
unfolding parse_setup_data setup_json member find
parse_setup_data-setup_json env setup =
    rw (env.parse-stringify (setup_json setup), texts_in-texts_out setup.hashed_codes) refl

pub parse_plain_recovery_codes-texts_out :
    (env : Platform) (texts : List Text)
    → parse_plain_recovery_codes env (env.stringify (arr (texts_out texts))) ≡ some texts
unfolding parse_plain_recovery_codes
parse_plain_recovery_codes-texts_out env texts =
    rw (env.parse-stringify (arr (texts_out texts))) (texts_in-texts_out texts)
