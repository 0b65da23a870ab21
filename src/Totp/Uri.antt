-- ===== src/Totp/Uri.antt =====
-- crypto/totp.ts: `buildTotpUri`. `encodeURIComponent` is an argument.
use nest_auth.Prelude.{Option, none, some, [], ◌∷◌, ◌++◌, Text, codes, length, ltb, if◌then◌else◌}
use nest_auth.Prelude.Decimal.{decimal}
use nest_auth.Totp.{totp_digits, totp_step_seconds}

abbrev parameters : (Text → Text) → Text → Text → Text
parameters encode secret_base32 issuer =
    codes "secret="
    ++ (encode secret_base32
        ++ (codes "&issuer="
            ++ (encode issuer
                ++ (codes "&algorithm=SHA1&digits="
                    ++ (decimal totp_digits ++ (codes "&period=" ++ decimal totp_step_seconds))))))

abbrev uri_of : (Text → Text) → Text → Text → Text → Option Text
uri_of encode secret_base32 account_email [] = none
uri_of encode secret_base32 [] (c ∷ t) = none
uri_of encode secret_base32 (d ∷ e) (c ∷ t) = some (
    codes "otpauth://totp/"
    ++ (encode (c ∷ t)
        ++ b':' ∷ (encode (d ∷ e) ++ b'?' ∷ parameters encode secret_base32 (c ∷ t))))

-- `none` is an error of an argument that is too short.
unfoldable pub build_totp_uri : (Text → Text) → Text → Text → Text → Option Text
build_totp_uri encode secret_base32 account_email issuer =
    if ltb (length secret_base32) 32 then none else uri_of encode secret_base32 account_email issuer
