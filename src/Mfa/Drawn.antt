-- ===== src/Mfa/Drawn.antt =====
-- services/mfa.service.ts: a first `setup` keeps what it draws.
use nest_auth.Prelude.{
  ℕ, Bool, Result, ◌≡◌, refl, ◌∙◌, ap, sym, true, false, none, some, List, Text, map, ok,
  text_eq_refl, length,
}
use nest_auth.Prelude.Action.{through, reply_inv, or_throw_inv, pure_inv}
use nest_auth.Json.{arr}
use nest_auth.AuthRedis.Claims.{set_if_absent, set_if_absent-reply, get-set_if_absent}
use nest_auth.Crypto.AesGcm.{iv_length}
use nest_auth.Crypto.AesGcm.RoundTrip.{decrypt-encrypt}
use nest_auth.Totp.{to_base32}
use nest_auth.Users.{Account}
use nest_auth.Mfa.{Server, State, on_store, encrypt_secret, decrypt_with_rotation}
use nest_auth.Mfa.RecoveryCodes.{count_or_default, hash_recovery_codes}
use nest_auth.Mfa.Regenerated.{hash_recovery_codes_lem}
use nest_auth.Mfa.SetupData.{
  MfaSetupData, texts_out, setup_json, parse_setup_data-setup_json,
  parse_plain_recovery_codes-texts_out,
}
use nest_auth.Mfa.Setup.{
  MfaSetupResult, SetupRequest, key_of, show_new, first_setup, mfa_setup_ttl_seconds, keep_payload,
}
use nest_auth.Mfa.Shown.{Kept}

module _ (server : Server) where
  open server use {env, node, encryption_key, recovery_code_count, compare}
  open server.env use {redis, hmac, hmac_key, stringify}
  open server.env.redis use {Store, get, set}

  -- The texts that a setup encrypts, and that it can encrypt them.
  abbrev pub drawn_codes : SetupRequest → List Text
  drawn_codes r =
      (hash_recovery_codes server r.draws 0 (count_or_default recovery_code_count)).plain_codes

  pub record CanEncrypt (r : SetupRequest) : Type 0 where
    pub secret_vector : length r.secret_iv ≡ iv_length
    pub codes_vector : length r.codes_iv ≡ iv_length
    pub long : length (node.from_base64 encryption_key) ≡ 32
    pub secret_encoded :
        node.to_utf8 (node.from_utf8 (to_base32 r.raw_secret)) ≡ to_base32 r.raw_secret
    pub codes_encoded :
        node.to_utf8 (node.from_utf8 (stringify (arr (texts_out (drawn_codes r)))))
        ≡ stringify (arr (texts_out (drawn_codes r)))

  decrypt_with_rotation-encrypt_secret :
      (iv : List ℕ) (t ciphertext : Text)
      → length iv ≡ iv_length
      → length (node.from_base64 encryption_key) ≡ 32
      → node.to_utf8 (node.from_utf8 t) ≡ t
      → encrypt_secret server iv t ≡ some ciphertext
      → decrypt_with_rotation server ciphertext ≡ some (record { secret = t; stale = false })
  unfolding decrypt_with_rotation
  decrypt_with_rotation-encrypt_secret iv t ciphertext vector long encoded h =
      let (c, made, back) = decrypt-encrypt node iv t encryption_key vector long encoded in
      let same : c ≡ ciphertext = cc (made, h) in rw (decrypt_with_rotation, rw same at back) refl

  show_new_inv :
      (user : Account) (secret : Text) (plain_codes : List Text) (w w' : State server)
      (shown : MfaSetupResult)
      → show_new server user secret plain_codes w ≡ (ok shown, w')
      → (shown.secret ≡ secret) × (shown.recovery_codes ≡ plain_codes) × (w' ≡ w)
  unfolding show_new
  show_new_inv user secret plain_codes w w' shown h = through h λ uri w1 e1 h1.
      let last = pure_inv _ _ h1 in
      (
        ap (λ x. x.secret) last.0,
        ap (λ x. x.recovery_codes) last.0,
        last.1 ∙ (or_throw_inv _ _ _ e1).1,
      )

  -- The payload is kept where nothing was.
  keep_payload-first :
      (r : SetupRequest) (user : Account) (secret : Text) (plain_codes : List Text) (payload : Text)
      (was_set : Bool) (w v w' : State server) (shown : MfaSetupResult)
      → get w.store (key_of server r) ≡ none
      → on_store server (set_if_absent redis (key_of server r) payload mfa_setup_ttl_seconds) w
        ≡ (ok was_set, v)
      → keep_payload server r user secret plain_codes payload was_set v ≡ (ok shown, w')
      → (shown.secret ≡ secret)
        × (shown.recovery_codes ≡ plain_codes)
        × (get w'.store (key_of server r) ≡ some payload)
        × (w'.users ≡ w.users)
  keep_payload-first r user secret plain_codes payload was_set w v w' shown free e h =
      let k = key_of server r in
      let i = reply_inv _ _ e in
      let first : ◌≡◌ {A = Result Bool} (ok true) (ok was_set) =
        rw (set_if_absent-reply redis k payload mfa_setup_ttl_seconds w.store, free) at i.0 in
      let known : was_set ≡ true = cc first in
      let last = show_new_inv user secret plain_codes v w' shown (rw known at h) in
      (
        last.0,
        last.1,
        rw (last.2, i.1)
            (get-set_if_absent redis k payload 599 w.store k ∙ rw (text_eq_refl k, free) refl),
        rw (last.2, i.1) refl,
      )

  -- A first setup keeps the drawn secret and the digests of the drawn codes.
  pub first_setup-Kept :
      (r : SetupRequest) (user : Account) (w w' : State server) (shown : MfaSetupResult)
      → CanEncrypt r
      → get w.store (key_of server r) ≡ none
      → first_setup server r user w ≡ (ok shown, w')
      → (raw : Text) × (k : Kept server raw shown) × (get w'.store (key_of server r) ≡ some raw)
        × (w'.users ≡ w.users)
        × (k.kept.hashed_codes ≡ map (λ code. hmac code hmac_key) shown.recovery_codes)
  unfolding first_setup
  first_setup-Kept r user w w' shown can free h = through h λ sealed w1 e1 h1.
      through h1 λ sealed_codes w2 e2 h2. through h2 λ was_set w3 e3 h3.
        let i1 = or_throw_inv _ _ _ e1 in
        let i2 = or_throw_inv _ _ _ e2 in
        let start : w2 ≡ w = i2.1 ∙ i1.1 in
        let set = hash_recovery_codes server r.draws 0 (count_or_default recovery_code_count) in
        let hashed =
          hash_recovery_codes_lem server r.draws 0 (count_or_default recovery_code_count) in
        let kept : MfaSetupData = record {
          encrypted_secret = sealed;
          hashed_codes = set.hashed_codes;
          encrypted_plain_codes = sealed_codes;
        } in
        let (shows, lists, stands, users) =
          keep_payload-first r user (to_base32 r.raw_secret) set.plain_codes
            (stringify (setup_json kept)) was_set w w3 w' shown free (rw start at e3) h3 in
        let k : Kept server (stringify (setup_json kept)) shown = record {
          kept = kept;
          secret = record { secret = to_base32 r.raw_secret; stale = false };
          json = record { secret = stringify (arr (texts_out set.plain_codes)); stale = false };
          parsed = parse_setup_data-setup_json env kept;
          opened =
              decrypt_with_rotation-encrypt_secret r.secret_iv (to_base32 r.raw_secret) sealed
                can.secret_vector can.long can.secret_encoded i1.0;
          opened_codes =
              decrypt_with_rotation-encrypt_secret r.codes_iv
                (stringify (arr (texts_out set.plain_codes))) sealed_codes can.codes_vector can.long
                can.codes_encoded i2.0;
          same_secret = shows;
          same_codes =
              parse_plain_recovery_codes-texts_out env set.plain_codes ∙ ap some (sym lists);
        } in
        (stringify (setup_json kept), k, stands, users, hashed.1 ∙ ap (map _) (sym lists))
