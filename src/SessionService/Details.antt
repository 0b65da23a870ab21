-- ===== src/SessionService/Details.antt =====
-- The detail record of a session over its rotations.
use nest_auth.Prelude.{
  ℕ, suc, ◌≡◌, refl, ap, ◌∙◌, true, false, ◌&&◌, Option, none, some, Text, text_eq, text_eq_refl,
  ok, if◌then◌else◌, slice_to,
}
use nest_auth.Json.{Json, obj, member, Platform}
use nest_auth.Keys.{dashboard, detail, key}
use nest_auth.SessionService.Records.{
  StoredSessionDetail, max_ip_length, is_valid_session_hash, parse_user_agent, detail_fields,
  detail_in, or_number,
}
use nest_auth.SessionService.{stored_created_at, detail_json, new_detail, rotate_session}

detail_in-detail_fields : (d : StoredSessionDetail) → detail_in (obj (detail_fields d)) ≡ some d
unfolding detail_in detail_fields member
detail_in-detail_fields d = refl

module _ (env : Platform) where
  open env use {redis, parse, stringify}
  open redis use {Store, get}

  -- `parseStoredDetail` of what is stored
  abbrev detail_of_parsed : Option Json → Option StoredSessionDetail
  detail_of_parsed none = none
  detail_of_parsed (some parsed) = detail_in parsed

  abbrev pub decoded : Option Text → Option StoredSessionDetail
  decoded none = none
  decoded (some raw) = detail_of_parsed (parse raw)

  abbrev pub detail_of : Text → Store → Option StoredSessionDetail
  detail_of hash s = decoded (get s (key dashboard detail hash))

  get-set_same : (t : Store) (k v : Text) (ttl : ℕ) → get (redis.set t k v (suc ttl)) k ≡ some v
  get-set_same t k v ttl = redis.get-set t k v ttl k ∙ rw (text_eq_refl k) refl

  -- A record is read as it was written.
  decoded-detail_json : (d : StoredSessionDetail) → decoded (some (detail_json env d)) ≡ some d
  decoded-detail_json d =
      ap detail_of_parsed (env.parse-stringify (obj (detail_fields d))) ∙ detail_in-detail_fields d

  -- `rotateSession,` called with two different valid hashes, deletes the old detail record and
  -- writes the new one, which is read back with the creation time of the old record, or with the
  -- time of the call where the old one has none; no other string changes.
  pub rotate_session-moves :
      (old_hash new_hash ip user_agent : Text) (now ttl : ℕ) (s : Store)
      → is_valid_session_hash old_hash && is_valid_session_hash new_hash ≡ true
      → text_eq old_hash new_hash ≡ false
      → let run = rotate_session env old_hash new_hash ip user_agent now (suc ttl) s in
        (run.0 ≡ ok tt)
        × (detail_of new_hash run.1
            ≡ some (record {
              device = parse_user_agent user_agent;
              ip = slice_to max_ip_length ip;
              created_at = or_number (stored_created_at env old_hash s) now;
              last_activity_at = now;
            }))
        × ((j : Text)
            → get run.1 j ≡ (
                if text_eq (key dashboard detail new_hash) j
                then some (
                    detail_json env (
                      new_detail env user_agent ip
                        (or_number (stored_created_at env old_hash s) now)
                        now))
                else if text_eq (key dashboard detail old_hash) j
                then none
                else get s j))
  unfolding rotate_session
  rotate_session-moves old_hash new_hash ip user_agent now ttl s valid apart =
      rw (valid, apart)
        (
          refl,
          ap decoded (get-set_same _ _ _ _)
              ∙ decoded-detail_json (
                  new_detail env user_agent ip (or_number (stored_created_at env old_hash s) now)
                    now),
          (λ j. redis.get-set _ _ _ _ _ ∙ rw redis.get-del refl),
        )
