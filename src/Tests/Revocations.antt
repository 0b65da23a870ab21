-- ===== src/Tests/Revocations.antt =====
-- A user with two sessions and a grace pointer, who revokes all but one; a rotated detail record.
use nest_auth.Prelude.{
  is_some, List, ◌+◌, ◌≡◌, refl, none, some, [], ◌∷◌, Text, codes, ok, contains, true, ◌&&◌, ◌||◌,
  not, text_eq, text_eq_iff, keep, if◌then◌else◌, arith, slice_to, inl, inr, Bool-cases, ap,
}
use nest_auth.Prelude.Decimal.{decimal}
use nest_auth.Redis.Memory.{Memory}
use nest_auth.Redis.Namespace.{prefix}
use nest_auth.Keys.{
  dashboard, live, grace, detail, key, session_index_key, user_subject, byte_length,
  token_epoch_key,
}
use nest_auth.SessionService.Records.{
  max_ip_length, parse_user_agent, or_number, is_valid_session_hash,
}
use nest_auth.SessionService.{
  is_session, is_pointer, hash_of, index_key, detail_json, new_detail, stored_created_at,
  rotate_session, revoke_all_except_current, resolve_live_member,
}
use nest_auth.SessionService.Revocation.{owns, accepted, AllAccepted}
use nest_auth.SessionService.Revoked.{revoke_all_except_current-revokes, epoch_of}
use nest_auth.SessionService.Details.{detail_of, rotate_session-moves}
use nest_auth.SessionService.Listing.{SessionInfo, list_sessions}
use nest_auth.SessionService.Listed.{shows, IsNewestFirst, list_sessions-shows}
use nest_auth.Tests.Given.{given, nothing}
open given.redis use {get, smembers, set, sadd}

abbrev pub one_hash : Text
one_hash = codes "aaaaaaaaaaaaaaaaaaaaaaaaaaaaaaaaaaaaaaaaaaaaaaaaaaaaaaaaaaaaaaaa"

abbrev pub other_hash : Text
other_hash = codes "bbbbbbbbbbbbbbbbbbbbbbbbbbbbbbbbbbbbbbbbbbbbbbbbbbbbbbbbbbbbbbbb"

abbrev pub index_there : Text
index_there = index_key given (codes "u") (codes "t")

abbrev pub two : Memory
two =
    sadd
      (sadd
        (sadd
          (set (set nothing (key dashboard live one_hash) (codes "{") 100)
            (key dashboard live other_hash) (codes "{") 100)
          index_there (key dashboard live one_hash))
        index_there (key dashboard live other_hash))
      index_there (key dashboard grace (codes "p"))

of_two :
    (tenant_id a b : Text)
    → (is_session a && accepted tenant_id (hash_of a)) ≡ true
    → (is_session b && accepted tenant_id (hash_of b)) ≡ true
    → AllAccepted tenant_id (a ∷ b ∷ [])
of_two tenant_id a b ha hb m h = elim (Bool-cases (text_eq a m)) [
  | inl first ↦
      ground (
        arith,
        ap (λ x. is_session x && accepted tenant_id (hash_of x)) ((text_eq_iff a m).0 first),
      )
  | inr second ↦
      let same : text_eq b m ≡ true = ground arith in
      ground
        (arith, ap (λ x. is_session x && accepted tenant_id (hash_of x)) ((text_eq_iff b m).0 same))
]

pub AllAccepted-two : AllAccepted (codes "t") (keep is_session (smembers two index_there))
unfolding is_valid_session_hash resolve_live_member prefix session_index_key key user_subject
    decimal byte_length token_epoch_key keep
AllAccepted-two =
    of_two (codes "t") (key dashboard live other_hash) (key dashboard live one_hash) refl refl

revoke_all_except_current-revokes_example :
    let run = revoke_all_except_current given (codes "u") (codes "t") one_hash two in
    (run.0 ≡ ok tt)
    × ((h : Text)
        → get run.1 (key dashboard live h) ≡ (
            if not (text_eq h one_hash) && owns given (codes "u") (codes "t") two h
            then none
            else get two (key dashboard live h)))
    × ((h : Text)
        → get run.1 (key dashboard detail h) ≡ (
            if not (text_eq h one_hash) && owns given (codes "u") (codes "t") two h
            then none
            else get two (key dashboard detail h)))
    × ((h : Text)
        → get run.1 (key dashboard grace h) ≡ (
            if contains (smembers two index_there) (key dashboard grace h)
            then none
            else get two (key dashboard grace h)))
    × ((x : Text)
        → contains (smembers run.1 index_there) x ≡ (
            contains (smembers two index_there) x
            && not (is_pointer x || (is_session x && not (text_eq (hash_of x) one_hash)))))
    × (epoch_of given (codes "u") (codes "t") run.1
        ≡ epoch_of given (codes "u") (codes "t") two + 1)
unfolding is_valid_session_hash resolve_live_member prefix session_index_key key user_subject
    decimal byte_length token_epoch_key keep
revoke_all_except_current-revokes_example =
    revoke_all_except_current-revokes given (codes "u") (codes "t") one_hash one_hash two refl refl
      AllAccepted-two (inl refl)

rotate_session-moves_example :
    let run =
      rotate_session given one_hash other_hash (codes "10.0.0.1") (codes "curl") 8 100 two in
    (run.0 ≡ ok tt)
    × (detail_of given other_hash run.1
        ≡ some (record {
          device = parse_user_agent (codes "curl");
          ip = slice_to max_ip_length (codes "10.0.0.1");
          created_at = or_number (stored_created_at given one_hash two) 8;
          last_activity_at = 8;
        }))
    × ((j : Text)
        → get run.1 j ≡ (
            if text_eq (key dashboard detail other_hash) j
            then some (
                detail_json given (
                  new_detail given
                    (codes "curl")
                    (codes "10.0.0.1")
                    (or_number (stored_created_at given one_hash two) 8)
                    8))
            else if text_eq (key dashboard detail one_hash) j
            then none
            else get two j))
unfolding is_valid_session_hash
rotate_session-moves_example =
    rotate_session-moves given one_hash other_hash (codes "10.0.0.1") (codes "curl") 8 99 two refl
      refl

list_sessions-shows_example :
    (l : List SessionInfo) × ((list_sessions given (codes "u") (codes "t") (some one_hash) two).0
      ≡ ok l)
    × IsNewestFirst l
    × ((hash : Text)
        → shows l hash ≡ (
            contains (smembers two index_there) (key dashboard live hash)
            && is_some (detail_of given hash two)))
list_sessions-shows_example =
    list_sessions-shows given (codes "u") (codes "t") (some one_hash) two refl
