-- ===== src/Tests/Tokens.antt =====
-- The theorems on refresh tokens at a login of one user.
use nest_auth.Prelude.{
  ℕ, ◌≡◌, ◌∙◌, ◌⊎◌, refl, true, some, none, [], Text, codes, text_eq, text_eq_refl, ok, raise, All,
  refresh_token_invalid, if◌then◌else◌, not,
}
use nest_auth.Prelude.Decimal.{decimal, parse_int, parse_int-decimal}
use nest_auth.Redis.Memory.{Memory}
use nest_auth.Redis.Namespace.{prefix}
use nest_auth.Json.{str}
use nest_auth.Keys.{dashboard, live, consumed, family, key}
use nest_auth.AuthRedis.Counters.{get_user_token_epoch}
use nest_auth.AuthRedis.Sessions.{read_family_owner}
use nest_auth.TokenManager.{
  RefreshSession, Settings, Clock, serialize_session, parse_session, is_within_absolute_lifetime,
  is_rotatable_tenant,
}
use nest_auth.TokenManager.Refresh.{RotatedTokens, Exchange, successor_of, reissue_tokens}
use nest_auth.TokenManager.Renewal.{reissue_tokens-renews}
use nest_auth.TokenManager.Records.{stored_session, parse_session-serialize_session}
use nest_auth.TokenManager.Cap.{reissue_tokens-capped}
use nest_auth.TokenManager.Replay.{reissue_tokens-replayed}
use nest_auth.Tests.Given.{given, nothing}
open given.redis use {get, set, smembers, sadd}

abbrev pub at_time : ℕ → Clock
at_time t = record {
  now = t;
  to_iso_string = decimal;
  date_parse = parse_int;
  date_parse-to_iso_string = parse_int-decimal;
}

abbrev pub one_day : Settings
one_day = record {
  refresh_expires_in_days = 1;
  refresh_grace_window_seconds = 30;
  absolute_session_lifetime_days = 1;
  has_reuse_hook = true;
}

abbrev pub seed : RefreshSession
seed = record {
  user_id = codes "u";
  tenant_id = some (str (codes "t"));
  role = codes "ADMIN";
  device = none;
  ip = some (str (codes "::1"));
  created_at = none;
  family_id = codes "f";
  family_created_at = codes "0";
  mfa_enabled = true;
  mfa_verified = true;
}

abbrev pub presented : Exchange
presented = record {
  old_refresh = codes "a1";
  ip = codes "::1";
  user_agent = codes "curl";
  new_raw_refresh = codes "b2";
  another_new_refresh = codes "c3";
}

abbrev presented_next : Exchange
presented_next = record {
  old_refresh = codes "b2";
  ip = codes "::1";
  user_agent = codes "curl";
  new_raw_refresh = codes "d4";
  another_new_refresh = codes "e5";
}

abbrev opened : Memory
opened = set nothing (key dashboard live (codes "a1")) (serialize_session given seed) 100

seed_stored : get opened (key dashboard live (codes "a1")) ≡ some (serialize_session given seed)
seed_stored =
    given.redis.get-set nothing (key dashboard live (codes "a1")) (serialize_session given seed) 99
      (key dashboard live (codes "a1"))
    ∙ rw text_eq_refl refl

parse_session-serialize_session_example :
    parse_session given (serialize_session given seed) ≡ ok (stored_session seed)
parse_session-serialize_session_example = parse_session-serialize_session given seed

reissue_tokens-renews_example :
    let run = reissue_tokens given one_day (at_time 10) presented opened in
    let next = successor_of given one_day (at_time 10) presented seed seed.tenant_id in
    (run.0
      ≡ ok (record {
        user_id = codes "u";
        tenant_id = some (str (codes "t"));
        role = codes "ADMIN";
        access_token = record {
          sub = codes "u";
          tenant_id = some (str (codes "t"));
          role = codes "ADMIN";
          status = some [];
          plane = dashboard;
          mfa_enabled = true;
          mfa_verified = true;
          epoch = get_user_token_epoch given (codes "u") (some (codes "t")) dashboard run.2;
        };
        raw_refresh_token = codes "b2";
      }))
    × (run.1 ≡ none)
    × (get run.2 (key dashboard live (codes "b2")) ≡ some (serialize_session given next))
    × (parse_session given (serialize_session given next) ≡ ok next)
    × (get run.2 (key dashboard live (codes "a1")) ≡ none)
    × (get run.2 (key dashboard consumed (codes "a1")) ≡ some (codes "f"))
unfolding is_within_absolute_lifetime parse_int is_rotatable_tenant
reissue_tokens-renews_example =
    reissue_tokens-renews given one_day (at_time 10) presented seed opened seed_stored refl 0 refl
      refl refl refl

reissue_tokens-capped_example :
    let renewed = (reissue_tokens given one_day (at_time 10) presented opened).2 in
    (tokens : RotatedTokens) × ((reissue_tokens given one_day (at_time 10) presented opened).0
      ≡ ok tokens)
    × (tokens.raw_refresh_token ≡ presented.new_raw_refresh)
    × (get renewed (key dashboard live (given.sha256 presented.new_raw_refresh))
        ≡ some (
            serialize_session given
              (successor_of given one_day (at_time 10) presented seed seed.tenant_id)))
    × (reissue_tokens given one_day (at_time 100000000) presented_next renewed
        ≡ (raise refresh_token_invalid, none, renewed))
unfolding is_within_absolute_lifetime parse_int is_rotatable_tenant
reissue_tokens-capped_example =
    reissue_tokens-capped given one_day (at_time 10) presented seed opened seed_stored refl 0 refl
      refl refl refl (at_time 100000000) presented_next refl refl

abbrev replayed : Memory
replayed =
    sadd (set nothing (key dashboard consumed (codes "a1")) (codes "f") 100)
      (key dashboard family (codes "f")) (codes "b2")

reissue_tokens-replayed_example :
    let run = reissue_tokens given one_day (at_time 10) presented replayed in
    let owner =
      (read_family_owner given dashboard
        (smembers replayed (key dashboard family (codes "f")))
        replayed).0 in
    (run.0 ≡ raise refresh_token_invalid)
    × All
        (λ h. get run.2 (key dashboard live h) ≡ none)
        (smembers replayed (key dashboard family (codes "f")))
    × ((j : Text) → (get run.2 j ≡ none) ⊎ (get run.2 j ≡ get replayed j))
    × (run.1 ≡ (
        if not (text_eq owner [])
        then some (record {
          plane = dashboard;
          user_id = owner;
          family_id = codes "f";
          ip = codes "::1";
          user_agent = codes "curl";
        })
        else none))
unfolding prefix key
reissue_tokens-replayed_example =
    reissue_tokens-replayed given one_day (at_time 10) presented replayed (codes "f") refl refl refl
      refl
