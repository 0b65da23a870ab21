-- ===== src/Tests/Logins.antt =====
-- The theorems on the tokens of a login, at one user and at one administrator.
use nest_auth.Prelude.{◌≡◌, ◌∙◌, refl, true, some, none, [], codes, text_eq_refl, ok}
use nest_auth.Prelude.Decimal.{decimal, parse_int}
use nest_auth.Redis.Memory.{Memory}
use nest_auth.Json.{str}
use nest_auth.Keys.{dashboard, platform, live, consumed, key}
use nest_auth.AuthRedis.Counters.{get_user_token_epoch}
use nest_auth.TokenManager.{
  build_session, serialize_session, parse_session, is_within_absolute_lifetime,
}
use nest_auth.TokenManager.Refresh.{reissue_tokens}
use nest_auth.TokenManager.Issue.{Login, issue_tokens}
use nest_auth.TokenManager.Logins.{issue_tokens-refreshes}
use nest_auth.TokenManager.PlatformRefresh.{reissue_platform_tokens}
use nest_auth.TokenManager.PlatformRenewal.{platform_successor, reissue_platform_tokens-renews}
use nest_auth.Tests.Given.{given, nothing}
use nest_auth.Tests.Tokens.{at_time, one_day, seed, presented}
open given.redis use {get, set}

abbrev login_of_u : Login
login_of_u = record {
  user = record {
    id = codes "u";
    tenant_id = codes "t";
    role = codes "ADMIN";
    status = codes "active";
    mfa_enabled = true;
  };
  ip = codes "::1";
  user_agent = codes "curl";
  mfa_verified = true;
  raw_refresh_token = codes "a1";
  family_id = codes "f";
}

issue_tokens-refreshes_example :
    let run =
      reissue_tokens given one_day
        (at_time 10)
        presented
        (issue_tokens given one_day (at_time 5) login_of_u nothing).1 in
    run.0
    ≡ ok (record {
      user_id = codes "u";
      tenant_id = some (str (codes "t"));
      role = codes "ADMIN";
      access_token = record {
        sub = codes "u";
        tenant_id = some (str (codes "t"));
        role = codes "ADMIN";
        status = some [];
        plane = dashboard;
        mfa_enabled = true;
        mfa_verified = true;
        epoch = get_user_token_epoch given (codes "u") (some (codes "t")) dashboard run.2;
      };
      raw_refresh_token = codes "b2";
    })
unfolding is_within_absolute_lifetime parse_int build_session decimal
issue_tokens-refreshes_example =
    issue_tokens-refreshes given one_day (at_time 5) login_of_u nothing 0 refl refl refl
      (at_time 10) presented refl refl refl

abbrev administered : Memory
administered = set nothing (key platform live (codes "a1")) (serialize_session given seed) 100

administrator_stored :
    get administered (key platform live (codes "a1")) ≡ some (serialize_session given seed)
administrator_stored =
    given.redis.get-set nothing (key platform live (codes "a1")) (serialize_session given seed) 99
      (key platform live (codes "a1"))
    ∙ rw text_eq_refl refl

reissue_platform_tokens-renews_example :
    let run = reissue_platform_tokens given one_day (at_time 10) presented administered in
    let next = platform_successor given one_day (at_time 10) presented seed administered 0 refl in
    (run.0
      ≡ ok (record {
        user_id = codes "u";
        tenant_id = some (str []);
        role = codes "ADMIN";
        access_token = record {
          sub = codes "u";
          tenant_id = none;
          role = codes "ADMIN";
          status = none;
          plane = platform;
          mfa_enabled = true;
          mfa_verified = true;
          epoch = get_user_token_epoch given (codes "u") none platform run.2;
        };
        raw_refresh_token = codes "b2";
      }))
    × (run.1 ≡ none)
    × (get run.2 (key platform live (codes "b2")) ≡ some (serialize_session given next))
    × (parse_session given (serialize_session given next) ≡ ok next)
    × (get run.2 (key platform live (codes "a1")) ≡ none)
    × (get run.2 (key platform consumed (codes "a1")) ≡ some (codes "f"))
unfolding is_within_absolute_lifetime parse_int
reissue_platform_tokens-renews_example =
    reissue_platform_tokens-renews given one_day (at_time 10) presented seed administered 0 refl
      administrator_stored refl refl refl
