-- ===== src/Tests/Grace.antt =====
-- A grace window that outlasts the absolute cap of its login.
use nest_auth.Prelude.{
  ◌≡◌, refl, none, ◌∷◌, ◌++◌, Text, codes, text_eq, raise, refresh_token_invalid, if◌then◌else◌,
}
use nest_auth.Prelude.Decimal.{parse_int}
use nest_auth.Redis.Memory.{Memory}
use nest_auth.Redis.Namespace.{prefix}
use nest_auth.Keys.{dashboard, live, grace, family, key}
use nest_auth.TokenManager.{serialize_session, is_within_absolute_lifetime}
use nest_auth.TokenManager.Refresh.{reissue_tokens}
use nest_auth.TokenManager.Recovery.{reissue_tokens-late}
use nest_auth.Tests.Given.{given, nothing}
use nest_auth.Tests.Tokens.{at_time, one_day, seed, presented}
open given.redis use {get, set, sadd}

abbrev in_window : Memory
in_window =
    sadd
      (set (set nothing (key dashboard live (codes "b2")) (codes "{") 100)
        (key dashboard grace (codes "a1")) (codes "b2" ++ b':' ∷ serialize_session given seed) 30)
      (key dashboard family (codes "f")) (codes "b2")

reissue_tokens-late_example :
    let run = reissue_tokens given one_day (at_time 100000000) presented in_window in
    (run.0 ≡ raise refresh_token_invalid)
    × (run.1 ≡ none)
    × ((j : Text)
        → get run.2 j
          ≡ (if text_eq (key dashboard grace (codes "a1")) j then none else get in_window j))
unfolding prefix key is_within_absolute_lifetime parse_int
reissue_tokens-late_example =
    reissue_tokens-late given one_day (at_time 100000000) presented seed in_window (codes "b2")
      (codes "{") (codes "b2") (refl, (refl, tt)) refl refl refl refl refl refl
