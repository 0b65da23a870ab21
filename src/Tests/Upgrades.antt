-- ===== src/Tests/Upgrades.antt =====
-- A ticket of a session that has passed its second factor opens one socket.
use nest_auth.Prelude.{
  ℕ, ◌+◌, ◌*◌, ◌≤◌, ◌≡◌, refl, none, some, Bool, true, codes, ok, raise, token_invalid,
  if◌then◌else◌,
}
use nest_auth.Prelude.Action.{continue}
use nest_auth.Redis.Memory.{Memory}
use nest_auth.AuthRedis.Tickets.{ticket_key}
use nest_auth.Users.{Account}
use nest_auth.Users.Memory.{directory}
use nest_auth.Access.{read_stamped_epoch}
use nest_auth.Access.Status.{assert_not_blocked}
use nest_auth.Access.WsTickets.{
  DashboardJwtPayload, assert_second_factor, lifetime_for, snapshot_for, issue_ticket,
  is_revoked_snapshot, redeem_ticket,
}
use nest_auth.Access.WsTickets.Sockets.{issue_ticket-redeems}
use nest_auth.Tests.Given.{nothing}
use nest_auth.Tests.Server.{paired, plain_env, accounts, people}
open plain_env.redis use {ttl}
open directory use {find_user}

-- Its token ends in ten seconds.
abbrev payload : DashboardJwtPayload
payload = record {
  sub = codes "u";
  tenant_id = codes "t";
  jti = codes "j";
  mfa_enabled = some true;
  mfa_verified = true;
  exp = some 110;
  epoch = none;
}

issued : Memory
issued =
    (issue_ticket plain_env accounts directory payload people 99500 100000 (codes "a1") nothing).1

issue_replies :
    (issue_ticket plain_env accounts directory payload people 99500 100000 (codes "a1") nothing).0
    ≡ ok (codes "a1", 9)
unfolding issue_ticket continue assert_second_factor lifetime_for assert_not_blocked
issue_replies = refl

issues :
    issue_ticket plain_env accounts directory payload people 99500 100000 (codes "a1") nothing
    ≡ (ok (codes "a1", 9), issued)
unfolding issued
issues = paired _ (ok (codes "a1", 9)) issue_replies

issue_ticket-redeems_example :
    (account : Account) × (enabled : Bool) × (e : ℕ) × (assert_second_factor payload ≡ ok tt)
    × (find_user people (codes "t") (codes "u") ≡ some account)
    × (assert_not_blocked accounts account.safe.status ≡ ok tt)
    × (payload.mfa_enabled ≡ some enabled)
    × (payload.exp ≡ some e)
    × (ttl issued (ticket_key plain_env (codes "a1")) ≡ some 9)
    × (9 ≤ 30)
    × (100000 + (9 + 1) * 1000 ≤ e * 1000)
    × ((redeem_ticket plain_env (codes "a1") issued).0 ≡ (
        if is_revoked_snapshot plain_env (snapshot_for account.safe payload enabled) issued
        then raise token_invalid
        else ok (snapshot_for account.safe payload enabled)))
    × ((redeem_ticket plain_env (codes "a1") (redeem_ticket plain_env (codes "a1") issued).1).0
        ≡ raise token_invalid)
unfolding read_stamped_epoch
issue_ticket-redeems_example =
    issue_ticket-redeems plain_env accounts directory payload people 99500 100000 b'a' (codes "1")
      nothing issued issued (codes "a1") 9 issues refl refl refl
