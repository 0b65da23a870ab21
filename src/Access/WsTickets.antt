-- ===== src/Access/WsTickets.antt =====
-- services/ws-ticket.service.ts: a ticket is minted from a verified access token, and redeemed by the
-- handshake of a socket. The ticket that is drawn and the two readings of the clock, in milliseconds,
-- are arguments.
pub mod Sockets
use nest_auth.Prelude.{
  ℕ, ◌+◌, ◌-◌, ◌/◌, Bool, true, false, ◌&&◌, not, Option, none, some, [], ◌∷◌, Text, Result, ok,
  raise, ltb, min, if◌then◌else◌, mfa_required, token_invalid,
}
use nest_auth.Prelude.Action.{
  Action, pure, throw, reads, or_throw, from_result, throw_if, ◌>>=◌, ◌>>◌,
}
use nest_auth.Json.{Json, num, Platform}
use nest_auth.Keys.{Plane, dashboard, platform}
use nest_auth.AuthRedis.Tickets.{WsTicketSnapshot, mint_ws_ticket, redeem_ws_ticket}
use nest_auth.TokenManager.Issue.{LoginUser}
use nest_auth.Users.{Account, Repositories}
use nest_auth.Access.{read_stamped_epoch, is_access_token_revoked}
use nest_auth.Access.Status.{StatusOptions, assert_not_blocked}

-- DashboardJwtPayload; the fields that the service checks itself may be of another type, which is
-- `none`.
pub record DashboardJwtPayload : Type 0 where
  pub sub : Text
  pub tenant_id : Text
  pub jti : Text
  pub mfa_enabled : Option Bool
  pub mfa_verified : Bool
  pub exp : Option ℕ
  pub epoch : Option Json

-- WS_TICKET_TTL_SECONDS and EXPIRY_MARGIN_SECONDS
abbrev pub ws_ticket_ttl_seconds : ℕ
ws_ticket_ttl_seconds = 30

abbrev pub expiry_margin_seconds : ℕ
expiry_margin_seconds = 1

-- `assertSecondFactor`
unfoldable pub assert_second_factor : DashboardJwtPayload → Result (Unit {0})
assert_second_factor payload = elim (payload.mfa_enabled) [
  | none ↦ raise token_invalid
  | some enabled ↦ if enabled && not payload.mfa_verified then raise mfa_required else ok tt
]

-- `lifetimeFor`; what is not above 0 is 0 here
unfoldable pub lifetime_for : Option ℕ → ℕ → Result ℕ
lifetime_for none now = raise token_invalid
lifetime_for (some exp) now =
    let lifetime = min ws_ticket_ttl_seconds (exp - (now + 999) / 1000 - expiry_margin_seconds) in
    if ltb 0 lifetime then ok lifetime else raise token_invalid

-- The snapshot of the account, with what is read of the token.
abbrev pub snapshot_for : LoginUser → DashboardJwtPayload → Bool → WsTicketSnapshot
snapshot_for user payload enabled = record {
  sub = user.id;
  tenant_id = some user.tenant_id;
  role = user.role;
  status = user.status;
  mfa_enabled = enabled;
  mfa_verified = payload.mfa_verified;
  jti = payload.jti;
  epoch = read_stamped_epoch payload.epoch;
}

-- the plane of the snapshot
abbrev pub plane_of : Option Text → Plane
plane_of none = platform
plane_of (some tenant_id) = dashboard

module _ (env : Platform) (status : StatusOptions) (repositories : Repositories) where
  open env use {redis}
  open redis use {Store}
  open repositories use {Users, find_user}

  -- `issue`
  unfoldable pub issue_ticket : DashboardJwtPayload → Users → ℕ → ℕ → Text → Action Store (Text × ℕ)
  issue_ticket payload u before after ticket = do
    from_result (assert_second_factor payload)
    early ← from_result (lifetime_for payload.exp before)
    account ← or_throw token_invalid (find_user u payload.tenant_id payload.sub)
    from_result (assert_not_blocked status account.safe.status)
    enabled ← or_throw token_invalid (payload.mfa_enabled)
    lifetime ← from_result (lifetime_for payload.exp after)
    minted ← (λ s.
        (ok tt, mint_ws_ticket env ticket (snapshot_for account.safe payload enabled) lifetime s))
    pure (ticket, lifetime)

module _ (env : Platform) where
  open env use {redis}
  open redis use {Store}

  -- whether the session behind a snapshot was revoked
  abbrev pub is_revoked_snapshot : WsTicketSnapshot → Store → Bool
  is_revoked_snapshot v s =
      is_access_token_revoked env v.jti v.sub v.tenant_id (some (num v.epoch))
        (plane_of v.tenant_id) s

  -- what `redeem` finds; an empty ticket is not looked up
  abbrev pub taken_ticket : Text → Store → Option WsTicketSnapshot × Store
  taken_ticket [] s = (none, s)
  taken_ticket (c ∷ t) s = redeem_ws_ticket env (c ∷ t) s

  -- `redeem`
  unfoldable pub redeem_ticket : Text → Action Store WsTicketSnapshot
  redeem_ticket ticket = do
    found ← (λ s. let (o, s') = taken_ticket ticket s in (ok o, s'))
    snapshot ← or_throw token_invalid found
    revoked ← reads (is_revoked_snapshot snapshot)
    throw_if revoked token_invalid
    pure snapshot
