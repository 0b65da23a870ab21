-- ===== src/AuthRedis/Tickets.antt =====
-- redis/auth-redis.service.ts: the single-use tickets of a WebSocket upgrade. The ticket that
-- `generateSecureToken` draws is an argument.
pub mod SingleUse
use nest_auth.Prelude.{
  ◌>>=◌, ℕ, ◌^◌, Bool, true, false, Option, none, some, [], ◌∷◌, ◌++◌, Text, codes, text_eq, ltb,
  is_some, if◌then◌else◌,
}
use nest_auth.Redis.{Redis}
use nest_auth.Json.{
  Json, null, bool, num, str, obj, Fields, end, field, find, as_string, as_number, as_bool,
  Platform,
}

-- interfaces/ws-ticket.interface.ts
pub record WsTicketSnapshot : Type 0 where
  pub sub : Text
  pub tenant_id : Option Text
  pub role : Text
  pub status : Text
  pub mfa_enabled : Bool
  pub mfa_verified : Bool
  pub jti : Text
  pub epoch : ℕ

-- The object that `JSON.stringify` writes; a missing tenant is left out.
abbrev pub tenant_field : Option Text → Fields → Fields
tenant_field none fs = fs
tenant_field (some t) fs = field (codes "tenantId") (str t) fs

abbrev pub snapshot_fields : WsTicketSnapshot → Fields
snapshot_fields v = field (codes "sub") (str v.sub) (
    tenant_field v.tenant_id (
      field (codes "role") (str v.role) (
        field (codes "status") (str v.status) (
          field (codes "mfaEnabled") (bool v.mfa_enabled) (
            field (codes "mfaVerified") (bool v.mfa_verified)
              (field (codes "jti") (str v.jti) (field (codes "epoch") (num v.epoch) end)))))))

-- `record['tenantId'] === undefined || typeof record['tenantId'] === 'string'`
abbrev pub tenant_in : Option Json → Option (Option Text)
tenant_in none = some none
tenant_in (some (str t)) = some (some t)
tenant_in (some _) = none

-- `Number.isSafeInteger(epoch) && epoch >= 0`, of a whole number
abbrev pub is_safe_integer : ℕ → Bool
is_safe_integer n = ltb n 9007199254740992

-- the checks of `isWsTicketSnapshot` on the values
abbrev pub admitted : WsTicketSnapshot → Option WsTicketSnapshot
admitted v = if text_eq v.jti [] then none else if is_safe_integer v.epoch then some v else none

-- `isWsTicketSnapshot` of an object, with the record that it admits
unfoldable pub snapshot_in : Fields → Option WsTicketSnapshot
snapshot_in rec = do
  sub ← as_string (find (codes "sub") rec)
  role ← as_string (find (codes "role") rec)
  status ← as_string (find (codes "status") rec)
  mfa_enabled ← as_bool (find (codes "mfaEnabled") rec)
  mfa_verified ← as_bool (find (codes "mfaVerified") rec)
  jti ← as_string (find (codes "jti") rec)
  epoch ← as_number (find (codes "epoch") rec)
  tenant_id ← tenant_in (find (codes "tenantId") rec)
  admitted (record {
    sub = sub;
    tenant_id = tenant_id;
    role = role;
    status = status;
    mfa_enabled = mfa_enabled;
    mfa_verified = mfa_verified;
    jti = jti;
    epoch = epoch;
  })

abbrev pub snapshot_of : Option Json → Option WsTicketSnapshot
snapshot_of (some (obj rec)) = snapshot_in rec
snapshot_of _ = none

module _ (env : Platform) where
  open env use {redis, sha256, stringify, parse}
  open env.redis use {Store, get, set, del}

  unfoldable pub getdel : Text → Store → Option Text × Store
  getdel key s = let v = get s key in (v, if is_some v then del s key else s)

  abbrev pub ticket_key : Text → Text
  ticket_key ticket = codes "wst:" ++ sha256 ticket

  unfoldable pub mint_ws_ticket : Text → WsTicketSnapshot → ℕ → Store → Store
  mint_ws_ticket ticket snapshot ttl_seconds s =
      set s (ticket_key ticket) (stringify (obj (snapshot_fields snapshot))) ttl_seconds

  -- what `redeemWsTicket` makes of the value that it has taken
  abbrev pub redeemed : Option Text → Option WsTicketSnapshot
  redeemed none = none
  redeemed (some raw) = snapshot_of (parse raw)

  unfoldable pub redeem_ws_ticket : Text → Store → Option WsTicketSnapshot × Store
  unfolding getdel
  redeem_ws_ticket ticket s = let (raw, s') = getdel (ticket_key ticket) s in (redeemed raw, s')
