-- ===== src/Access/WsTickets/Sockets.antt =====
-- services/ws-ticket.service.ts: what a ticket is good for.
use nest_auth.Prelude.{
  ℕ, suc, ◌+◌, ◌*◌, ◌-◌, ◌/◌, ◌≤◌, ◌≡◌, refl, ◌∙◌, ap, sym, subst, Bool, true, false, Option, none,
  some, [], ◌∷◌, Text, codes, ◌++◌, ◌<◌, min, text_eq, text_eq_refl, ok, raise, ltb, arith,
  if◌then◌else◌, Bool-cases, inl, inr, token_invalid,
}
use nest_auth.Prelude.Action.{proceed, stop, through, reply_inv, or_throw_inv, pure_inv}
use nest_auth.Json.{Platform, obj}
use nest_auth.Keys.{Plane, dashboard, platform, token_epoch_key}
use nest_auth.AuthRedis.Counters.{get_user_token_epoch}
use nest_auth.AuthRedis.Tickets.{
  WsTicketSnapshot, snapshot_fields, snapshot_of, is_safe_integer, ticket_key, redeemed,
  mint_ws_ticket, redeem_ws_ticket,
}
use nest_auth.AuthRedis.Tickets.SingleUse.{
  snapshot_in-fields, get-redeem_ws_ticket, reply-redeem_ws_ticket,
}
use nest_auth.Users.{Account, Repositories}
use nest_auth.Access.{read_stamped_epoch, is_access_token_revoked}
use nest_auth.Access.Status.{StatusOptions, assert_not_blocked}
use nest_auth.Access.WsTickets.{
  DashboardJwtPayload, assert_second_factor, lifetime_for, snapshot_for, issue_ticket,
  is_revoked_snapshot, redeem_ticket, plane_of,
}

-- A lifetime ends a second before the token does.
lifetime_for_lem :
    (exp : Option ℕ) (now lifetime : ℕ)
    → lifetime_for exp now ≡ ok lifetime
    → (e : ℕ) × (n : ℕ) × (exp ≡ some e)
      × (lifetime ≡ suc n)
      × (lifetime ≤ 30)
      × (now + (lifetime + 1) * 1000 ≤ e * 1000)
unfolding lifetime_for
lifetime_for_lem none now lifetime h = cc
lifetime_for_lem (some e) now lifetime h =
    let rest = min 30 (e - (now + 999) / 1000 - 1) in
    elim (Bool-cases (ltb 0 rest)) [
      | inl some_left ↦
          let reply : ok rest ≡ ok lifetime = rw some_left at h in
          let same : lifetime ≡ rest = cc reply in
          let more : 0 < rest = ground (arith, some_left) in
          (
            e,
            lifetime - 1,
            refl,
            omega (arith, same, more),
            omega (arith, same),
            omega (arith, same, more),
          )
      | inr over ↦ let refused : raise token_invalid ≡ ok lifetime = rw over at h in cc
    ]

module _ (env : Platform) where
  open env use {redis, sha256, stringify, hmac, hmac_key}
  open redis use {Store, get}

  ticket-epoch :
      (ticket user_id : Text) (kind : Plane) (tenant_id : Option Text)
      → text_eq (ticket_key env ticket) (token_epoch_key hmac kind user_id hmac_key tenant_id)
        ≡ false
  unfolding token_epoch_key
  ticket-epoch ticket user_id dashboard tenant_id = refl
  ticket-epoch ticket user_id platform tenant_id = refl

  get-redeem_apart :
      (ticket j : Text) (s : Store)
      → text_eq (ticket_key env ticket) j ≡ false
      → get (redeem_ws_ticket env ticket s).1 j ≡ get s j
  get-redeem_apart ticket j s apart =
      get-redeem_ws_ticket env ticket s j ∙ ap (λ b. if b then none else get s j) apart

  -- The redemption of a ticket does not change whether a session is revoked.
  is_revoked-redeem :
      (v : WsTicketSnapshot) (ticket : Text) (s : Store)
      → is_revoked_snapshot env v (redeem_ws_ticket env ticket s).1 ≡ is_revoked_snapshot env v s
  unfolding is_access_token_revoked get_user_token_epoch
  is_revoked-redeem v ticket s =
      let epoch_key = token_epoch_key hmac (plane_of v.tenant_id) v.sub hmac_key v.tenant_id in
      rw
        (
          get-redeem_apart ticket (codes "rv:" ++ v.jti) s refl,
          get-redeem_apart ticket epoch_key s
              (ticket-epoch ticket v.sub (plane_of v.tenant_id) v.tenant_id),
        )
        refl

  found-standing :
      (ticket : Text) (v : WsTicketSnapshot) (s : Store)
      → get s (ticket_key env ticket) ≡ some (stringify (obj (snapshot_fields v)))
      → text_eq v.jti [] ≡ false
      → is_safe_integer v.epoch ≡ true
      → (redeem_ws_ticket env ticket s).0 ≡ some v
  found-standing ticket v s stands written safe =
      reply-redeem_ws_ticket env ticket s
      ∙ ap (redeemed env) stands
      ∙ ap snapshot_of (env.parse-stringify (obj (snapshot_fields v)))
      ∙ snapshot_in-fields v written safe

  -- A ticket that stands is redeemed for its snapshot, unless that session was revoked.
  redeem_ticket-standing :
      (c : ℕ) (t : Text) (v : WsTicketSnapshot) (s : Store)
      → get s (ticket_key env (c ∷ t)) ≡ some (stringify (obj (snapshot_fields v)))
      → text_eq v.jti [] ≡ false
      → is_safe_integer v.epoch ≡ true
      → redeem_ticket env (c ∷ t) s ≡ (
        (if is_revoked_snapshot env v s then raise token_invalid else ok v),
        (redeem_ws_ticket env (c ∷ t) s).1,
      )
  unfolding redeem_ticket
  redeem_ticket-standing c t v s stands written safe =
      let s' = (redeem_ws_ticket env (c ∷ t) s).1 in
      let found = found-standing (c ∷ t) v s stands written safe in
      let same = is_revoked-redeem v (c ∷ t) s in
      proceed _ (some v) s' (rw found refl) (
        proceed _ v s' refl (elim (Bool-cases (is_revoked_snapshot env v s)) [
          | inl revoked ↦
              proceed _ true s' (rw (same, revoked) refl)
                (rw revoked (stop _ token_invalid s' refl))
          | inr stays ↦
              proceed _ false s' (rw (same, stays) refl) (rw stays (proceed _ tt s' refl refl))
        ]))

  redeem_ticket-gone :
      (c : ℕ) (t : Text) (s : Store)
      → get s (ticket_key env (c ∷ t)) ≡ none
      → redeem_ticket env (c ∷ t) s ≡ (raise token_invalid, (redeem_ws_ticket env (c ∷ t) s).1)
  unfolding redeem_ticket
  redeem_ticket-gone c t s gone =
      let s' = (redeem_ws_ticket env (c ∷ t) s).1 in
      let found : (redeem_ws_ticket env (c ∷ t) s).0 ≡ none =
        reply-redeem_ws_ticket env (c ∷ t) s ∙ ap (redeemed env) gone in
      proceed _ none s' (rw found refl) (stop _ token_invalid s' refl)

  -- A ticket is redeemed once.
  redeem_ticket-once :
      (c : ℕ) (t : Text) (v : WsTicketSnapshot) (s : Store)
      → get s (ticket_key env (c ∷ t)) ≡ some (stringify (obj (snapshot_fields v)))
      → text_eq v.jti [] ≡ false
      → is_safe_integer v.epoch ≡ true
      → let first = redeem_ticket env (c ∷ t) s in
        (first.0 ≡ (if is_revoked_snapshot env v s then raise token_invalid else ok v))
        × ((redeem_ticket env (c ∷ t) first.1).0 ≡ raise token_invalid)
  redeem_ticket-once c t v s stands written safe =
      let k = ticket_key env (c ∷ t) in
      let run = redeem_ticket-standing c t v s stands written safe in
      let gone : get (redeem_ws_ticket env (c ∷ t) s).1 k ≡ none =
        get-redeem_ws_ticket env (c ∷ t) s k
        ∙ ap (λ b. if b then none else get s k) (text_eq_refl k) in
      (
        ap (λ p. p.0) run,
        subst (λ p. (redeem_ticket env (c ∷ t) p.1).0 ≡ raise token_invalid) (sym run)
            (ap (λ p. p.0) (redeem_ticket-gone c t (redeem_ws_ticket env (c ∷ t) s).1 gone)),
      )

  minted_lem :
      (ticket : Text) (v : WsTicketSnapshot) (n : ℕ) (s : Store)
      → let s' = mint_ws_ticket env ticket v (suc n) s in
        (get s' (ticket_key env ticket) ≡ some (stringify (obj (snapshot_fields v))))
        × (redis.ttl s' (ticket_key env ticket) ≡ some (suc n))
  unfolding mint_ws_ticket
  minted_lem ticket v n s =
      let k = ticket_key env ticket in
      let json = stringify (obj (snapshot_fields v)) in
      (
        redis.get-set s k json n k ∙ ap (λ b. if b then some json else get s k) (text_eq_refl k),
        redis.ttl-set s k json n k
            ∙ ap (λ b. if b then some (suc n) else redis.ttl s k) (text_eq_refl k),
      )

module _ (env : Platform) (status : StatusOptions) (repositories : Repositories) where
  open env use {redis}
  open redis use {Store, get, ttl}
  open repositories use {Users, find_user}

  -- Where a ticket is issued for a token whose id is not empty and whose epoch is a safe integer,
  -- the second factor of the token is cleared, the account is found and not blocked, and the
  -- ticket lives at most 30 seconds and ends a second before the token does; on every later store
  -- that still holds the ticket, redeem answers with the account as it was found and the token
  -- id, epoch and second factor of the token, unless the session of the token was revoked
  -- meanwhile, which is refused; and a second redemption is refused in any case.
  pub issue_ticket-redeems :
      (payload : DashboardJwtPayload) (u : Users) (before after : ℕ) (c : ℕ) (t : Text)
      (s s' later : Store) (ticket : Text) (lifetime : ℕ)
      → issue_ticket env status repositories payload u before after (c ∷ t) s
        ≡ (ok (ticket, lifetime), s')
      → text_eq payload.jti [] ≡ false
      → is_safe_integer (read_stamped_epoch payload.epoch) ≡ true
      → get later (ticket_key env ticket) ≡ get s' (ticket_key env ticket)
      → (account : Account) × (enabled : Bool) × (e : ℕ) × (assert_second_factor payload ≡ ok tt)
        × (find_user u payload.tenant_id payload.sub ≡ some account)
        × (assert_not_blocked status account.safe.status ≡ ok tt)
        × (payload.mfa_enabled ≡ some enabled)
        × (payload.exp ≡ some e)
        × (ttl s' (ticket_key env ticket) ≡ some lifetime)
        × (lifetime ≤ 30)
        × (after + (lifetime + 1) * 1000 ≤ e * 1000)
        × ((redeem_ticket env ticket later).0 ≡ (
            if is_revoked_snapshot env (snapshot_for account.safe payload enabled) later
            then raise token_invalid
            else ok (snapshot_for account.safe payload enabled)))
        × ((redeem_ticket env ticket (redeem_ticket env ticket later).1).0 ≡ raise token_invalid)
  unfolding issue_ticket
  issue_ticket-redeems payload u before after c t s s' later ticket lifetime h written safe stands =
      through h λ cleared s1 e1 h1. through h1 λ early s2 e2 h2. through h2 λ account s3 e3 h3.
        through h3 λ usable s4 e4 h4. through h4 λ enabled s5 e5 h5. through h5 λ life s6 e6 h6.
          through h6 λ minted s7 e7 h7.
            let i1 = reply_inv _ _ e1 in
            let i3 = or_throw_inv _ _ _ e3 in
            let i4 = reply_inv _ _ e4 in
            let i5 = or_throw_inv _ _ _ e5 in
            let i6 = reply_inv _ _ e6 in
            let i7 = reply_inv _ _ e7 in
            let last = pure_inv _ _ h7 in
            let named : ticket ≡ c ∷ t = ap (λ x. x.0) last.0 in
            let same : lifetime ≡ life = ap (λ x. x.1) last.0 in
            let (e, n, dated, lives, short, ends) = lifetime_for_lem payload.exp after life i6.0 in
            let v = snapshot_for account.safe payload enabled in
            let stored = minted_lem env (c ∷ t) v n s6 in
            let minted_here : s' ≡ mint_ws_ticket env (c ∷ t) v (suc n) s6 =
              last.1 ∙ i7.1 ∙ ap (λ l. mint_ws_ticket env (c ∷ t) v l s6) lives in
            let held : get later (ticket_key env (c ∷ t)) ≡ some _ =
              rw (named, minted_here) at stands ∙ stored.0 in
            let once = redeem_ticket-once env c t v later held written safe in
            (
              account,
              enabled,
              e,
              i1.0,
              i3.0,
              i4.0,
              i5.0,
              dated,
              rw (named, minted_here, same, lives) stored.1,
              rw same short,
              rw same ends,
              rw named once.0,
              rw named once.1,
            )
