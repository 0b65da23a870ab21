-- ===== src/AuthRedis/Tickets/SingleUse.antt =====
-- redis/auth-redis.service.ts: a ticket is redeemed once, for what it was minted for.
use nest_auth.Prelude.{
  ℕ, suc, ◌≡◌, refl, ◌∙◌, ap, Bool, true, false, Option, none, some, [], Text, text_eq,
  text_eq_refl, if◌then◌else◌, inl, inr, Option-cases, sym, arith, text_eq_iff,
}
use nest_auth.Json.{Platform, obj, find}
use nest_auth.AuthRedis.Tickets.{
  WsTicketSnapshot, snapshot_fields, snapshot_in, snapshot_of, is_safe_integer, getdel, ticket_key,
  mint_ws_ticket, redeemed, redeem_ws_ticket,
}

snapshot_in-tenant :
    (tenant : Option Text) (sub role status jti : Text) (mfa_enabled mfa_verified : Bool)
    (epoch : ℕ)
    → let v : WsTicketSnapshot = record {
      sub = sub;
      tenant_id = tenant;
      role = role;
      status = status;
      mfa_enabled = mfa_enabled;
      mfa_verified = mfa_verified;
      jti = jti;
      epoch = epoch;
    } in
      text_eq jti [] ≡ false
      → is_safe_integer epoch ≡ true
      → snapshot_in (snapshot_fields v) ≡ some v
unfolding snapshot_in find
snapshot_in-tenant none sub role status jti a b epoch written safe = rw (written, safe) refl
snapshot_in-tenant (some t) sub role status jti a b epoch written safe = rw (written, safe) refl

pub snapshot_in-fields :
    (v : WsTicketSnapshot)
    → text_eq v.jti [] ≡ false
    → is_safe_integer v.epoch ≡ true
    → snapshot_in (snapshot_fields v) ≡ some v
snapshot_in-fields v =
    snapshot_in-tenant v.tenant_id v.sub v.role v.status v.jti v.mfa_enabled v.mfa_verified v.epoch

if_true {ℓ} : {A : Type ℓ} {b : Bool} (x y : A) → b ≡ true → (if b then x else y) ≡ x
if_true x y h = ap (λ b. if b then x else y) h

if_false {ℓ} : {A : Type ℓ} {b : Bool} (x y : A) → b ≡ false → (if b then x else y) ≡ y
if_false x y h = ap (λ b. if b then x else y) h

module _ (env : Platform) where
  open env use {redis, sha256, parse}
  open env.redis use {Store, get, del}

  pub get-redeem_ws_ticket :
      (ticket : Text) (s : Store) (j : Text)
      → get (redeem_ws_ticket env ticket s).1 j
        ≡ (if text_eq (ticket_key env ticket) j then none else get s j)
  unfolding redeem_ws_ticket getdel
  get-redeem_ws_ticket ticket s j = elim (Option-cases (get s (ticket_key env ticket))) [
    | inl absent ↦
        rw (absent, redeem_ws_ticket) (ground (arith, text_eq_iff (ticket_key env ticket) j))
    | inr (raw, present) ↦
        rw (present, redeem_ws_ticket) (redis.get-del s (ticket_key env ticket) j)
  ]

  pub reply-redeem_ws_ticket :
      (ticket : Text) (s : Store)
      → (redeem_ws_ticket env ticket s).0 ≡ redeemed env (get s (ticket_key env ticket))
  unfolding redeem_ws_ticket getdel
  reply-redeem_ws_ticket ticket s = refl

  pub get-mint_ws_ticket :
      (ticket : Text) (v : WsTicketSnapshot) (t : ℕ) (s : Store) (j : Text)
      → get (mint_ws_ticket env ticket v (suc t) s) j ≡ (
          if text_eq (ticket_key env ticket) j
          then some (env.stringify (obj (snapshot_fields v)))
          else get s j)
  unfolding mint_ws_ticket
  get-mint_ws_ticket ticket v t s j = redis.get-set s (ticket_key env ticket) _ t j

  -- A ticket that is minted for a snapshot with a token id and a safe epoch is redeemed for this
  -- snapshot, and a second time for none; a ticket of another digest is redeemed for what it was
  -- redeemed for before.
  pub redeem_ws_ticket-once :
      (ticket other : Text) (v : WsTicketSnapshot) (t : ℕ) (s : Store)
      → text_eq v.jti [] ≡ false
      → is_safe_integer v.epoch ≡ true
      → text_eq (sha256 ticket) (sha256 other) ≡ false
      → let first = redeem_ws_ticket env ticket (mint_ws_ticket env ticket v (suc t) s) in
        (first.0 ≡ some v)
        × ((redeem_ws_ticket env ticket first.1).0 ≡ none)
        × ((redeem_ws_ticket env other first.1).0 ≡ (redeem_ws_ticket env other s).0)
  redeem_ws_ticket-once ticket other v t s written safe apart =
      let minted = mint_ws_ticket env ticket v (suc t) s in
      let k = ticket_key env ticket in
      (
        reply-redeem_ws_ticket ticket minted
            ∙ ap (redeemed env) (get-mint_ws_ticket ticket v t s k ∙ if_true _ _ (text_eq_refl k))
            ∙ ap snapshot_of (env.parse-stringify (obj (snapshot_fields v)))
            ∙ snapshot_in-fields v written safe,
        reply-redeem_ws_ticket ticket (redeem_ws_ticket env ticket minted).1
            ∙ ap (redeemed env)
                (get-redeem_ws_ticket ticket minted k ∙ if_true _ _ (text_eq_refl k)),
        reply-redeem_ws_ticket other (redeem_ws_ticket env ticket minted).1
            ∙ ap (redeemed env) (
                get-redeem_ws_ticket ticket minted (ticket_key env other)
                ∙ if_false _ _ apart
                ∙ get-mint_ws_ticket ticket v t s (ticket_key env other)
                ∙ if_false _ _ apart)
            ∙ sym (reply-redeem_ws_ticket other s),
      )
