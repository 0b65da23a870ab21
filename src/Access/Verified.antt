-- ===== src/Access/Verified.antt =====
-- Which access tokens are accepted on the dashboard plane.
use nest_auth.Prelude.{
  ◌≡◌, ◌≤◌, ◌↔◌, refl, sym, ap, ◌∙◌, subst, Bool, true, false, ◌&&◌, ◌||◌, not, none, some, ◌++◌,
  Text, codes, if◌then◌else◌, Result, ok, raise, token_invalid, arith, Option-cases, inl, inr,
}
use nest_auth.Json.{Json, member, Platform}
use nest_auth.Keys.{dashboard}
use nest_auth.AuthRedis.Counters.{get_user_token_epoch}
use nest_auth.Access.Status.{StatusOptions, assert_dashboard_account_usable}
use nest_auth.Access.{
  claim, or_empty, is_claim, has_mfa_shape, lacks_mfa, read_stamped_epoch, is_valid_jti,
  is_valid_subject, is_bound, VerifyAccessTokenOptions, Verification, verify_with_rotation,
  is_access_token_revoked, is_revoked, finish, check_dashboard, verify_access_token,
}

-- The early returns, as one condition.
pub gates_iff :
    {S : Type 0} (j u t d r b m h : Bool) (s : S) (payload : Json) (last : Result Json × S)
    → ((if not (j && (u && (t && d)))
          then (raise token_invalid, s)
          else if r
          then (raise token_invalid, s)
          else if not b
          then (raise token_invalid, s)
          else if m && not h
          then (raise token_invalid, s)
          else last).0
        ≡ ok payload)
      ↔ ((j ≡ true)
          × (u ≡ true)
          × (t ≡ true)
          × (d ≡ true)
          × (r ≡ false)
          × (b ≡ true)
          × (m && not h ≡ false)
          × (last.0 ≡ ok payload))
gates_iff false u t d r b m h s payload last = ground arith
gates_iff true false t d r b m h s payload last = ground arith
gates_iff true true false d r b m h s payload last = ground arith
gates_iff true true true false r b m h s payload last = ground arith
gates_iff true true true true true b m h s payload last = ground arith
gates_iff true true true true false false m h s payload last = ground arith
gates_iff true true true true false true m h s payload last = ground arith

both_false : (m h l : Bool) → m && not h ≡ false → m && l ≡ false → m && (not h || l) ≡ false
both_false m h l a b = ground arith

left_false : (m h l : Bool) → m && (not h || l) ≡ false → m && not h ≡ false
left_false m h l a = ground arith

right_false : (m h l : Bool) → m && (not h || l) ≡ false → m && l ≡ false
right_false m h l a = ground arith

fst_if :
    {S : Type 0} (c : Bool) (x : Result (Unit {0}) × S) (s : S)
    → (if c then x else (ok tt, s)).0 ≡ (if c then x.0 else ok tt)
fst_if true x s = refl
fst_if false x s = refl

module _ (env : Platform) (v : Verification) (status : StatusOptions) where
  open env use {redis}
  open redis use {Store, get}

  -- The claims that are read.
  abbrev pub sub_of : Json → Text
  sub_of payload = or_empty (claim (codes "sub") payload)

  abbrev pub tenant_of : Json → Text
  tenant_of payload = or_empty (claim (codes "tenantId") payload)

  abbrev pub jti_of : Json → Text
  jti_of payload = or_empty (claim (codes "jti") payload)

  -- What an accepted payload fulfils.
  abbrev pub IsAccepted : Json → VerifyAccessTokenOptions → Store → Type 0
  IsAccepted payload options s =
      (is_valid_jti (claim (codes "jti") payload) ≡ true)
      × (is_valid_subject (claim (codes "sub") payload) ≡ true)
      × (is_valid_subject (claim (codes "tenantId") payload) ≡ true)
      × (is_claim (codes "type") (codes "dashboard") payload ≡ true)
      × (get s (codes "rv:" ++ jti_of payload) ≡ none)
      × (get_user_token_epoch env (sub_of payload) (claim (codes "tenantId") payload) dashboard s
          ≤ read_stamped_epoch (member (codes "epoch") payload))
      × (is_bound v.tenant_binding_enforced (tenant_of payload) options.request ≡ true)
      × (options.require_mfa && (not (has_mfa_shape payload) || lacks_mfa payload) ≡ false)
      × ((if options.check_status
            then (assert_dashboard_account_usable env status (sub_of payload) (tenant_of payload)
                s).0
            else ok tt)
          ≡ ok tt)

  not_revoked_iff :
      (payload : Json) (s : Store)
      → is_valid_subject (claim (codes "tenantId") payload) ≡ true
      → (is_revoked env payload dashboard s ≡ false) ↔ (
          (get s (codes "rv:" ++ jti_of payload) ≡ none)
          × (get_user_token_epoch env
                (sub_of payload)
                (claim (codes "tenantId") payload)
                dashboard
                s
              ≤ read_stamped_epoch (member (codes "epoch") payload)))
  unfolding is_access_token_revoked is_valid_subject
  not_revoked_iff payload s named = ground arith

  finish_iff :
      (require_mfa : Bool) (payload : Json) (x : Result (Unit {0}) × Store)
      → ((finish env v status require_mfa payload x).0 ≡ ok payload)
        ↔ ((x.0 ≡ ok tt) × (require_mfa && lacks_mfa payload ≡ false))
  unfolding finish
  finish_iff require_mfa payload (raise code, s) = ground arith
  finish_iff require_mfa payload (ok done, s) = ground arith

  finish-returns :
      (require_mfa : Bool) (payload q : Json) (x : Result (Unit {0}) × Store)
      → (finish env v status require_mfa payload x).0 ≡ ok q
      → payload ≡ q
  unfolding finish
  finish-returns require_mfa payload q (raise code, s) h = absurd (ground (arith, h))
  finish-returns require_mfa payload q (ok done, s) h = ground (arith, h)

  check_dashboard-returns :
      (payload q : Json) (options : VerifyAccessTokenOptions) (s : Store)
      → (check_dashboard env v status payload options s).0 ≡ ok q
      → payload ≡ q
  unfolding check_dashboard
  check_dashboard-returns payload q options s h =
      let checked =
        if options.check_status
        then assert_dashboard_account_usable env status (sub_of payload) (tenant_of payload) s
        else (ok tt, s) in
      let last = finish env v status options.require_mfa payload checked in
      finish-returns options.require_mfa payload q checked
        ((gates_iff (is_valid_jti (claim (codes "jti") payload))
            (is_valid_subject (claim (codes "sub") payload))
            (is_valid_subject (claim (codes "tenantId") payload))
            (is_claim (codes "type") (codes "dashboard") payload)
            (is_revoked env payload dashboard s)
            (is_bound v.tenant_binding_enforced (tenant_of payload) options.request)
            options.require_mfa (has_mfa_shape payload) s q last).0
          h).7

  check_dashboard_iff :
      (payload : Json) (options : VerifyAccessTokenOptions) (s : Store)
      → ((check_dashboard env v status payload options s).0 ≡ ok payload)
        ↔ IsAccepted payload options s
  unfolding check_dashboard finish
  check_dashboard_iff payload options s =
      let checked =
        if options.check_status
        then assert_dashboard_account_usable env status (sub_of payload) (tenant_of payload) s
        else (ok tt, s) in
      let last = finish env v status options.require_mfa payload checked in
      let gates =
        gates_iff (is_valid_jti (claim (codes "jti") payload))
          (is_valid_subject (claim (codes "sub") payload))
          (is_valid_subject (claim (codes "tenantId") payload))
          (is_claim (codes "type") (codes "dashboard") payload) (is_revoked env payload dashboard s)
          (is_bound v.tenant_binding_enforced (tenant_of payload) options.request)
          options.require_mfa (has_mfa_shape payload) s payload last in
      let ends = finish_iff options.require_mfa payload checked in
      (
        (λ h.
            let g = gates.0 h in
            let clear = (not_revoked_iff payload s g.2).0 g.4 in
            let e = ends.0 g.7 in
            (
              g.0,
              g.1,
              g.2,
              g.3,
              clear.0,
              clear.1,
              g.5,
              both_false options.require_mfa (has_mfa_shape payload) (lacks_mfa payload) g.6 e.1,
              sym (fst_if options.check_status _ s) ∙ e.0,
            )),
        (λ a. gates.1 (
          a.0,
          a.1,
          a.2,
          a.3,
          (not_revoked_iff payload s a.2).1 (a.4, a.5),
          a.6,
          left_false options.require_mfa (has_mfa_shape payload) (lacks_mfa payload) a.7,
          ends.1 (
            fst_if options.check_status _ s ∙ a.8,
            right_false options.require_mfa (has_mfa_shape payload) (lacks_mfa payload) a.7,
          ),
        )),
      )

  -- On the dashboard plane verifyAccessToken answers with a payload exactly where the token
  -- verifies under the present secret or else under one of the previous ones with this payload,
  -- the id, subject, tenant and type of it are as they should be, it is not blacklisted, its
  -- epoch is not below that of the user, the tenant binding holds, no second factor is missing
  -- where one is demanded, and the account is usable where that is to be checked.
  pub verify_access_token_iff :
      (token : Text) (options : VerifyAccessTokenOptions) (s : Store) (payload : Json)
      → options.plane ≡ dashboard
      → ((verify_access_token env v status token options s).0 ≡ ok payload)
        ↔ ((verify_with_rotation v token ≡ some payload) × IsAccepted payload options s)
  unfolding verify_access_token
  verify_access_token_iff token options s payload plane =
      elim (Option-cases (verify_with_rotation v token)) [
        | inl refused ↦ (
          (λ h. absurd (ground (arith, rw (verify_access_token, refused) at h))),
          (λ a. absurd (ground (arith, refused, a.0))),
        )
        | inr (p, verified) ↦ (
          (λ h.
              let checked : (check_dashboard env v status p options s).0 ≡ ok payload =
                rw (verify_access_token, verified, plane) at h in
              let same = check_dashboard-returns p payload options s checked in
              (
                verified ∙ ap some same,
                (check_dashboard_iff payload options s).0 (
                    subst (λ q. (check_dashboard env v status q options s).0 ≡ ok payload) same
                      checked),
              )),
          (λ a.
              rw (verify_access_token, a.0, plane) ((check_dashboard_iff payload options s).1 a.1)),
        )
      ]
