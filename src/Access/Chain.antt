-- ===== src/Access/Chain.antt =====
-- The row of guards and the service accept the same tokens.
use nest_auth.Prelude.{
  ◌≡◌, ◌↔◌, refl, Bool, true, false, ◌&&◌, not, some, [], Text, codes, text_eq, if◌then◌else◌,
  Result, ok, raise, token_invalid, arith, Bool-cases, Option-cases, inl, inr,
}
use nest_auth.Json.{Json, Platform}
use nest_auth.Keys.{dashboard}
use nest_auth.Access.Status.{StatusOptions, assert_dashboard_account_usable}
use nest_auth.Access.{
  claim, or_empty, is_claim, has_mfa_shape, is_valid_jti, is_valid_subject, is_bound, resolved,
  VerifyAccessTokenOptions, Verification, verify_with_rotation, is_revoked, finish, check_dashboard,
  verify_access_token,
}
use nest_auth.Access.Guards.{
  mfa_required_guard, user_status_guard, admit, jwt_auth_guard, settled, guarded,
}

shape_iff :
    {S : Type 0} (h : Bool) (s : S) (q : Json) (last : Result Json × S)
    → ((if not h then (raise token_invalid, s) else last).0 ≡ ok q) ↔ ((h ≡ true) × (last.0 ≡ ok q))
shape_iff h s q last = ground arith

module _ (env : Platform) (v : Verification) (status : StatusOptions) where
  open env use {redis}
  open redis use {Store}

  -- All is asked, of a request whose tenant is known.
  abbrev pub in_full : Text → VerifyAccessTokenOptions
  in_full request_tenant = record {
    plane = dashboard;
    require_mfa = true;
    check_status = true;
    request = resolved request_tenant;
  }

  abbrev usable : Json → Store → Result (Unit {0}) × Store
  usable p s =
      assert_dashboard_account_usable env status (or_empty (claim (codes "sub") p))
        (or_empty (claim (codes "tenantId") p)) s

  settled_iff :
      (p q : Json) (x : Result (Unit {0}) × Store)
      → ((settled env (some p) x).0 ≡ ok (some q))
        ↔ ((has_mfa_shape p ≡ true) × ((finish env v status true p x).0 ≡ ok q))
  unfolding settled mfa_required_guard finish
  settled_iff p q (raise code, s) = ground arith
  settled_iff p q (ok done, s) = ground arith

  -- What the first guard makes of a payload, and what the service does then.
  data Admission (p : Json) (request_tenant : Text) (s : Store) : Type 0 where
    out :
        admit env v p request_tenant s ≡ raise token_invalid
        → (check_dashboard env v status p (in_full request_tenant) s).0 ≡ raise token_invalid
        → Admission p request_tenant s
    admitted :
        admit env v p request_tenant s ≡ ok (some p)
        → check_dashboard env v status p (in_full request_tenant) s ≡ (
            if not (has_mfa_shape p)
            then (raise token_invalid, s)
            else finish env v status true p (usable p s))
        → Admission p request_tenant s

  Admission-cases : (p : Json) (request_tenant : Text) (s : Store) → Admission p request_tenant s
  unfolding admit check_dashboard
  Admission-cases p request_tenant s =
      elim (Bool-cases (
        is_valid_jti (claim (codes "jti") p)
        && (is_valid_subject (claim (codes "sub") p)
            && (is_valid_subject (claim (codes "tenantId") p)
                && is_claim (codes "type") (codes "dashboard") p)))) [
                  | inr malformed ↦
                      out (rw (admit, malformed) refl) (rw (check_dashboard, malformed) refl)
                  | inl formed ↦ elim (Bool-cases (is_revoked env p dashboard s)) [
                    | inl revoked ↦
                        out (rw (admit, formed, revoked) refl)
                          (rw (check_dashboard, formed, revoked) refl)
                    | inr standing ↦
                        elim (Bool-cases (
                          is_bound v.tenant_binding_enforced (or_empty (claim (codes "tenantId") p))
                            (resolved request_tenant))) [
                              | inr foreign ↦
                                  out (rw (admit, formed, standing, foreign) refl)
                                    (rw (check_dashboard, formed, standing, foreign) refl)
                              | inl bound ↦
                                  admitted (rw (admit, formed, standing, bound) refl)
                                    (rw (check_dashboard, formed, standing, bound) refl)
                            ]
                  ]
                ]

  -- For a token that is not empty and a request whose tenant is known, JwtAuthGuard,
  -- UserStatusGuard and MfaRequiredGuard in a row leave a payload as the user of the request
  -- exactly where verifyAccessToken answers with this payload when all of its checks are asked
  -- for.
  pub guarded_iff :
      (token request_tenant : Text) (payload : Json) (s : Store)
      → text_eq token [] ≡ false
      → ((guarded env v status (some token) request_tenant s).0 ≡ ok (some payload))
        ↔ ((verify_access_token env v status token (in_full request_tenant) s).0 ≡ ok payload)
  unfolding guarded jwt_auth_guard verify_access_token user_status_guard
  guarded_iff token request_tenant payload s given =
      elim (Option-cases (verify_with_rotation v token)) [
        | inl refused ↦
            rw (guarded, jwt_auth_guard, verify_access_token, given, refused)
              ((λ h. absurd (ground (arith, h))), (λ h. absurd (ground (arith, h))))
        | inr (p, verified) ↦ elim (Admission-cases p request_tenant s) [
          | out a c ↦
              rw (guarded, jwt_auth_guard, verify_access_token, given, verified, a, c)
                ((λ h. absurd (ground (arith, h))), (λ h. absurd (ground (arith, h))))
          | admitted a c ↦
              rw (guarded, jwt_auth_guard, verify_access_token, given, verified, a, c)
                (let i = settled_iff p payload (usable p s) in
                  let j =
                    shape_iff (has_mfa_shape p) s payload
                      (finish env v status true p (usable p s)) in
                  ((λ h. j.1 (i.0 h)), (λ h. i.1 (j.0 h))))
        ]
      ]
