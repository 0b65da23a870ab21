-- ===== src/Mfa/Challenge/Recovery.antt =====
-- services/mfa.service.ts: a recovery code is gone once it has passed a challenge.
use nest_auth.Prelude.{
  ℕ, zero, suc, ◌<◌, ◌≡◌, refl, ◌∙◌, ap, sym, subst, Bool, true, false, not, Option, none, some,
  List, [], ◌∷◌, Text, text_eq, text_eq_refl, length, is_some, Result, ok, raise, arith, Bool-cases,
  Option-cases, inl, inr,
}
use nest_auth.Prelude.Action.{through, reply_inv, pure_inv}
use nest_auth.Keys.{Plane, dashboard, platform}
use nest_auth.AuthRedis.Claims.{setnx, setnx-reply}
use nest_auth.Totp.{is_code}
use nest_auth.TokenManager.MfaTemp.{MfaTempToken, verify_mfa_temp_token}
use nest_auth.TokenManager.Refresh.{Claims}
use nest_auth.Users.{Account, MfaWrite, with_mfa}
use nest_auth.Mfa.{
  Server, State, challenge, Decrypted, fetch_user_for_context, decrypt_with_rotation, stored_secret,
  holds_secret, same_secret,
}
use nest_auth.Mfa.Codes.{
  first_match, recovery_candidates, verify_recovery_code, recovery_claim_key, claim_recovery_code,
}
use nest_auth.Mfa.Rewritten.{transition_mfa_record-writes, transition_mfa_record-ok}
use nest_auth.Mfa.Gated.{users-reset_mfa_flow_failures}
use nest_auth.Mfa.Challenge.{
  Attempt, codes_of, digest_at, remove_first, enabled_secret, used_recovery_index, check_code,
  kept_secret, with_codes, spend_code, spend, track_session, issue_for, challenge_mfa,
}
use nest_auth.Mfa.Challenge.Passes.{pass_challenge-Passes}

first_match-lt :
    (candidates digests : List Text) (index : ℕ)
    → first_match candidates digests ≡ some index
    → index < length digests
unfolding first_match
first_match-lt candidates [] index h = cc
first_match-lt candidates (d ∷ l) index h = elim (Option-cases (first_match candidates l)) [
  | inl absent ↦ ground arith
  | inr (i, e) ↦ ground (arith, first_match-lt candidates l i e)
]

-- The digest at an index of the list goes, and one element with it.
remove_first-digest_at :
    (digests : List Text) (index : ℕ)
    → index < length digests
    → (rest : List Text) × (remove_first (digest_at index digests) digests ≡ some rest)
      × (length digests ≡ suc (length rest))
unfolding digest_at remove_first
remove_first-digest_at [] index h = absurd (omega arith)
remove_first-digest_at (d ∷ l) zero h = (l, rw (text_eq_refl d) refl, refl)
remove_first-digest_at (d ∷ l) (suc index) h = elim (Bool-cases (text_eq d (digest_at index l))) [
  | inl same ↦ (l, rw same refl, refl)
  | inr other ↦
      let (rest, removed, shorter) = remove_first-digest_at l index (omega arith) in
      (d ∷ rest, rw (other, removed) refl, ap suc shorter)
]

was_new : (b : Bool) → ◌≡◌ {A = Result Bool} (ok b) (ok true) → b ≡ true
was_new b h = cc

claim_free : (o : Option Text) → not (is_some o) ≡ true → o ≡ none
claim_free none h = refl
claim_free (some v) h = cc

module _ (server : Server) where
  open server use {env, verification}
  open server.env use {redis}
  open server.env.redis use {Store, get}

  users-track_session :
      (a : Attempt) (user : Account) (w w' : State server)
      → track_session server a user w ≡ (ok tt, w')
      → w'.users ≡ w.users
  unfolding track_session
  users-track_session a user w w' h = elim (Bool-cases server.sessions_enabled) [
    | inl kept ↦
        through (rw kept at h)
          λ session v e k. ap (λ x. x.users) ((pure_inv _ _ k).1 ∙ (reply_inv _ _ e).1)
    | inr untracked ↦
        let same : ◌≡◌ {A = Result (Unit {0}) × State server} (ok tt, w) (ok tt, w') =
          rw untracked at h in
        sym (ap (λ r. r.1.users) same)
  ]

  users-issue_for :
      (plane : Plane) (a : Attempt) (user : Account) (w w' : State server) (c : Claims)
      → issue_for server plane a user w ≡ (ok c, w')
      → w'.users ≡ w.users
  unfolding issue_for
  users-issue_for dashboard a user w w' c h = through h λ claims v e k. through k λ done v' e' k'.
      ap (λ x. x.users) (pure_inv _ _ k').1
      ∙ users-track_session a user v v' e'
      ∙ ap (λ x. x.users) (reply_inv (ok _) _ e).1
  users-issue_for platform a user w w' c h = ap (λ x. x.users) (reply_inv (ok _) _ h).1

  -- The claim of a code that passes was not there before, and no account is touched by it.
  claim_of :
      (t : MfaTempToken) (secret code : Text) (used : Option ℕ) (w w' : State server)
      → is_code code ≡ false
      → check_code server t secret code used w ≡ (ok true, w')
      → (index : ℕ) × (used ≡ some index)
        × (get w.store (recovery_claim_key server t.context t.user_id t.tenant_id code) ≡ none)
        × (w'.users ≡ w.users)
  unfolding check_code claim_recovery_code
  claim_of t secret code none w w' other h =
      let refused : ◌≡◌ {A = Result Bool × State server} (ok false, w) (ok true, w') =
        rw other at h in
      cc
  claim_of t secret code (some index) w w' other h =
      let key_ = recovery_claim_key server t.context t.user_id t.tenant_id code in
      let claim = setnx redis key_ 300 w.store in
      let run : ◌≡◌ {A = Result Bool × State server} (ok claim.0, record w { store = claim.1 })
          (ok true, w') =
        rw other at h in
      let i = reply_inv (ok _) _ run in
      (
        index,
        refl,
        claim_free _ (sym (setnx-reply redis key_ 300 w.store) ∙ was_new _ i.0),
        ap (λ x. x.users) i.1,
      )

  holds_of :
      (user : Account) (encrypted : Text) (d : Decrypted)
      → enabled_secret server user ≡ some encrypted
      → decrypt_with_rotation server encrypted ≡ some d
      → (user.safe.mfa_enabled ≡ true) × (holds_secret server user.mfa_secret d.secret ≡ true)
  unfolding holds_secret
  holds_of user encrypted d h k = elim (Bool-cases user.safe.mfa_enabled) [
    | inl on ↦
        let stored : stored_secret user.mfa_secret ≡ some encrypted = rw on at h in
        (on, rw (holds_secret, stored, k, same_secret) (text_eq_refl d.secret))
    | inr off ↦ let missing : none ≡ some encrypted = rw off at h in cc
  ]

  written_of :
      (rest : List Text) (secret : Result (Option Text)) (o : Option MfaWrite)
      → with_codes server rest secret ≡ ok o
      → (write : MfaWrite) × (with_codes server rest secret ≡ ok (some write))
        × (write.mfa_recovery_codes ≡ some rest)
        × (write.mfa_enabled ≡ true)
  written_of rest (raise code) o h = cc
  written_of rest (ok secret) o h = (_, refl, refl, refl)

  -- What a passed code writes, where nothing throws.
  write_of :
      (iv : List ℕ) (d : Decrypted) (spent : Text) (user : Account) (rest : List Text)
      (o : Option MfaWrite)
      → user.safe.mfa_enabled ≡ true
      → holds_secret server user.mfa_secret d.secret ≡ true
      → remove_first spent (codes_of user.mfa_recovery_codes) ≡ some rest
      → spend_code server iv d spent user ≡ ok o
      → (write : MfaWrite) × (spend_code server iv d spent user ≡ ok (some write))
        × (write.mfa_recovery_codes ≡ some rest)
        × (write.mfa_enabled ≡ true)
  unfolding spend_code
  write_of iv d spent user rest o on holds removed h =
      let chosen : with_codes server rest (kept_secret server iv d user.mfa_secret) ≡ ok o =
        rw (on, holds, removed) at h in
      let (write, e, left, enabled) =
        written_of rest (kept_secret server iv d user.mfa_secret) o chosen in
      (write, rw (on, holds, removed) e, left, enabled)

  spend-removes :
      (a : Attempt) (t : MfaTempToken) (user : Account) (d : Decrypted) (index : ℕ)
      (rest : List Text) (w w' : State server)
      → fetch_user_for_context server t.context t.user_id t.tenant_id w.users ≡ ok user
      → user.safe.mfa_enabled ≡ true
      → holds_secret server user.mfa_secret d.secret ≡ true
      → remove_first
          (digest_at index (codes_of user.mfa_recovery_codes))
          (codes_of user.mfa_recovery_codes)
        ≡ some rest
      → spend server a t user d (some index) w ≡ (ok tt, w')
      → (user' : Account) × (fetch_user_for_context server t.context t.user_id t.tenant_id w'.users
          ≡ ok user')
        × (user'.mfa_recovery_codes ≡ some rest)
        × (user'.safe.mfa_enabled ≡ true)
  spend-removes a t user d index rest w w' fetched on holds removed h = through h λ b v e k.
      let chosen =
        transition_mfa_record-ok server t.context t.user_id t.tenant_id _ a.lock_token w user
          fetched b v e in
      let (write, choice, left, enabled) =
        write_of a.iv d (digest_at index (codes_of user.mfa_recovery_codes)) user rest chosen.1 on
          holds removed chosen.2 in
      let done =
        transition_mfa_record-writes server t.context t.user_id t.tenant_id _ a.lock_token w user
          fetched write chosen.0 choice in
      (
        with_mfa write user,
        rw (pure_inv _ _ k).1 (
            subst
              (λ r.
                fetch_user_for_context server t.context t.user_id t.tenant_id r.1.users
                ≡ ok (with_mfa write user))
              e done.1),
        left,
        enabled,
      )

  -- A challenge that has given tokens for a code which is not of six digits has found the digest
  -- of the code among the recovery codes of the account that its temporary token names, the code
  -- was not claimed before, and afterwards the account is stored with that digest taken out, one
  -- recovery code fewer.
  pub challenge_mfa-spends_code :
      (a : Attempt) (w w' : State server) (c : Claims)
      → challenge_mfa server a w ≡ (ok c, w')
      → is_code a.code ≡ false
      → (t : MfaTempToken) × (user : Account) × (index : ℕ) × (rest : List Text) × (user' : Account)
        × (verify_mfa_temp_token env verification a.mfa_temp_token w.store ≡ ok t)
        × (fetch_user_for_context server t.context t.user_id t.tenant_id w.users ≡ ok user)
        × (verify_recovery_code server a.code (codes_of user.mfa_recovery_codes) ≡ some index)
        × (get w.store (recovery_claim_key server t.context t.user_id t.tenant_id a.code) ≡ none)
        × (remove_first
              (digest_at index (codes_of user.mfa_recovery_codes))
              (codes_of user.mfa_recovery_codes)
            ≡ some rest)
        × (length (codes_of user.mfa_recovery_codes) ≡ suc (length rest))
        × (fetch_user_for_context server t.context t.user_id t.tenant_id w'.users ≡ ok user')
        × (user'.mfa_recovery_codes ≡ some rest)
  unfolding challenge_mfa verify_recovery_code
  challenge_mfa-spends_code a w w' c h other = through h λ p v e k.
      let steps = pass_challenge-Passes server a w e in
      let t = p.token in
      let user = p.user in
      let codes = codes_of user.mfa_recovery_codes in
      let (index, used, free, untouched) =
        claim_of t steps.d.secret a.code (used_recovery_index server user a.code) w steps.checked
          other steps.valid in
      let found : first_match (recovery_candidates server a.code) codes ≡ some index =
        rw other at used in
      let (rest, removed, shorter) =
        remove_first-digest_at codes index
          (first_match-lt (recovery_candidates server a.code) codes index found) in
      let (on, holds) = holds_of user steps.encrypted steps.d steps.enabled steps.opened in
      let users : steps.cleared.users ≡ w.users =
        sym (ap (λ r. r.1.users) steps.reset)
        ∙ users-reset_mfa_flow_failures server challenge t.context t.user_id t.tenant_id
            steps.checked
        ∙ untouched in
      let (user', fetched', left, enabled) =
        spend-removes a t user steps.d index rest _ v (rw users steps.fetched) on holds removed
          (rw used at steps.spent) in
      (
        t,
        user,
        index,
        rest,
        user',
        steps.verified,
        steps.fetched,
        found,
        free,
        removed,
        shorter,
        rw (users-issue_for t.context a user v w' c k) fetched',
        left,
      )
