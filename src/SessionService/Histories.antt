-- ===== src/SessionService/Histories.antt =====
-- services/session.service.ts: the revocations and the session limit as histories of single steps.
use nest_auth.Prelude.{
  ℕ, codes, leb, length, ◌≡◌, ◌∙◌, refl, true, false, ◌||◌, not, List, [], ◌∷◌, Text, text_eq,
  text_eq_refl, All, All-contains, keep, some, contains-keep, none, arith, Bool-cases, inl, inr,
  Result, Bool, if◌then◌else◌, ok, raise, session_not_found,
}
use nest_auth.Json.{Platform}
use nest_auth.Keys.{
  dashboard, live, grace, index, detail, Slot, key, session_index_key, token_epoch_key,
}
use nest_auth.AuthRedis.Counters.{
  bump_user_token_epoch, get-bump_user_token_epoch, mem-bump_user_token_epoch,
}
use nest_auth.AuthRedis.Sessions.Coverage.{swept_slot}
use nest_auth.AuthRedis.Sessions.Steps.{
  Reach, next, session_revoked, deleted, unlisted, elsewhere, pointers_pruned,
}
use nest_auth.AuthRedis.Sweeps.{prune_expired_grace_members}
use nest_auth.AuthRedis.Sweeps.Members.{key_of_lead}
use nest_auth.SessionService.{
  is_session, is_pointer, hash_of, revoke_session, revoke_others, revoke_all_except,
  revoke_all_except_current, resolve_live_member, index_key, enforce_session_limit, to_evict, evict,
  drop_pointers,
}
use nest_auth.SessionService.Records.{is_valid_session_hash}
use nest_auth.SessionService.Choice.{is_session-key, contains-chosen}

module _ (env : Platform) (own : Text → Text) where
  open env use {redis}
  open env.redis use {Store, get, smembers, del, srem}

  deleted_key : (s : Store) (j : Text) → get (del s j) j ≡ none
  deleted_key s j = redis.get-del s j j ∙ rw (text_eq_refl j) refl

  -- Eviction: each session is deleted, taken out of the index, and loses its detail record.
  pub evict-Reach :
      {s0 : Store} (set_key : Text) (l : List Text) (s : Store)
      → All (λ m. is_session m ≡ true) l
      → Reach env dashboard own s0 s
      → Reach env dashboard own s0 (evict env set_key l s)
  unfolding evict key
  evict-Reach set_key [] s sessions past = past
  evict-Reach set_key (m ∷ l) s sessions past =
      let h = hash_of m in
      let s1 = del s (key dashboard live h) in
      let gone : get s1 m ≡ none =
        rw (is_session-key m sessions.0) (deleted_key s (key dashboard live h)) in
      evict-Reach set_key l (del (srem s1 set_key m) (key dashboard detail h)) sessions.1 (
        next (next (next past (deleted live h refl)) (unlisted set_key m gone))
          (deleted detail h refl))

  -- The pointers that `revokeAllExceptCurrent` drops.
  pub drop_pointers-Reach :
      {s0 : Store} (set_key : Text) (l : List Text) (s : Store)
      → All (λ m. is_pointer m ≡ true) l
      → Reach env dashboard own s0 s
      → Reach env dashboard own s0 (drop_pointers env set_key l s)
  unfolding drop_pointers
  drop_pointers-Reach set_key [] s pointers past = past
  drop_pointers-Reach set_key (m ∷ l) s pointers past =
      let e : m ≡ key dashboard grace (hash_of m) = key_of_lead dashboard grace m pointers.0 in
      drop_pointers-Reach set_key l (srem (del s m) set_key m) pointers.1 (
        next (next past (rw e (deleted grace (hash_of m) refl)))
          (unlisted set_key m (deleted_key s m)))

  Reach-if :
      {s0 : Store} (b : Bool) (p q : Result (Unit {0}) × Store)
      → Reach env dashboard own s0 p.1
      → Reach env dashboard own s0 q.1
      → Reach env dashboard own s0 (if b then p else q).1
  Reach-if true p q one other = one
  Reach-if false p q one other = other

  -- `revokeSession` is its script, unless it refuses.
  pub revoke_session-Reach :
      {s0 : Store} (user_id tenant_id h : Text) (s : Store)
      → Reach env dashboard own s0 s
      → Reach env dashboard own s0 (revoke_session env user_id tenant_id h s).1
  unfolding revoke_session session_index_key
  revoke_session-Reach user_id tenant_id h s past =
      elim (Bool-cases (text_eq tenant_id [] || not (is_valid_session_hash h))) [
        | inl refused ↦ rw refused past
        | inr valid ↦ rw valid (let run = next past (session_revoked _ h) in Reach-if _ _ _ run run)
      ]

  -- The loop of `revokeAllExceptCurrent` over the sessions.
  pub revoke_others-Reach :
      {s0 : Store} (user_id tenant_id kept : Text) (l : List Text) (s : Store)
      → Reach env dashboard own s0 s
      → Reach env dashboard own s0 (revoke_others env user_id tenant_id kept l s).1
  unfolding revoke_others
  revoke_others-Reach user_id tenant_id kept [] s past = past
  revoke_others-Reach user_id tenant_id kept (m ∷ l) s past =
      let h = hash_of m in
      let run = revoke_session-Reach user_id tenant_id h s past in
      Reach-if (text_eq h kept) _ _ (revoke_others-Reach user_id tenant_id kept l s past) (
        settled _ (revoke_session env user_id tenant_id h s).0 run (
          revoke_others-Reach user_id tenant_id kept l (revoke_session env user_id tenant_id h s).1
            run))
    where
      settled :
          {s0 t : Store} (x : Result (Unit {0}) × Store) (reply : Result (Unit {0}))
          → Reach env dashboard own s0 t
          → Reach env dashboard own s0 x.1
          → Reach env dashboard own s0 (
              let out : Result (Unit {0}) × Store = elim reply [
                | ok done ↦ x
                | raise session_not_found ↦ x
                | raise code ↦ (raise code, t)
              ] in
              out.1)
      settled x (ok done) stop go_on = go_on
      settled x (raise session_not_found) stop go_on = go_on
      settled x (raise code) stop go_on = stop

  epoch_key-apart :
      (a : Slot) (h user_id tenant_id : Text)
      → swept_slot a ≡ true
      → text_eq
          (token_epoch_key env.hmac dashboard user_id env.hmac_key (some tenant_id))
          (key dashboard a h)
        ≡ false
  unfolding key token_epoch_key
  epoch_key-apart live h user_id tenant_id q = refl
  epoch_key-apart grace h user_id tenant_id q = refl
  epoch_key-apart _ h user_id tenant_id q = cc

  -- A bump of an epoch writes elsewhere.
  bump-Reach :
      {s0 : Store} (user_id tenant_id : Text) (s : Store)
      → Reach env dashboard own s0 s
      → Reach env dashboard own s0
          (bump_user_token_epoch env user_id (some tenant_id) dashboard s).1
  bump-Reach user_id tenant_id s past = next past (
      elsewhere _
        (λ a h q.
          get-bump_user_token_epoch env user_id (some tenant_id) dashboard s (key dashboard a h)
            (epoch_key-apart a h user_id tenant_id q))
        (λ u m.
          mem-bump_user_token_epoch env user_id (some tenant_id) dashboard s (key dashboard index u)
            m))

  revoke_all_except-Reach :
      {s0 : Store} (user_id tenant_id : Text) (members : List Text) (kept : Text) (s : Store)
      → Reach env dashboard own s0 s
      → Reach env dashboard own s0 (revoke_all_except env user_id tenant_id members kept s).1
  unfolding revoke_all_except
  revoke_all_except-Reach user_id tenant_id members kept s past =
      let run = revoke_others-Reach user_id tenant_id kept (keep is_session members) s past in
      finished (revoke_others env user_id tenant_id kept (keep is_session members) s).0 _ _ run (
        bump-Reach user_id tenant_id _ (
          drop_pointers-Reach _ (keep is_pointer members) _
            (All-contains _ (keep is_pointer members)
              (λ m c. ground (arith, contains-keep is_pointer members m)))
            run))
    where
      finished :
          {s0 : Store} (reply : Result (Unit {0})) (t u : Store)
          → Reach env dashboard own s0 t
          → Reach env dashboard own s0 u
          → Reach env dashboard own s0 (
              let out : Result (Unit {0}) × Store = elim reply [
                | raise code ↦ (raise code, t)
                | ok done ↦ (ok tt, u)
              ] in
              out.1)
      finished (ok done) t u one other = other
      finished (raise code) t u one other = one

  -- `revokeAllExceptCurrent` is a history, whatever it replies.
  pub revoke_all_except_current-Reach :
      {s0 : Store} (user_id tenant_id current : Text) (s : Store)
      → Reach env dashboard own s0 s
      → Reach env dashboard own s0 (revoke_all_except_current env user_id tenant_id current s).1
  unfolding revoke_all_except_current
  revoke_all_except_current-Reach user_id tenant_id current s past =
      Reach-if (text_eq tenant_id [] || not (is_valid_session_hash current)) _ _ past (
        found (resolve_live_member env (smembers s (index_key env user_id tenant_id)) current s) _
          past (λ kept. revoke_all_except-Reach user_id tenant_id _ kept s past))
    where
      found :
          {s0 t : Store} (reply : Result Text) (run : Text → Result (Unit {0}) × Store)
          → Reach env dashboard own s0 t
          → ((kept : Text) → Reach env dashboard own s0 (run kept).1)
          → Reach env dashboard own s0 (
              let out : Result (Unit {0}) × Store = elim reply [
                | raise code ↦ (raise code, t)
                | ok kept ↦ run kept
              ] in
              out.1)
      found (ok kept) run one other = other kept
      found (raise code) run one other = one

  -- The session limit is a history: a pruning, then the evictions.
  pub enforce_session_limit-Reach :
      {s0 : Store} (user_id tenant_id new_hash : Text) (limit : ℕ) (s : Store)
      → Reach env dashboard own s0 s
      → Reach env dashboard own s0 (enforce_session_limit env user_id tenant_id new_hash limit s).1
  unfolding enforce_session_limit
  enforce_session_limit-Reach user_id tenant_id new_hash limit s past =
      let set_key = index_key env user_id tenant_id in
      let s' = (prune_expired_grace_members redis set_key (codes "rp:") s).1 in
      let members = smembers s' set_key in
      let sessions = keep is_session members in
      let pruned = next past (pointers_pruned set_key (codes "rp:")) in
      let l = to_evict env sessions new_hash limit s' in
      let all : All (λ m. is_session m ≡ true) l = All-contains _ l (λ m c.
        let from = (contains-chosen env sessions new_hash limit s' m c).0 in
        ground (arith, contains-keep is_session members m, from)) in
      elim (Bool-cases (leb (length sessions) limit)) [
        | inl few ↦ rw few pruned
        | inr many ↦ rw many (evict-Reach set_key l s' all pruned)
      ]
