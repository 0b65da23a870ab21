-- ===== src/AuthRedis/Sessions/Everywhere.antt =====
-- Whatever the server has done, `log out everywhere` ends every session of the user and no other.
use nest_auth.Prelude.{
  ◌≡◌, ◌≢◌, ◌∙◌, sym, refl, text_eq_refl, subst, true, false, inl, inr, Option, none, some, Text,
  contains, text_eq, [], Option-cases, arith, Bool-cases,
}
use nest_auth.Json.{Platform}
use nest_auth.Keys.{Plane, dashboard, platform, live, index, detail, Slot, key, session_index_key}
use nest_auth.AuthRedis.Scripts.{rotate, rotate_live, take_grace}
use nest_auth.AuthRedis.Sweeps.Shrinks.{Shrinks-none}
use nest_auth.AuthRedis.Sweeps.Effects.{Shrinks-sweep, sweep, sweep-kills, sweep-keeps}
use nest_auth.AuthRedis.Sessions.{
  RotationParams, rotate_call, rotate_refresh_session, write_new_session, write_recovered_session,
  revoke_family, invalidate_user_sessions,
}
use nest_auth.SessionService.{revoke_session_script}
use nest_auth.AuthRedis.Sessions.Replayed.{run_consumed}
use nest_auth.AuthRedis.Sessions.Coverage.{
  swept_slot, IsIndexed, IsSafe, IsSafe-IsIndexed, write_new_session-IsIndexed,
}
use nest_auth.AuthRedis.Sessions.Preserved.{
  rotate_live-IsIndexed, take_grace-IsSafe, write_recovered_session-IsIndexed, sweep-IsSafe,
}
use nest_auth.AuthRedis.Sessions.Safe.{
  IsSafe-refl, IsSafe-trans, IsSafe-del, IsSafe-srem, prune_dead-IsSafe,
  prune_expired_grace_members-IsSafe, revoke_family_script-IsSafe,
}
use nest_auth.AuthRedis.Sessions.Steps.{
  Step, login, rotation, replay, recovery, family_revoked, everywhere, members_pruned,
  pointers_pruned, session_revoked, deleted, unlisted, elsewhere, Reach, here, next, digest,
}

store-rotated :
    (env : Platform) (p : RotationParams) (s : env.redis.Store) (old : Text)
    → env.redis.get s (key p.kind live p.old_hash) ≡ some old
    → (rotate_refresh_session env p s).1 ≡ rotate_live env.redis (rotate_call env p) s
unfolding rotate_refresh_session rotate
store-rotated env p s old h = rw (h, rotate)

store-replayed :
    (env : Platform) (p : RotationParams) (s : env.redis.Store)
    → env.redis.get s (key p.kind live p.old_hash) ≡ none
    → (rotate_refresh_session env p s).1 ≡ take_grace env.redis (rotate_call env p) s
store-replayed env p s h = rw (run_consumed env p s h)

pub invalidate-sweep :
    (env : Platform) (k : Plane) (user_id : Text) (tenant_id : Option Text) (s : env.redis.Store)
    → invalidate_user_sessions env user_id tenant_id k s
      ≡ sweep env.redis k (digest env k (λ h. h) user_id tenant_id) s
unfolding invalidate_user_sessions session_index_key
invalidate-sweep env dashboard user_id tenant_id s = refl
invalidate-sweep env platform user_id tenant_id s = refl

family_revoked-IsSafe :
    (env : Platform) (k : Plane) (own : Text → Text) (family_id : Text) (s : env.redis.Store)
    → IsSafe env.redis k own s (revoke_family env k family_id s).1
unfolding revoke_family
family_revoked-IsSafe env k own family_id s = elim (Bool-cases (text_eq family_id [])) [
  | inl none_ ↦ rw (none_, revoke_family) (IsSafe-refl env.redis k own s)
  | inr named ↦
      rw (named, revoke_family) (revoke_family_script-IsSafe env.redis k own family_id _ s)
]

module _ (env : Platform) (k : Plane) (own : Text → Text) where
  open env use {redis, hmac, hmac_key}
  open env.redis use {Store, get, smembers, del, srem}

  revoke_session_script-IsSafe :
      (u h : Text) (s : Store)
      → IsSafe redis k own s
          (revoke_session_script env
            (key k index u)
            (key k live h)
            (key k detail h)
            (key k live h)
            s).1
  unfolding revoke_session_script
  revoke_session_script-IsSafe u h s =
      let s1 = del s (key k live h) in
      let gone : get s1 (key k live h) ≡ none =
        redis.get-del s (key k live h) (key k live h) ∙ rw (text_eq_refl (key k live h)) refl in
      elim (Bool-cases (contains (smembers s (key k index u)) (key k live h))) [
        | inl member ↦ rw member (
            IsSafe-trans redis k own
              (IsSafe-trans redis k own (IsSafe-del redis k own s live h refl)
                (IsSafe-srem redis k own s1 (key k index u) (key k live h) gone))
              (IsSafe-del redis k own (srem s1 (key k index u) (key k live h)) detail h refl))
        | inr stranger ↦ rw stranger (IsSafe-refl redis k own s)
      ]

  abbrev IndexedOn : Plane → Store → Type 0
  IndexedOn q s = IsIndexed redis q own s

  Step-IsIndexed :
      {s t : Store} → Step env k own s t → IsIndexed redis k own s → IsIndexed redis k own t
  Step-IsIndexed {s} (login p n e lasts mine) w =
      subst (λ q. IndexedOn q (write_new_session env p s)) e
        (write_new_session-IsIndexed env own p n lasts s mine (rw e w))
  Step-IsIndexed {s} (rotation p n old e lasts mine mine' live_) w =
      subst (λ q. IndexedOn q (rotate_refresh_session env p s).1) e
        (rw (store-rotated env p s old live_)
          (rotate_live-IsIndexed env own p n lasts s mine mine' (rw e w)))
  Step-IsIndexed {s} (replay p e gone) w =
      subst (λ q. IndexedOn q (rotate_refresh_session env p s).1) e
        (rw (store-replayed env p s gone)
          (IsSafe-IsIndexed redis p.kind own (take_grace-IsSafe env own p s) (rw e w)))
  Step-IsIndexed {s} (recovery p n e lasts mine) w =
      subst (λ q. IndexedOn q (write_recovered_session env p s).1) e
        (write_recovered_session-IsIndexed env own p n lasts s mine (rw e w))
  Step-IsIndexed {s} (family_revoked f) w =
      IsSafe-IsIndexed redis k own (family_revoked-IsSafe env k own f s) w
  Step-IsIndexed {s} (everywhere u t) w =
      rw invalidate-sweep (IsSafe-IsIndexed redis k own (sweep-IsSafe redis k own _ s w) w)
  Step-IsIndexed {s} (members_pruned x l) w =
      IsSafe-IsIndexed redis k own (prune_dead-IsSafe redis k own x l s) w
  Step-IsIndexed {s} (pointers_pruned x lead) w =
      IsSafe-IsIndexed redis k own (prune_expired_grace_members-IsSafe redis k own x lead s) w
  Step-IsIndexed {s} (session_revoked u h) w =
      IsSafe-IsIndexed redis k own (revoke_session_script-IsSafe u h s) w
  Step-IsIndexed {s} (deleted a x other) w =
      IsSafe-IsIndexed redis k own (IsSafe-del redis k own s a x other) w
  Step-IsIndexed {s} (unlisted set_key m gone) w =
      IsSafe-IsIndexed redis k own (IsSafe-srem redis k own s set_key m gone) w
  Step-IsIndexed (elsewhere t strings sets) w = record {
    named = λ a h v q e. sets (own h) (key k a h) ∙ w.named a h v q (sym (strings a h q) ∙ e);
    owned = λ a u h q c. w.owned a u h q (sym (sets u (key k a h)) ∙ c);
  }

  -- From a store whose session indexes are complete, every history of the steps of
  -- AuthRedis/Sessions/Steps, in which each session is written under a hash that was minted for
  -- its user, keeps them so: each live session and grace pointer is named by the index of its own
  -- user, and an index names its own user's only. The steps are logins, rotations, presentations
  -- of a consumed token, recoveries, revocations of a family, of one session and of all sessions
  -- of a user, prunings, the expiry or deletion of a key that is no index, the removal of a
  -- member whose key is gone, and writes that touch no session, pointer or index.
  pub Reach-IsIndexed :
      {s t : Store} → Reach env k own s t → IsIndexed redis k own s → IsIndexed redis k own t
  Reach-IsIndexed here w = w
  Reach-IsIndexed (next past step) w = Step-IsIndexed step (Reach-IsIndexed past w)

  pub IsIndexed-empty :
      (s : Store)
      → ((j : Text) → get s j ≡ none)
      → ((j x : Text) → contains (smembers s j) x ≡ false)
      → IsIndexed redis k own s
  IsIndexed-empty s no_key no_member = record {
    named = λ a h v q e. ground (arith, no_key (key k a h));
    owned = λ a u h q c. ground (arith, no_member (key k index u) (key k a h));
  }

  -- After any history of logins, rotations, recoveries, revocations, prunings, deletions and
  -- expiries, the steps of AuthRedis/Sessions/Steps, that began with an empty store,
  -- invalidateUserSessions leaves no session and no grace pointer of the user, and leaves those
  -- of every other user as they were.
  pub invalidate_user_sessions-ends :
      (s t : Store)
      → ((j : Text) → get s j ≡ none)
      → ((j x : Text) → contains (smembers s j) x ≡ false)
      → Reach env k own s t
      → (user_id : Text) (tenant_id : Option Text) (a : Slot) (h : Text) → swept_slot a ≡ true
      → (own h ≡ digest env k own user_id tenant_id
          → get (invalidate_user_sessions env user_id tenant_id k t) (key k a h) ≡ none)
        × (own h ≢ digest env k own user_id tenant_id
            → get (invalidate_user_sessions env user_id tenant_id k t) (key k a h)
              ≡ get t (key k a h))
  invalidate_user_sessions-ends s t no_key no_member past user_id tenant_id a h q =
      let w = Reach-IsIndexed past (IsIndexed-empty s no_key no_member) in
      let u = digest env k own user_id tenant_id in
      (
        λ mine. rw invalidate-sweep (swept w u mine),
        λ other. rw invalidate-sweep (spared w u other),
      )
    where
      swept :
          IsIndexed redis k own t
          → (u : Text) → own h ≡ u
          → get (sweep redis k u t) (key k a h) ≡ none
      swept w u mine = elim (Option-cases (get t (key k a h))) [
        | inl gone ↦ Shrinks-none redis (Shrinks-sweep redis k u t) (key k a h) gone
        | inr (v, e) ↦ sweep-kills redis k u t a h q (rw (← mine) (w.named a h v q e))
      ]

      spared :
          IsIndexed redis k own t
          → (u : Text) → own h ≢ u
          → get (sweep redis k u t) (key k a h) ≡ get t (key k a h)
      spared w u other = elim (Bool-cases (contains (smembers t (key k index u)) (key k a h))) [
        | inl named ↦ absurd (other (w.owned a u h q named))
        | inr unnamed ↦ sweep-keeps redis k u t a h q unnamed
      ]
