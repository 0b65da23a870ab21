-- ===== src/SessionService/Revoked.antt =====
-- What is left of the sessions of a user when all but one are revoked.
use nest_auth.Prelude.{
  ℕ, ◌+◌, ◌≡◌, refl, sym, ap, ◌∙◌, subst, true, false, ◌&&◌, ◌||◌, not, Option, some, none, List,
  [], ◌∷◌, Text, text_eq, text_eq_iff, contains, ok, if◌then◌else◌, arith, Bool-cases, inl, inr,
  ◌⊎◌, keep, contains-keep,
}
use nest_auth.Json.{Platform}
use nest_auth.Keys.{
  dashboard, Slot, live, grace, consumed, family, detail, index, key, token_epoch_key,
}
use nest_auth.Keys.Apart.{same_slot, text_eq-slot}
use nest_auth.AuthRedis.Counters.{
  counter_of, IsCounter, get_user_token_epoch, bump_user_token_epoch, bump_user_token_epoch_lem,
  mem-bump_user_token_epoch,
}
use nest_auth.AuthRedis.Sweeps.Members.{starts_with-key}
use nest_auth.SessionService.Records.{is_valid_session_hash}
use nest_auth.SessionService.{
  is_session, is_pointer, hash_of, index_key, is_live_member, grace_successor, resolve_live_session,
  resolve_live_member, revoke_others, drop_pointers, revoke_all_except, revoke_all_except_current,
}
use nest_auth.SessionService.Choice.{is_session-key}
use nest_auth.SessionService.Revocation.{accepted, AllAccepted, owns}
use nest_auth.SessionService.RevokedOthers.{
  revoke_others-reply, mem-revoke_others, get-revoke_others, mem-drop_pointers, get-drop_pointers,
  get-revoke_others_apart, get-drop_pointers_apart,
}

epoch-apart :
    (env : Platform) (user_id tenant_id : Text) (a : Slot) (x : Text)
    → (text_eq
          (token_epoch_key env.hmac dashboard user_id env.hmac_key (some tenant_id))
          (key dashboard a x)
        ≡ false)
      × (text_eq
            (key dashboard a x)
            (token_epoch_key env.hmac dashboard user_id env.hmac_key (some tenant_id))
          ≡ false)
unfolding token_epoch_key key
epoch-apart env user_id tenant_id live x = (refl, refl)
epoch-apart env user_id tenant_id grace x = (refl, refl)
epoch-apart env user_id tenant_id consumed x = (refl, refl)
epoch-apart env user_id tenant_id family x = (refl, refl)
epoch-apart env user_id tenant_id index x = (refl, refl)
epoch-apart env user_id tenant_id detail x = (refl, refl)

is_live_member-contains :
    (l : List Text) (h : Text) → is_live_member l h ≡ contains l (key dashboard live h)
is_live_member-contains [] h = refl
is_live_member-contains (m ∷ l) h = elim (Bool-cases (is_session m)) [
  | inl session ↦ ground (
    arith,
    is_live_member-contains l h,
    ap (λ (t : Text). text_eq t (key dashboard live h)) (is_session-key m session)
        ∙ text_eq-slot dashboard live live (hash_of m) h,
  )
  | inr other ↦ ground (
    arith,
    is_live_member-contains l h,
    text_eq_iff m (key dashboard live h),
    starts_with-key dashboard live live h,
  )
]

module _ (env : Platform) (user_id tenant_id : Text) where
  open env use {redis, hmac, hmac_key}
  open redis use {Store, get, smembers}

  abbrev members : Store → List Text
  members s = smembers s (index_key env user_id tenant_id)

  -- The epoch's key holds a counter.
  abbrev pub EpochIsCounter : Store → Type 0
  EpochIsCounter s =
      IsCounter env (get s (token_epoch_key hmac dashboard user_id hmac_key (some tenant_id)))

  abbrev pub epoch_of : Store → ℕ
  epoch_of s = get_user_token_epoch env user_id (some tenant_id) dashboard s

  -- The store between the loops and the bump.
  module _ (kept : Text) (s : Store)
      (all : AllAccepted tenant_id (keep is_session (members s))) where
    abbrev without_others : Store
    without_others = (revoke_others env user_id tenant_id kept (keep is_session (members s)) s).1

    abbrev cleared : Store
    cleared =
        drop_pointers env (index_key env user_id tenant_id) (keep is_pointer (members s))
          without_others

    pointers : (m : Text) → contains (keep is_pointer (members s)) m ≡ true → is_pointer m ≡ true
    pointers m h = ground (arith, contains-keep is_pointer (members s) m)

    mem-cleared :
        (x : Text)
        → contains (members cleared) x ≡ (
            contains (members s) x
            && not (is_pointer x || (is_session x && not (text_eq (hash_of x) kept))))
    mem-cleared x =
        mem-drop_pointers env user_id tenant_id (keep is_pointer (members s)) without_others x
          pointers
        ∙ ground (
          arith,
          mem-revoke_others env user_id tenant_id kept (keep is_session (members s)) s x all,
          contains-keep is_pointer (members s) x,
          contains-keep is_session (members s) x,
        )

    get-cleared :
        (a : Slot) (h : Text)
        → get cleared (key dashboard a h) ≡ (
            if (same_slot live a || same_slot detail a)
              && (not (text_eq h kept) && owns env user_id tenant_id s h)
            then none
            else if same_slot grace a && contains (members s) (key dashboard grace h)
            then none
            else get s (key dashboard a h))
    get-cleared a h =
        get-drop_pointers env user_id tenant_id (keep is_pointer (members s)) without_others a h
          pointers
        ∙ ground (
          arith,
          get-revoke_others env user_id tenant_id kept (keep is_session (members s)) s a h all,
          contains-keep is_session (members s) (key dashboard live h),
          starts_with-key dashboard live live h,
          contains-keep is_pointer (members s) (key dashboard grace h),
          starts_with-key dashboard grace grace h,
        )

    get-cleared_epoch :
        (j : Text)
        → ((a : Slot) (x : Text) → text_eq (key dashboard a x) j ≡ false)
        → get cleared j ≡ get s j
    get-cleared_epoch j apart =
        get-drop_pointers_apart env user_id tenant_id (keep is_pointer (members s)) without_others j
          pointers apart
        ∙ get-revoke_others_apart env user_id tenant_id kept (keep is_session (members s)) s j all
            apart

  -- `revokeAllExceptCurrent,` called with an accepted tenant and hash that resolve to a live
  -- session, on an index whose sessions have accepted hashes, succeeds: of the sessions that the
  -- index names all but the resolved one lose their keys and detail records, all grace pointers
  -- that it names are deleted, the index keeps the resolved session and what is neither session
  -- nor pointer, every other session and pointer is as before, and the epoch of the user's tokens
  -- moves up by one.
  pub revoke_all_except_current-revokes :
      (current kept : Text) (s : Store)
      → accepted tenant_id current ≡ true
      → resolve_live_member env (members s) current s ≡ ok kept
      → AllAccepted tenant_id (keep is_session (members s))
      → EpochIsCounter s
      → let run = revoke_all_except_current env user_id tenant_id current s in
        (run.0 ≡ ok tt)
        × ((h : Text)
            → get run.1 (key dashboard live h) ≡ (
                if not (text_eq h kept) && owns env user_id tenant_id s h
                then none
                else get s (key dashboard live h)))
        × ((h : Text)
            → get run.1 (key dashboard detail h) ≡ (
                if not (text_eq h kept) && owns env user_id tenant_id s h
                then none
                else get s (key dashboard detail h)))
        × ((h : Text)
            → get run.1 (key dashboard grace h) ≡ (
                if contains (members s) (key dashboard grace h)
                then none
                else get s (key dashboard grace h)))
        × ((x : Text)
            → contains (members run.1) x ≡ (
                contains (members s) x
                && not (is_pointer x || (is_session x && not (text_eq (hash_of x) kept)))))
        × (epoch_of run.1 ≡ epoch_of s + 1)
  unfolding revoke_all_except_current revoke_all_except get_user_token_epoch
  revoke_all_except_current-revokes current kept s a r all counter =
      let e : revoke_all_except_current env user_id tenant_id current s ≡ (
        ok tt,
        (bump_user_token_epoch env user_id (some tenant_id) dashboard (cleared kept s all)).1,
      ) =
        let named : text_eq tenant_id [] ≡ false = ground arith in
        let valid : is_valid_session_hash current ≡ true = ground arith in
        rw
          (
            named,
            valid,
            r,
            revoke_all_except,
            revoke_others-reply env user_id tenant_id kept (keep is_session (members s)) s all,
          )
          refl in
      let same =
        get-cleared_epoch kept s all
          (token_epoch_key hmac dashboard user_id hmac_key (some tenant_id))
          (λ b x. (epoch-apart env user_id tenant_id b x).1) in
      let bumped =
        bump_user_token_epoch_lem env user_id (some tenant_id) dashboard (cleared kept s all)
          (subst (IsCounter env) (sym same) counter) in
      rw e (
        refl,
        (λ h.
            bumped.3 (key dashboard live h) (epoch-apart env user_id tenant_id live h).0
            ∙ get-cleared kept s all live h),
        (λ h.
            bumped.3 (key dashboard detail h) (epoch-apart env user_id tenant_id detail h).0
            ∙ get-cleared kept s all detail h),
        (λ h.
            bumped.3 (key dashboard grace h) (epoch-apart env user_id tenant_id grace h).0
            ∙ get-cleared kept s all grace h),
        (λ x.
            mem-bump_user_token_epoch env user_id (some tenant_id) dashboard (cleared kept s all) _
              x
            ∙ mem-cleared kept s all x),
        (bumped.1 ∙ ap (λ o. counter_of o + 1) same),
      )

  -- The session that resolveLiveSession finds is named by the user's index, and it is the one
  -- asked for, or the successor that the grace pointer of a hash names which the index does not.
  pub resolve_live_session-owned :
      (hash kept : Text) (s : Store)
      → resolve_live_session env user_id tenant_id hash s ≡ ok kept
      → (owns env user_id tenant_id s kept ≡ true)
        × ((kept ≡ hash)
            ⊎ ((owns env user_id tenant_id s hash ≡ false)
                × (grace_successor env hash s ≡ some kept)))
  unfolding resolve_live_session resolve_live_member
  resolve_live_session-owned hash kept s e =
      go (grace_successor env hash s) refl (ground (arith, e))
    where
      go :
          (g : Option Text)
          → grace_successor env hash s ≡ g
          → resolve_live_member env (members s) hash s ≡ ok kept
          → (owns env user_id tenant_id s kept ≡ true)
            × ((kept ≡ hash)
                ⊎ ((owns env user_id tenant_id s hash ≡ false)
                    × (grace_successor env hash s ≡ some kept)))
      go none g h = ground (arith, g, h, is_live_member-contains (members s) hash)
      go (some x) g h = ground (
        arith,
        g,
        h,
        is_live_member-contains (members s) hash,
        is_live_member-contains (members s) x,
      )
