-- ===== src/SessionService/RevokedOthers.antt =====
-- What the loops over the other sessions and over the grace pointers delete.
use nest_auth.Prelude.{
  ◌≡◌, refl, ap, ◌∙◌, true, false, ◌&&◌, ◌||◌, not, none, List, [], ◌∷◌, Text, text_eq,
  text_eq_refl, text_eq_iff, contains, ok, if◌then◌else◌, arith, Bool-cases, inl, inr,
}
use nest_auth.Json.{Platform}
use nest_auth.Keys.{dashboard, Slot, live, grace, detail, index, key, session_index_key}
use nest_auth.Keys.Apart.{same_slot, text_eq-slot}
use nest_auth.AuthRedis.Sweeps.Members.{key_of_lead, slice_from-key}
use nest_auth.SessionService.{
  is_session, is_pointer, hash_of, index_key, revoke_session, revoke_others, drop_pointers,
}
use nest_auth.SessionService.Choice.{is_session-key}
use nest_auth.SessionService.Revocation.{
  accepted, AllAccepted, owns, revoke_session-reply, get-revoke_session, mem-revoke_session,
}

module _ (env : Platform) (user_id tenant_id kept : Text) where
  open env use {redis}
  open redis use {Store, get, smembers}

  abbrev step : Text → Store → Store
  step m s =
      if text_eq (hash_of m) kept then s else (revoke_session env user_id tenant_id (hash_of m) s).1

  revoke_others-step :
      (m : Text) (l : List Text) (s : Store)
      → accepted tenant_id (hash_of m) ≡ true
      → revoke_others env user_id tenant_id kept (m ∷ l) s
        ≡ revoke_others env user_id tenant_id kept l (step m s)
  unfolding revoke_others
  revoke_others-step m l s a = elim (Bool-cases (text_eq (hash_of m) kept)) [
    | inl k ↦ rw k refl
    | inr k ↦ elim (Bool-cases (owns env user_id tenant_id s (hash_of m))) [
      | inl o ↦ rw (k, revoke_session-reply env user_id tenant_id (hash_of m) s, a, o) refl
      | inr o ↦ rw (k, revoke_session-reply env user_id tenant_id (hash_of m) s, a, o) refl
    ]
  ]

  -- What one round leaves, at the index and at a session's keys.
  mem-step :
      (m : Text) (s : Store) (x : Text)
      → is_session m && accepted tenant_id (hash_of m) ≡ true
      → contains (smembers (step m s) (index_key env user_id tenant_id)) x ≡ (
          contains (smembers s (index_key env user_id tenant_id)) x
          && not (text_eq m x && not (text_eq (hash_of x) kept)))
  mem-step m s x h =
      let e = is_session-key m (ground arith) in
      ground (
        arith,
        mem-revoke_session env user_id tenant_id (hash_of m) s x,
        text_eq_iff m x,
        ap (λ (t : Text). text_eq t x) e,
      )

  get-step :
      (m : Text) (s : Store) (a : Slot) (h : Text)
      → is_session m && accepted tenant_id (hash_of m) ≡ true
      → get (step m s) (key dashboard a h) ≡ (
          if (same_slot live a || same_slot detail a)
            && (text_eq m (key dashboard live h)
                && (not (text_eq h kept) && owns env user_id tenant_id s h))
          then none
          else get s (key dashboard a h))
  get-step m s a h c =
      let e = is_session-key m (ground arith) in
      ground (
        arith,
        get-revoke_session env user_id tenant_id (hash_of m) s (key dashboard a h),
        text_eq_iff (hash_of m) h,
        text_eq-slot dashboard live a (hash_of m) h,
        text_eq-slot dashboard detail a (hash_of m) h,
        ap (λ (t : Text). text_eq t (key dashboard live h)) e
            ∙ text_eq-slot dashboard live live (hash_of m) h,
      )

  pub revoke_others-reply :
      (l : List Text) (s : Store)
      → AllAccepted tenant_id l
      → (revoke_others env user_id tenant_id kept l s).0 ≡ ok tt
  unfolding revoke_others
  revoke_others-reply [] s all = refl
  revoke_others-reply (m ∷ l) s all =
      ap (λ r. r.0) (revoke_others-step m l s (ground (arith, all m, text_eq_refl m)))
      ∙ revoke_others-reply l (step m s) (λ x c. all x (ground arith))

  pub mem-revoke_others :
      (l : List Text) (s : Store) (x : Text)
      → AllAccepted tenant_id l
      → contains
          (smembers
            (revoke_others env user_id tenant_id kept l s).1
            (index_key env user_id tenant_id))
          x
        ≡ (contains (smembers s (index_key env user_id tenant_id)) x
            && not (contains l x && not (text_eq (hash_of x) kept)))
  unfolding revoke_others
  mem-revoke_others [] s x all = ground arith
  mem-revoke_others (m ∷ l) s x all =
      rw (revoke_others-step m l s (ground (arith, all m, text_eq_refl m))) (
        mem-revoke_others l (step m s) x (λ x c. all x (ground arith))
        ∙ ground (arith, mem-step m s x (all m (ground (arith, text_eq_refl m))), text_eq_iff m x))

  pub get-revoke_others :
      (l : List Text) (s : Store) (a : Slot) (h : Text)
      → AllAccepted tenant_id l
      → get (revoke_others env user_id tenant_id kept l s).1 (key dashboard a h) ≡ (
          if (same_slot live a || same_slot detail a)
            && (contains l (key dashboard live h)
                && (not (text_eq h kept) && owns env user_id tenant_id s h))
          then none
          else get s (key dashboard a h))
  unfolding revoke_others
  get-revoke_others [] s a h all = ground arith
  get-revoke_others (m ∷ l) s a h all =
      rw (revoke_others-step m l s (ground (arith, all m, text_eq_refl m))) (
        get-revoke_others l (step m s) a h (λ x c. all x (ground arith))
        ∙ ground (
          arith,
          get-step m s a h (all m (ground (arith, text_eq_refl m))),
          mem-step m s (key dashboard live h) (all m (ground (arith, text_eq_refl m))),
          slice_from-key dashboard live h,
        ))

  -- A key of another kind is left.
  pub get-revoke_others_apart :
      (l : List Text) (s : Store) (j : Text)
      → AllAccepted tenant_id l
      → ((a : Slot) (x : Text) → text_eq (key dashboard a x) j ≡ false)
      → get (revoke_others env user_id tenant_id kept l s).1 j ≡ get s j
  unfolding revoke_others
  get-revoke_others_apart [] s j all apart = refl
  get-revoke_others_apart (m ∷ l) s j all apart =
      rw (revoke_others-step m l s (ground (arith, all m, text_eq_refl m))) (
        get-revoke_others_apart l (step m s) j (λ x c. all x (ground arith)) apart
        ∙ ground (
          arith,
          get-revoke_session env user_id tenant_id (hash_of m) s j,
          apart live (hash_of m),
          apart detail (hash_of m),
        ))

module _ (env : Platform) (user_id tenant_id : Text) where
  open env use {redis}
  open redis use {Store, get, smembers}

  abbrev dropped : List Text → Store → Store
  dropped l s = drop_pointers env (index_key env user_id tenant_id) l s

  pub mem-drop_pointers :
      (l : List Text) (s : Store) (x : Text)
      → ((m : Text) → contains l m ≡ true → is_pointer m ≡ true)
      → contains (smembers (dropped l s) (index_key env user_id tenant_id)) x
        ≡ (contains (smembers s (index_key env user_id tenant_id)) x && not (contains l x))
  unfolding drop_pointers session_index_key
  mem-drop_pointers [] s x all = ground arith
  mem-drop_pointers (m ∷ l) s x all =
      let e = key_of_lead dashboard grace m (all m (ground (arith, text_eq_refl m))) in
      mem-drop_pointers l _ x (λ n c. all n (ground arith))
      ∙ ground (
        arith,
        redis.mem-srem (redis.del s m) (index_key env user_id tenant_id) m
            (index_key env user_id tenant_id) x,
        text_eq_refl (index_key env user_id tenant_id),
        redis.mem-del s m (index_key env user_id tenant_id) x,
        ap (λ (t : Text). text_eq t (index_key env user_id tenant_id)) e
            ∙ text_eq-slot dashboard grace index (hash_of m) _,
      )

  pub get-drop_pointers :
      (l : List Text) (s : Store) (a : Slot) (h : Text)
      → ((m : Text) → contains l m ≡ true → is_pointer m ≡ true)
      → get (dropped l s) (key dashboard a h) ≡ (
          if contains l (key dashboard grace h) && same_slot grace a
          then none
          else get s (key dashboard a h))
  unfolding drop_pointers
  get-drop_pointers [] s a h all = ground arith
  get-drop_pointers (m ∷ l) s a h all =
      let e = key_of_lead dashboard grace m (all m (ground (arith, text_eq_refl m))) in
      get-drop_pointers l _ a h (λ n c. all n (ground arith))
      ∙ ground (
        arith,
        redis.get-srem (redis.del s m) (index_key env user_id tenant_id) m (key dashboard a h),
        redis.get-del s m (key dashboard a h),
        ap (λ (t : Text). text_eq t (key dashboard a h)) e
            ∙ text_eq-slot dashboard grace a (hash_of m) h,
        ap (λ (t : Text). text_eq t (key dashboard grace h)) e
            ∙ text_eq-slot dashboard grace grace (hash_of m) h,
      )

  pub get-drop_pointers_apart :
      (l : List Text) (s : Store) (j : Text)
      → ((m : Text) → contains l m ≡ true → is_pointer m ≡ true)
      → ((a : Slot) (x : Text) → text_eq (key dashboard a x) j ≡ false)
      → get (dropped l s) j ≡ get s j
  unfolding drop_pointers
  get-drop_pointers_apart [] s j all apart = refl
  get-drop_pointers_apart (m ∷ l) s j all apart =
      let e = key_of_lead dashboard grace m (all m (ground (arith, text_eq_refl m))) in
      get-drop_pointers_apart l _ j (λ n c. all n (ground arith)) apart
      ∙ ground (
        arith,
        redis.get-srem (redis.del s m) (index_key env user_id tenant_id) m j,
        redis.get-del s m j,
        ap (λ (t : Text). text_eq t j) e,
        apart grace (hash_of m),
      )
