-- ===== src/AuthRedis/Sweeps/Members.antt =====
-- What the sweep of a session index does at one member.
use nest_auth.Prelude.{
  sym, ◌≡◌, refl, ap, ◌∙◌, true, false, ◌||◌, ◌⊎◌, inl, inr, none, [], ◌∷◌, ◌++◌, Text, text_eq,
  text_eq_refl, contains, starts_with, slice_from, length, if◌then◌else◌, arith, Bool-cases,
}
use nest_auth.Redis.{Redis}
use nest_auth.Keys.{
  Plane, dashboard, platform, Slot, live, grace, consumed, family, index, detail, prefixes_for, key,
}
use nest_auth.Keys.Apart.{same_slot, text_eq-slot}
use nest_auth.AuthRedis.Sweeps.Shrinks.{
  Shrinks, SetsShrink, SetsShrink-trans, SetsShrink-del, SetsShrink-srem, SetsShrink-if,
}
use nest_auth.AuthRedis.Sweeps.{sweep_member}

starts_with-split : (q m : Text) → starts_with q m ≡ true → m ≡ q ++ slice_from (length q) m
starts_with-split [] m h = refl
starts_with-split (c ∷ q) [] h = cc
starts_with-split (c ∷ q) (d ∷ m) h = ground (arith, starts_with-split q m)

abbrev pub lead : Plane → Slot → Text
lead k a = prefixes_for k a ++ b':' ∷ []

-- A text that begins with a prefix and its colon is a key of that prefix.
pub key_of_lead :
    (k : Plane) (a : Slot) (m : Text)
    → starts_with (lead k a) m ≡ true
    → m ≡ key k a (slice_from (length (lead k a)) m)
unfolding key
key_of_lead k a m h = starts_with-split (lead k a) m h ∙ regroup (prefixes_for k a) _
  where
    regroup : (p x : Text) → (p ++ b':' ∷ []) ++ x ≡ p ++ b':' ∷ x
    regroup [] x = refl
    regroup (c ∷ p) x = ap (λ (t : Text). c ∷ t) (regroup p x)

pub starts_with-key :
    (k : Plane) (a b : Slot) (x : Text) → starts_with (lead k a) (key k b x) ≡ same_slot a b
unfolding key
starts_with-key dashboard live live x = refl
starts_with-key dashboard grace grace x = refl
starts_with-key dashboard consumed consumed x = refl
starts_with-key dashboard family family x = refl
starts_with-key dashboard index index x = refl
starts_with-key dashboard detail detail x = refl
starts_with-key platform live live x = refl
starts_with-key platform grace grace x = refl
starts_with-key platform consumed consumed x = refl
starts_with-key platform family family x = refl
starts_with-key platform index index x = refl
starts_with-key platform detail detail x = refl
starts_with-key _ _ _ x = refl

pub slice_from-key :
    (k : Plane) (a : Slot) (x : Text) → slice_from (length (lead k a)) (key k a x) ≡ x
unfolding key
slice_from-key dashboard live x = refl
slice_from-key platform live x = refl
slice_from-key dashboard _ x = refl
slice_from-key platform _ x = refl

lead-append : (k : Plane) (a : Slot) (x : Text) → lead k a ++ x ≡ key k a x
unfolding key
lead-append dashboard live x = refl
lead-append platform live x = refl
lead-append dashboard _ x = refl
lead-append platform _ x = refl

module _ (r : Redis) (k : Plane) (u : Text) where
  open r use {Store, get, smembers, del, srem}

  abbrev pub one : Text → Store → Store
  one m s = sweep_member r (key k index u) (lead k live) (lead k grace) (lead k detail) m s

  -- The three kinds of members.
  pub get-one_live :
      (x : Text) (s : Store) (j : Text)
      → get (one (key k live x) s) j ≡ (
          if text_eq (key k detail x) j
          then none
          else if text_eq (key k live x) j
          then none
          else get s j)
  unfolding sweep_member
  get-one_live x s j =
      rw (starts_with-key k live live x)
        (rw (slice_from-key k live x) (rw (lead-append k detail x) (simp (r.get-srem, r.get-del))))

  pub get-one_grace :
      (x : Text) (s : Store) (j : Text)
      → get (one (key k grace x) s) j ≡ (if text_eq (key k grace x) j then none else get s j)
  unfolding sweep_member
  get-one_grace x s j =
      rw (starts_with-key k live grace x)
        (rw (starts_with-key k grace grace x) (simp (r.get-srem, r.get-del)))

  pub one_other :
      (m : Text) (s : Store)
      → starts_with (lead k live) m ≡ false
      → starts_with (lead k grace) m ≡ false
      → one m s ≡ s
  unfolding sweep_member
  one_other m s h g = rw h (rw g)

  -- What a member of the index is, as the script tells it from its prefix.
  pub data Kind (m : Text) : Type 0 where
    is_live : (x : Text) → m ≡ key k live x → Kind m
    is_grace : (x : Text) → m ≡ key k grace x → Kind m
    is_other : starts_with (lead k live) m ≡ false → starts_with (lead k grace) m ≡ false → Kind m

  pub Kind-cases : (m : Text) → Kind m
  Kind-cases m = elim (Bool-cases (starts_with (lead k live) m)) [
    | inl h ↦ is_live _ (key_of_lead k live m h)
    | inr h ↦ elim (Bool-cases (starts_with (lead k grace) m)) [
      | inl g ↦ is_grace _ (key_of_lead k grace m g)
      | inr g ↦ is_other h g
    ]
  ]

  pub Shrinks-one : (m : Text) (s : Store) → Shrinks r s (one m s)
  Shrinks-one m s j = go (Kind-cases m)
    where
      go : Kind m → (get (one m s) j ≡ none) ⊎ (get (one m s) j ≡ get s j)
      go (is_live x e) = rw e (ground (arith, get-one_live x s j))
      go (is_grace x e) = rw e (ground (arith, get-one_grace x s j))
      go (is_other h g) = rw (one_other m s h g) (inr refl)

  -- A session or a pointer that the index names is deleted.
  pub one-kills :
      (m : Text) (s : Store) (a : Slot) (x : Text)
      → same_slot live a || same_slot grace a ≡ true
      → m ≡ key k a x
      → get (one m s) m ≡ none
  one-kills m s live x h e =
      rw e (get-one_live x s (key k live x) ∙ (rw (text_eq-slot k detail live) (rw text_eq_refl)))
  one-kills m s grace x h e = rw e (get-one_grace x s (key k grace x) ∙ rw text_eq_refl)
  one-kills m s consumed x h e = cc
  one-kills m s family x h e = cc
  one-kills m s index x h e = cc
  one-kills m s detail x h e = cc

  -- The other session indexes stay as they are.
  pub mem-one :
      (m : Text) (s : Store) (w y : Text)
      → text_eq u w ≡ false
      → contains (smembers (one m s) (key k index w)) y ≡ contains (smembers s (key k index w)) y
  unfolding sweep_member
  mem-one m s w y other = go (Kind-cases m)
    where
      go :
          Kind m
          → contains (smembers (one m s) (key k index w)) y
            ≡ contains (smembers s (key k index w)) y
      go (is_live x e) = rw e (
          rw (starts_with-key k live live x) (
            rw (slice_from-key k live x) (
              rw (lead-append k detail x) (simp (r.mem-srem, r.mem-del, text_eq-slot) (rw other)))))
      go (is_grace x e) = rw e (
          rw (starts_with-key k live grace x) (
            rw (starts_with-key k grace grace x)
              (simp (r.mem-srem, r.mem-del, text_eq-slot) (rw other))))
      go (is_other h g) = rw (one_other m s h g)

  -- No set wins a member.
  pub SetsShrink-one : (m : Text) (s : Store) → SetsShrink r s (one m s)
  unfolding sweep_member
  SetsShrink-one m s =
      SetsShrink-if r s (starts_with (lead k live) m || starts_with (lead k grace) m) _ _
        (SetsShrink-trans r _ _ _
          (SetsShrink-if r s (starts_with (lead k live) m) _ _
            (SetsShrink-trans r _ _ _ (SetsShrink-del r s m) (SetsShrink-del r (del s m) _))
            (SetsShrink-del r s m))
          (SetsShrink-srem r _ (key k index u) m))
        (λ j x h. h)

  -- A key that the member does not name stays.
  pub one-keeps :
      (m : Text) (s : Store) (a : Slot) (x : Text)
      → same_slot live a || same_slot grace a ≡ true
      → text_eq m (key k a x) ≡ false
      → get (one m s) (key k a x) ≡ get s (key k a x)
  one-keeps m s a x h other = go (Kind-cases m)
    where
      not_detail :
          (b : Slot) → same_slot live b || same_slot grace b ≡ true → same_slot detail b ≡ false
      not_detail detail e = cc
      not_detail live e = refl
      not_detail grace e = refl
      not_detail _ e = refl

      go : Kind m → get (one m s) (key k a x) ≡ get s (key k a x)
      go (is_live y e) = rw e (
          get-one_live y s (key k a x)
          ∙ rw (text_eq-slot k detail a)
              (rw (not_detail a h) (rw (ap (λ (t : Text). text_eq t (key k a x)) (sym e) ∙ other))))
      go (is_grace y e) = rw e (
          get-one_grace y s (key k a x)
          ∙ rw (ap (λ (t : Text). text_eq t (key k a x)) (sym e) ∙ other))
      go (is_other g g') = rw (one_other m s g g')
