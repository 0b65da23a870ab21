-- ===== src/AuthRedis/Sweeps/Effects.antt =====
-- What the sweep of a session index leaves.
use nest_auth.Prelude.{
  arith, ◌≡◌, refl, sym, ap, ◌∙◌, true, false, ◌||◌, inl, inr, none, List, [], ◌∷◌, Text, text_eq,
  text_eq_iff, contains, Bool-cases,
}
use nest_auth.Redis.{Redis, exists_set}
use nest_auth.Keys.{Plane, Slot, live, grace, index, detail, key}
use nest_auth.Keys.Apart.{same_slot, text_eq-slot}
use nest_auth.AuthRedis.Sweeps.Shrinks.{
  Shrinks, Shrinks-trans, Shrinks-none, Shrinks-del, SetsShrink, SetsShrink-trans, SetsShrink-del,
  SetsShrink-if,
}
use nest_auth.AuthRedis.Sweeps.Members.{
  one-keeps, lead, one, Shrinks-one, one-kills, mem-one, SetsShrink-one,
}
use nest_auth.AuthRedis.Sweeps.{sweep_members, sweep_session_index}

module _ (r : Redis) (k : Plane) (u : Text) where
  open r use {Store, get, smembers, del, srem}

  abbrev every : List Text → Store → Store
  every l s = sweep_members r (key k index u) (lead k live) (lead k grace) (lead k detail) l s

  Shrinks-every : (l : List Text) (s : Store) → Shrinks r s (every l s)
  unfolding sweep_members
  Shrinks-every [] s = λ j. inr refl
  Shrinks-every (m ∷ l) s =
      Shrinks-trans r (Shrinks-one r k u m s) (Shrinks-every l (one r k u m s))

  every-kills :
      (l : List Text) (s : Store) (a : Slot) (x : Text)
      → same_slot live a || same_slot grace a ≡ true
      → contains l (key k a x) ≡ true
      → get (every l s) (key k a x) ≡ none
  unfolding sweep_members
  every-kills [] s a x h c = cc
  every-kills (m ∷ l) s a x h c = elim (Bool-cases (text_eq m (key k a x))) [
    | inl same ↦
        let e = (text_eq_iff m (key k a x)).0 same in
        Shrinks-none r (Shrinks-every l (one r k u m s)) (key k a x)
          (ap (get (one r k u m s)) (sym e) ∙ one-kills r k u m s a x h e)
    | inr other ↦ every-kills l (one r k u m s) a x h (rw other at c)
  ]

  mem-every :
      (l : List Text) (s : Store) (w y : Text)
      → text_eq u w ≡ false
      → contains (smembers (every l s) (key k index w)) y ≡ contains (smembers s (key k index w)) y
  unfolding sweep_members
  mem-every [] s w y other = refl
  mem-every (m ∷ l) s w y other =
      mem-every l (one r k u m s) w y other ∙ mem-one r k u m s w y other

  abbrev pub sweep : Store → Store
  sweep s = sweep_session_index r (key k index u) (lead k live) (lead k grace) (lead k detail) s

  -- A sweep writes no string.
  pub Shrinks-sweep : (s : Store) → Shrinks r s (sweep s)
  unfolding sweep_session_index
  Shrinks-sweep s =
      let swept = every (smembers s (key k index u)) s in
      elim (Bool-cases (exists_set (smembers swept (key k index u)))) [
        | inl left ↦ rw left (Shrinks-every (smembers s (key k index u)) s)
        | inr empty ↦ rw empty (
            Shrinks-trans r (Shrinks-every (smembers s (key k index u)) s)
              (Shrinks-del r swept (key k index u)))
      ]

  -- Every session and every grace pointer that the index names is deleted.
  pub sweep-kills :
      (s : Store) (a : Slot) (x : Text)
      → same_slot live a || same_slot grace a ≡ true
      → contains (smembers s (key k index u)) (key k a x) ≡ true
      → get (sweep s) (key k a x) ≡ none
  unfolding sweep_session_index
  sweep-kills s a x h c =
      let swept = every (smembers s (key k index u)) s in
      let killed = every-kills (smembers s (key k index u)) s a x h c in
      elim (Bool-cases (exists_set (smembers swept (key k index u)))) [
        | inl left ↦ rw left killed
        | inr empty ↦ rw empty (Shrinks-none r (Shrinks-del r swept (key k index u)) _ killed)
      ]

  -- The sessions of other users are left in their indexes.
  pub mem-sweep :
      (s : Store) (w y : Text)
      → text_eq u w ≡ false
      → contains (smembers (sweep s) (key k index w)) y ≡ contains (smembers s (key k index w)) y
  unfolding sweep_session_index
  mem-sweep s w y other =
      let swept = every (smembers s (key k index u)) s in
      let kept = mem-every (smembers s (key k index u)) s w y other in
      elim (Bool-cases (exists_set (smembers swept (key k index u)))) [
        | inl left ↦ rw left kept
        | inr empty ↦ rw empty (rw r.mem-del (rw text_eq-slot (rw other kept)))
      ]

  SetsShrink-every : (l : List Text) (s : Store) → SetsShrink r s (every l s)
  unfolding sweep_members
  SetsShrink-every [] s = λ j x h. h
  SetsShrink-every (m ∷ l) s =
      SetsShrink-trans r _ _ _ (SetsShrink-one r k u m s) (SetsShrink-every l (one r k u m s))

  pub SetsShrink-sweep : (s : Store) → SetsShrink r s (sweep s)
  unfolding sweep_session_index
  SetsShrink-sweep s =
      let swept = every (smembers s (key k index u)) s in
      let before = SetsShrink-every (smembers s (key k index u)) s in
      SetsShrink-if r s (exists_set (smembers swept (key k index u))) _ _ before
        (SetsShrink-trans r _ _ _ before (SetsShrink-del r swept (key k index u)))

  every-keeps :
      (l : List Text) (s : Store) (a : Slot) (x : Text)
      → same_slot live a || same_slot grace a ≡ true
      → contains l (key k a x) ≡ false
      → get (every l s) (key k a x) ≡ get s (key k a x)
  unfolding sweep_members
  every-keeps [] s a x h c = refl
  every-keeps (m ∷ l) s a x h c =
      every-keeps l (one r k u m s) a x h (ground arith) ∙ one-keeps r k u m s a x h (ground arith)

  -- A session or a pointer that the index does not name stays.
  pub sweep-keeps :
      (s : Store) (a : Slot) (x : Text)
      → same_slot live a || same_slot grace a ≡ true
      → contains (smembers s (key k index u)) (key k a x) ≡ false
      → get (sweep s) (key k a x) ≡ get s (key k a x)
  unfolding sweep_session_index
  sweep-keeps s a x h c =
      let swept = every (smembers s (key k index u)) s in
      let kept = every-keeps (smembers s (key k index u)) s a x h c in
      elim (Bool-cases (exists_set (smembers swept (key k index u)))) [
        | inl left ↦ rw left kept
        | inr empty ↦ rw empty (
            r.get-del swept (key k index u) (key k a x)
            ∙ rw text_eq-slot (ground (arith, not_index a h)))
      ]
    where
      not_index :
          (b : Slot) → same_slot live b || same_slot grace b ≡ true → same_slot index b ≡ false
      not_index index e = cc
      not_index live e = refl
      not_index grace e = refl
      not_index _ e = refl
