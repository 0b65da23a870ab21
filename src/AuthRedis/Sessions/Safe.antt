-- ===== src/AuthRedis/Sessions/Safe.antt =====
-- The revocations and the prunings only take away: what an index no longer names is gone.
use nest_auth.Prelude.{
  ◌≡◌, refl, sym, ap, ◌∙◌, Bool, true, false, ◌||◌, inl, inr, not, Option, none, some, List, [],
  ◌∷◌, Text, text_eq, text_eq_iff, text_eq_refl, contains, if◌then◌else◌, arith, Bool-cases,
  starts_with, is_some,
}
use nest_auth.Redis.{Redis}
use nest_auth.Keys.{Plane, live, family, index, detail, Slot, key, prefixes_for}
use nest_auth.Keys.Apart.{same_slot, text_eq-slot}
use nest_auth.AuthRedis.Sweeps.{
  prune_dead, prune_grace, prune_expired_grace_members, revoke_members, revoke_family_script,
}
use nest_auth.AuthRedis.Sweeps.Shrinks.{
  Shrinks-trans, Shrinks-none, Shrinks-del, SetsShrink-del, SetsShrink-srem,
}
use nest_auth.AuthRedis.Sessions.Coverage.{IsSafe}

module _ (r : Redis) (k : Plane) (own : Text → Text) where
  open r use {Store, get, smembers, del, srem}

  pub IsSafe-refl : (s : Store) → IsSafe r k own s s
  IsSafe-refl s = record {
    shrinks = λ j. inr refl;
    forgets = λ a u h e c. inl c;
    adds_nothing = λ a u h e c. c;
  }

  pub IsSafe-trans : {s t u : Store} → IsSafe r k own s t → IsSafe r k own t u → IsSafe r k own s u
  IsSafe-trans p q = record {
    shrinks = Shrinks-trans r p.shrinks q.shrinks;
    forgets = λ a v h e c. elim (p.forgets a v h e c) [
      | inl kept ↦ q.forgets a v h e kept
      | inr gone ↦ inr (Shrinks-none r q.shrinks (key k a h) gone)
    ];
    adds_nothing = λ a v h e c. p.adds_nothing a v h e (q.adds_nothing a v h e c);
  }

  -- Any key but a session index may be deleted.
  pub IsSafe-del :
      (s : Store) (a : Slot) (x : Text)
      → same_slot a index ≡ false
      → IsSafe r k own s (del s (key k a x))
  IsSafe-del s a x other = record {
    shrinks = Shrinks-del r s (key k a x);
    forgets = λ b u h e c. inl (rw r.mem-del (rw text_eq-slot (rw other c)));
    adds_nothing = λ b u h e c. SetsShrink-del r s (key k a x) (key k index u) (key k b h) c;
  }

  -- A member whose key is gone may be removed.
  pub IsSafe-srem :
      (s : Store) (set_key member : Text)
      → get s member ≡ none
      → IsSafe r k own s (srem s set_key member)
  IsSafe-srem s set_key member gone = record {
    shrinks = λ j. inr (r.get-srem s set_key member j);
    forgets = λ b u h e c. ground (
      arith,
      r.mem-srem s set_key member (key k index u) (key k b h),
      r.get-srem s set_key member (key k b h),
      text_eq_iff member (key k b h),
    );
    adds_nothing = λ b u h e c. SetsShrink-srem r s set_key member (key k index u) (key k b h) c;
  }

  IsSafe-if :
      (b : Bool) {s t u : Store}
      → (b ≡ true → IsSafe r k own s t)
      → (b ≡ false → IsSafe r k own s u)
      → IsSafe r k own s (if b then t else u)
  IsSafe-if true p q = p refl
  IsSafe-if false p q = q refl

  dead_of : (o : Option Text) → is_some o ≡ false → o ≡ none
  dead_of none h = refl
  dead_of (some v) h = cc

  pub prune_dead-IsSafe :
      (set_key : Text) (l : List Text) (s : Store) → IsSafe r k own s (prune_dead r set_key l s).1
  unfolding prune_dead
  prune_dead-IsSafe set_key [] s = IsSafe-refl s
  prune_dead-IsSafe set_key (m ∷ l) s =
      IsSafe-trans
        (IsSafe-if (is_some (get s m)) (λ alive. IsSafe-refl s)
          (λ dead. IsSafe-srem s set_key m (dead_of _ dead)))
        (prune_dead-IsSafe set_key l (if is_some (get s m) then s else srem s set_key m))

  prune_grace-IsSafe :
      (set_key lead : Text) (l : List Text) (s : Store)
      → IsSafe r k own s (prune_grace r set_key lead l s).1
  unfolding prune_grace
  prune_grace-IsSafe set_key lead [] s = IsSafe-refl s
  prune_grace-IsSafe set_key lead (m ∷ l) s =
      let kept = not (starts_with lead m) || is_some (get s m) in
      IsSafe-trans
        (IsSafe-if kept (λ alive. IsSafe-refl s)
          (λ dead. IsSafe-srem s set_key m (dead_of _ (ground arith))))
        (prune_grace-IsSafe set_key lead l (if kept then s else srem s set_key m))

  pub prune_expired_grace_members-IsSafe :
      (set_key lead : Text) (s : Store)
      → IsSafe r k own s (prune_expired_grace_members r set_key lead s).1
  unfolding prune_expired_grace_members
  prune_expired_grace_members-IsSafe set_key lead s =
      prune_grace-IsSafe set_key lead (smembers s set_key) s

  deleted_gone :
      (s : Store) (h : Text)
      → get (del (del s (key k live h)) (key k detail h)) (key k live h) ≡ none
  deleted_gone s h = simp (r.get-del, text_eq-slot, text_eq_refl)

  revoke_members-IsSafe :
      (sess_key : Text) (l : List Text) (s : Store)
      → IsSafe r k own s
          (revoke_members r (prefixes_for k live) (prefixes_for k detail) sess_key l s)
  unfolding revoke_members key
  revoke_members-IsSafe sess_key [] s = IsSafe-refl s
  revoke_members-IsSafe sess_key (h ∷ l) s =
      let s1 = del (del s (key k live h)) (key k detail h) in
      let deleted =
        IsSafe-trans (IsSafe-del s live h refl) (IsSafe-del (del s (key k live h)) detail h refl) in
      IsSafe-trans
        (IsSafe-trans deleted (
          IsSafe-if (text_eq sess_key []) (λ no_index. IsSafe-refl s1)
            (λ named. IsSafe-srem s1 sess_key (key k live h) (deleted_gone s h))))
        (revoke_members-IsSafe sess_key l
          (if text_eq sess_key [] then s1 else srem s1 sess_key (key k live h)))

  pub revoke_family_script-IsSafe :
      (f sess_key : Text) (s : Store)
      → IsSafe r k own s
          (revoke_family_script r
            (key k family f)
            (prefixes_for k live)
            (prefixes_for k detail)
            sess_key
            s).1
  unfolding revoke_family_script
  revoke_family_script-IsSafe f sess_key s =
      IsSafe-trans (revoke_members-IsSafe sess_key (smembers s (key k family f)) s)
        (IsSafe-del _ family f refl)

  get-pruned :
      (sess_key : Text) (s : Store) (m j : Text)
      → get (if text_eq sess_key [] then s else srem s sess_key m) j ≡ get s j
  get-pruned sess_key s m j = ground (arith, r.get-srem s sess_key m j)

  -- Every session that the family names is deleted.
  revoke_members-kills :
      (sess_key : Text) (l : List Text) (s : Store) (h : Text)
      → contains l h ≡ true
      → get
          (revoke_members r (prefixes_for k live) (prefixes_for k detail) sess_key l s)
          (key k live h)
        ≡ none
  unfolding revoke_members key
  revoke_members-kills sess_key [] s h c = cc
  revoke_members-kills sess_key (m ∷ l) s h c =
      let s1 = del (del s (key k live m)) (key k detail m) in
      let s2 = if text_eq sess_key [] then s1 else srem s1 sess_key (key k live m) in
      elim (Bool-cases (text_eq m h)) [
        | inl same ↦ Shrinks-none r (revoke_members-IsSafe sess_key l s2).shrinks (key k live h) (
            get-pruned sess_key s1 (key k live m) (key k live h)
            ∙ ap (λ (x : Text). get s1 (key k live x)) (sym ((text_eq_iff m h).0 same))
            ∙ deleted_gone s m)
        | inr other ↦ revoke_members-kills sess_key l s2 h (rw other at c)
      ]

  pub revoke_family_script-kills :
      (f sess_key : Text) (s : Store) (h : Text)
      → contains (smembers s (key k family f)) h ≡ true
      → get
          (revoke_family_script r
            (key k family f)
            (prefixes_for k live)
            (prefixes_for k detail)
            sess_key
            s).1
          (key k live h)
        ≡ none
  unfolding revoke_family_script
  revoke_family_script-kills f sess_key s h c =
      rw (r.get-del)
        (rw text_eq-slot (revoke_members-kills sess_key (smembers s (key k family f)) s h c))
