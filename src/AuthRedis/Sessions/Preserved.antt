-- ===== src/AuthRedis/Sessions/Preserved.antt =====
-- Rotations and revocations keep the session indexes complete.
use nest_auth.Prelude.{
  ℕ, suc, ◌≡◌, sym, ◌∙◌, Bool, true, false, ◌&&◌, ◌||◌, inl, inr, some, [], Text, text_eq,
  text_eq_iff, contains, if◌then◌else◌, arith, Bool-cases,
}
use nest_auth.Redis.{Redis, exists_set}
use nest_auth.Json.{Platform}
use nest_auth.Keys.{Plane, live, grace, family, index, Slot, key, session_index_key}
use nest_auth.Keys.Apart.{text_eq-slot}
use nest_auth.AuthRedis.Scripts.{create_session, recover_grace, rotate_live, take_grace}
use nest_auth.AuthRedis.Scripts.Effects.{get-take_grace, mem-take_grace}
use nest_auth.AuthRedis.Sweeps.Effects.{
  SetsShrink-sweep, sweep, Shrinks-sweep, sweep-kills, mem-sweep,
}
use nest_auth.AuthRedis.Sessions.{
  RotationParams, NewSession, rotate_call, write_new_session, write_recovered_session,
}
use nest_auth.AuthRedis.Sessions.Rotated.{
  subject_of, string_after, in_index_after, get-rotated, index-rotated,
}
use nest_auth.AuthRedis.Sessions.Coverage.{
  swept_slot, IsIndexed, IsSafe, subject_of_new, write_new_session-IsIndexed,
}

module _ (env : Platform) (own : Text → Text) where
  open env use {redis, hmac, hmac_key}
  open env.redis use {Store, get, smembers}

  module _ (p : RotationParams) (n : ℕ) (lasts : p.refresh_ttl ≡ suc n) (s : Store) where
    abbrev after : Store
    after = rotate_live redis (rotate_call env p) s

    -- A rotation for the user to whom both tokens belong.
    pub rotate_live-IsIndexed :
        own p.old_hash ≡ subject_of env p
        → own p.new_hash ≡ subject_of env p
        → IsIndexed redis p.kind own s
        → IsIndexed redis p.kind own after
    unfolding string_after in_index_after
    rotate_live-IsIndexed old_mine new_mine w = record { named = named_after; owned = owned_after }
      where
        named_after :
            (a : Slot) (h v : Text)
            → swept_slot a ≡ true
            → get after (key p.kind a h) ≡ some v
            → contains (smembers after (key p.kind index (own h))) (key p.kind a h) ≡ true
        named_after live h v q e = rw (index-rotated env p n lasts) (
            simp text_eq-slot (
              ground (
                arith,
                get-rotated env p n lasts s live h,
                w.named live h v,
                text_eq_iff p.new_hash h,
                text_eq_iff p.old_hash h,
                text_eq_iff (subject_of env p) (own h),
              )))
        named_after grace h v q e = rw (index-rotated env p n lasts) (
            simp text_eq-slot (
              ground (
                arith,
                get-rotated env p n lasts s grace h,
                w.named grace h v,
                text_eq_iff p.old_hash h,
                text_eq_iff (subject_of env p) (own h),
              )))
        named_after _ h v q e = cc

        owned_after :
            (a : Slot) (u h : Text)
            → swept_slot a ≡ true
            → contains (smembers after (key p.kind index u)) (key p.kind a h) ≡ true
            → own h ≡ u
        owned_after live u h q c = ground (
          arith,
          index-rotated env p n lasts s u (key p.kind live h),
          text_eq-slot p.kind live live p.new_hash h,
          text_eq-slot p.kind live live p.old_hash h,
          text_eq-slot p.kind grace live p.old_hash h,
          text_eq_iff p.new_hash h,
          text_eq_iff (subject_of env p) u,
          w.owned live u h q,
        )
        owned_after grace u h q c = ground (
          arith,
          index-rotated env p n lasts s u (key p.kind grace h),
          text_eq-slot p.kind live grace p.new_hash h,
          text_eq-slot p.kind live grace p.old_hash h,
          text_eq-slot p.kind grace grace p.old_hash h,
          text_eq_iff p.old_hash h,
          text_eq_iff (subject_of env p) u,
          w.owned grace u h q,
        )
        owned_after _ u h q c = cc

  -- A consumed token's pointer is deleted, and nothing else happens.
  pub take_grace-IsSafe :
      (p : RotationParams) (s : Store)
      → IsSafe redis p.kind own s (take_grace redis (rotate_call env p) s)
  take_grace-IsSafe p s = record {
    shrinks = λ j. ground (arith, get-take_grace redis (rotate_call env p) s j);
    forgets = λ a u h q c. inl (
        mem-take_grace redis (rotate_call env p) s (key p.kind index u) (key p.kind a h)
          (rw text_eq-slot)
        ∙ c);
    adds_nothing = λ a u h q c.
        sym (
          mem-take_grace redis (rotate_call env p) s (key p.kind index u) (key p.kind a h)
            (rw text_eq-slot))
        ∙ c;
  }

  -- The recovery writes what a login writes, if the account has a session index and the family a
  -- member, and nothing otherwise.
  pub write_recovered_session-cases :
      (p : NewSession) (s : Store)
      → write_recovered_session env p s ≡ (
          if exists_set (smembers s (session_index_key hmac p.kind p.user_id hmac_key p.tenant_id))
            && (text_eq p.family_id [] || exists_set (smembers s (key p.kind family p.family_id)))
          then (true, write_new_session env p s)
          else (false, s))
  unfolding write_recovered_session write_new_session recover_grace create_session
  write_recovered_session-cases p s = ground arith

  pub write_recovered_session-IsIndexed :
      (p : NewSession) (n : ℕ)
      → p.refresh_ttl ≡ suc n
      → (s : Store) → own p.token_hash ≡ subject_of_new env own p
      → IsIndexed redis p.kind own s
      → IsIndexed redis p.kind own (write_recovered_session env p s).1
  write_recovered_session-IsIndexed p n lasts s mine w =
      rw write_recovered_session-cases
        (either _ (write_new_session-IsIndexed env own p n lasts s mine w) w)
    where
      pick : Bool → Bool × Store
      pick b = if b then (true, write_new_session env p s) else (false, s)

      either :
          (b : Bool)
          → IsIndexed redis p.kind own (write_new_session env p s)
          → IsIndexed redis p.kind own s
          → IsIndexed redis p.kind own (pick b).1
      either true x y = x
      either false x y = y

module _ (r : Redis) (k : Plane) (own : Text → Text) where
  open r use {Store, get, smembers, del, srem}

  -- The sweep of one user's index, in a store whose indexes name only their users' keys.
  pub sweep-IsSafe : (u : Text) (s : Store) → IsIndexed r k own s → IsSafe r k own s (sweep r k u s)
  sweep-IsSafe u s w = record {
    shrinks = Shrinks-sweep r k u s;
    forgets = λ a v h q c. elim (Bool-cases (text_eq u v)) [
      | inl same ↦ inr (sweep-kills r k u s a h q (rw ((text_eq_iff u v).0 same) c))
      | inr other ↦ inl (mem-sweep r k u s v (key k a h) other ∙ c)
    ];
    adds_nothing = λ a v h q c. SetsShrink-sweep r k u s (key k index v) (key k a h) c;
  }
