-- ===== src/AuthRedis/Sessions/Coverage.antt =====
-- The session index of a user names every session and every grace pointer of the user, and only
-- those: what `log out everywhere` relies on.
use nest_auth.Prelude.{
  ℕ, suc, ◌↔◌, ◌≡◌, ◌∙◌, Bool, true, ◌&&◌, ◌||◌, ◌⊎◌, none, some, Text, text_eq, text_eq_iff,
  contains, if◌then◌else◌, arith,
}
use nest_auth.Redis.{Redis}
use nest_auth.Json.{Platform}
use nest_auth.Keys.{
  Plane, live, grace, family, index, Slot, key, session_index_key, user_subject, prefixes_for,
}
use nest_auth.Keys.Apart.{same_slot, text_eq-slot}
use nest_auth.AuthRedis.Scripts.Creation.{get-create_session, mem-create_session}
use nest_auth.AuthRedis.Sweeps.Shrinks.{Shrinks, Shrinks-some}
use nest_auth.AuthRedis.Sessions.{NewSession, write_new_session}

abbrev pub swept_slot : Slot → Bool
swept_slot a = same_slot live a || same_slot grace a

-- `own` tells the digest of the user for whom a token's hash was minted.
module _ (r : Redis) (k : Plane) (own : Text → Text) where
  open r use {Store, get, smembers}

  pub record IsIndexed (s : Store) : Type 0 where
    pub named :
        (a : Slot) (h v : Text)
        → swept_slot a ≡ true
        → get s (key k a h) ≡ some v
        → contains (smembers s (key k index (own h))) (key k a h) ≡ true
    pub owned :
        (a : Slot) (u h : Text)
        → swept_slot a ≡ true
        → contains (smembers s (key k index u)) (key k a h) ≡ true
        → own h ≡ u

  -- A step that only takes away: what an index no longer names is gone.
  pub record IsSafe (s s' : Store) : Type 0 where
    pub shrinks : Shrinks r s s'
    pub forgets :
        (a : Slot) (u h : Text)
        → swept_slot a ≡ true
        → contains (smembers s (key k index u)) (key k a h) ≡ true
        → (contains (smembers s' (key k index u)) (key k a h) ≡ true) ⊎ (get s' (key k a h) ≡ none)
    pub adds_nothing :
        (a : Slot) (u h : Text)
        → swept_slot a ≡ true
        → contains (smembers s' (key k index u)) (key k a h) ≡ true
        → contains (smembers s (key k index u)) (key k a h) ≡ true

  pub IsSafe-IsIndexed : {s s' : Store} → IsSafe s s' → IsIndexed s → IsIndexed s'
  IsSafe-IsIndexed {s} {s'} safe w = record {
    named = λ a h v q e.
        let before = w.named a h v q (Shrinks-some r safe.shrinks (key k a h) v e) in
        ground (arith, safe.forgets a (own h) h q before);
    owned = λ a u h q c. w.owned a u h q (safe.adds_nothing a u h q c);
  }

module _ (env : Platform) (own : Text → Text) where
  open env use {redis, hmac, hmac_key}
  open env.redis use {Store, get, smembers}

  abbrev pub subject_of_new : NewSession → Text
  subject_of_new p = hmac (user_subject p.kind p.user_id p.tenant_id) hmac_key

  module _ (p : NewSession) (n : ℕ) (lasts : p.refresh_ttl ≡ suc n) (s : Store) where
    get-written :
        (a : Slot) (h : Text)
        → get (write_new_session env p s) (key p.kind a h) ≡ (
            if same_slot live a && text_eq p.token_hash h
            then some p.session_json
            else get s (key p.kind a h))
    unfolding write_new_session
    get-written a h = rw lasts (rw get-create_session (rw text_eq-slot (ground arith)))

    index-written :
        (u m : Text)
        → contains (smembers (write_new_session env p s) (key p.kind index u)) m ≡ (
            if text_eq (subject_of_new p) u
            then text_eq (key p.kind live p.token_hash) m
              || contains (smembers s (key p.kind index u)) m
            else contains (smembers s (key p.kind index u)) m)
    unfolding write_new_session session_index_key key
    index-written u m = rw lasts (
        mem-create_session redis (key p.kind live p.token_hash)
          (key p.kind index (subject_of_new p)) (key p.kind family p.family_id) p.session_json n
          p.family_id (prefixes_for p.kind live) p.token_hash s (key p.kind index u) m
          (rw text_eq-slot)
        ∙ (simp text_eq-slot))

    -- A session that is written under a hash minted for its user.
    pub write_new_session-IsIndexed :
        own p.token_hash ≡ subject_of_new p
        → IsIndexed redis p.kind own s
        → IsIndexed redis p.kind own (write_new_session env p s)
    write_new_session-IsIndexed mine w = record {
      named = λ a h v q e. named_written a h v q e (text_eq_iff p.token_hash h);
      owned = λ a u h q c. owned_written a u h q c;
    }
      where
        named_written :
            (a : Slot) (h v : Text)
            → swept_slot a ≡ true
            → get (write_new_session env p s) (key p.kind a h) ≡ some v
            → (text_eq p.token_hash h ≡ true) ↔ (p.token_hash ≡ h)
            → contains
                (smembers (write_new_session env p s) (key p.kind index (own h)))
                (key p.kind a h)
              ≡ true
        named_written live h v q e same = rw index-written (
            rw text_eq-slot (
              ground (
                arith,
                get-written live h,
                w.named live h v,
                text_eq_iff (subject_of_new p) (own h),
              )))
        named_written grace h v q e same =
            rw index-written
              (rw text_eq-slot (ground (arith, get-written grace h, w.named grace h v)))
        named_written _ h v q e same = cc

        owned_written :
            (a : Slot) (u h : Text)
            → swept_slot a ≡ true
            → contains (smembers (write_new_session env p s) (key p.kind index u)) (key p.kind a h)
              ≡ true
            → own h ≡ u
        owned_written live u h q c =
            let c' = index-written u (key p.kind live h) in
            ground (
              arith,
              c',
              text_eq-slot p.kind live live p.token_hash h,
              text_eq_iff p.token_hash h,
              text_eq_iff (subject_of_new p) u,
              w.owned live u h q,
            )
        owned_written grace u h q c =
            let c' = index-written u (key p.kind grace h) in
            ground (arith, c', text_eq-slot p.kind live grace p.token_hash h, w.owned grace u h q)
        owned_written _ u h q c = cc
