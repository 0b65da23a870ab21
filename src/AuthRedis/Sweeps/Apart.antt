-- ===== src/AuthRedis/Sweeps/Apart.antt =====
-- redis/auth-redis.service.ts: the sweep of a session index touches no string but those of sessions.
use nest_auth.Prelude.{◌≡◌, refl, ◌∙◌, false, inl, inr, List, [], ◌∷◌, Text, text_eq, Bool-cases}
use nest_auth.Redis.{Redis, exists_set}
use nest_auth.Keys.{Plane, Slot, live, grace, index, detail, key}
use nest_auth.AuthRedis.Sweeps.Members.{
  lead, one, Kind, is_live, is_grace, is_other, Kind-cases, one_other, get-one_live, get-one_grace,
}
use nest_auth.AuthRedis.Sweeps.{sweep_members, sweep_session_index}
use nest_auth.AuthRedis.Sweeps.Effects.{sweep}

module _ (r : Redis) (k : Plane) (u : Text) (j : Text)
    (apart : (a : Slot) (x : Text) → text_eq (key k a x) j ≡ false) where
  open r use {Store, get, smembers, del}

  get-one_apart : (m : Text) (s : Store) → get (one r k u m s) j ≡ get s j
  get-one_apart m s = of_kind (Kind-cases r k u m)
    where
      of_kind : Kind r k u m → get (one r k u m s) j ≡ get s j
      of_kind (is_live x e) = rw (e, get-one_live r k u x s j, apart detail x, apart live x) refl
      of_kind (is_grace x e) = rw (e, get-one_grace r k u x s j, apart grace x) refl
      of_kind (is_other h g) = rw (one_other r k u m s h g) refl

  get-sweep_members_apart :
      (l : List Text) (s : Store)
      → get (sweep_members r (key k index u) (lead k live) (lead k grace) (lead k detail) l s) j
        ≡ get s j
  unfolding sweep_members
  get-sweep_members_apart [] s = refl
  get-sweep_members_apart (m ∷ l) s = get-sweep_members_apart l (one r k u m s) ∙ get-one_apart m s

  pub get-sweep_apart : (s : Store) → get (sweep r k u s) j ≡ get s j
  unfolding sweep_session_index
  get-sweep_apart s =
      let swept =
        sweep_members r (key k index u) (lead k live) (lead k grace) (lead k detail)
          (smembers s (key k index u)) s in
      let kept = get-sweep_members_apart (smembers s (key k index u)) s in
      elim (Bool-cases (exists_set (smembers swept (key k index u)))) [
        | inl left ↦ rw left kept
        | inr empty ↦ rw empty (r.get-del swept (key k index u) j ∙ rw (apart index u) kept)
      ]
