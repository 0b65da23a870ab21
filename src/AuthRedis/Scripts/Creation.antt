-- ===== src/AuthRedis/Scripts/Creation.antt =====
-- What the scripts that write a session leave at a key and in a set.
use nest_auth.Prelude.{
  ℕ, suc, ◌≡◌, false, ◌||◌, inl, inr, some, [], ◌∷◌, ◌++◌, Text, text_eq, contains, if◌then◌else◌,
  Bool-cases,
}
use nest_auth.Redis.{Redis}
use nest_auth.AuthRedis.Scripts.{create_session}

module _ (r : Redis) (live_key index_key family_key json : Text) (ttl : ℕ)
    (family_id prefix hash : Text) where
  open r use {Store, get, smembers}

  abbrev created : Store → Store
  created s = create_session r live_key index_key family_key json (suc ttl) family_id prefix hash s

  pub get-create_session :
      (s : Store) (j : Text)
      → get (created s) j ≡ (if text_eq live_key j then some json else get s j)
  unfolding create_session
  get-create_session s j = elim (Bool-cases (text_eq family_id [])) [
    | inl alone ↦ rw alone (simp (r.get-expire, r.get-sadd, r.get-set))
    | inr lineage ↦ rw lineage (simp (r.get-expire, r.get-sadd, r.get-set))
  ]

  pub mem-create_session :
      (s : Store) (j x : Text)
      → text_eq family_key j ≡ false
      → contains (smembers (created s) j) x ≡ (
          if text_eq index_key j
          then text_eq (prefix ++ b':' ∷ hash) x
            || (if text_eq live_key j then false else contains (smembers s j) x)
          else if text_eq live_key j
          then false
          else contains (smembers s j) x)
  unfolding create_session
  mem-create_session s j x other = elim (Bool-cases (text_eq family_id [])) [
    | inl alone ↦ rw alone (simp (r.mem-expire, r.mem-sadd, r.mem-set))
    | inr lineage ↦ rw lineage (simp (r.mem-expire, r.mem-sadd, r.mem-set) (rw other))
  ]
