-- ===== src/Redis/Namespace.antt =====
-- redis/auth-redis.service.ts, the thin operations: each puts its key behind the namespace. They
-- are a server with the same laws again, since two keys are the same behind the same namespace only
-- if they are the same; the scripts, whose keys `eval` prefixes in the same way, run on that server.
use nest_auth.Prelude.{◌≡◌, ◌++◌, Text, text_eq, text_eq-append, codes}
use nest_auth.Redis.Interface.{Redis}

-- `${this.namespace}:${key}`
unfoldable pub prefix : Text → Text → Text
prefix namespace key = namespace ++ (codes ":" ++ key)

pub text_eq-prefix : (ns k j : Text) → text_eq (prefix ns k) (prefix ns j) ≡ text_eq k j
unfolding prefix
text_eq-prefix ns k j = text_eq-append ns (codes ":" ++ k) (codes ":" ++ j)

module _ (r : Redis) (ns : Text) where
  abbrev pub namespaced : Redis
  namespaced = record {
    Store = r.Store;
    get = λ s k. r.get s (prefix ns k);
    smembers = λ s k. r.smembers s (prefix ns k);
    ttl = λ s k. r.ttl s (prefix ns k);
    set = λ s k v t. r.set s (prefix ns k) v t;
    del = λ s k. r.del s (prefix ns k);
    sadd = λ s k m. r.sadd s (prefix ns k) m;
    srem = λ s k m. r.srem s (prefix ns k) m;
    expire = λ s k t. r.expire s (prefix ns k) t;
    incr = λ s k. r.incr s (prefix ns k);
    distinct-smembers = λ s k. r.distinct-smembers s (prefix ns k);
    get-set = λ s k v t j. rw (r.get-set, text_eq-prefix);
    get-del = λ s k j. rw (r.get-del, text_eq-prefix);
    get-sadd = λ s k m j. r.get-sadd s (prefix ns k) m (prefix ns j);
    get-srem = λ s k m j. r.get-srem s (prefix ns k) m (prefix ns j);
    get-expire = λ s k t j. r.get-expire s (prefix ns k) t (prefix ns j);
    mem-set = λ s k v t j x. rw (r.mem-set, text_eq-prefix);
    mem-del = λ s k j x. rw (r.mem-del, text_eq-prefix);
    mem-sadd = λ s k m j x. rw (r.mem-sadd, text_eq-prefix);
    mem-srem = λ s k m j x. rw (r.mem-srem, text_eq-prefix);
    mem-expire = λ s k t j x. r.mem-expire s (prefix ns k) t (prefix ns j) x;
    mem-incr = λ s k j x. r.mem-incr s (prefix ns k) (prefix ns j) x;
    get-incr = λ s k j. rw (r.get-incr, text_eq-prefix);
    incr_absent = λ s k h. r.incr_absent s (prefix ns k) h;
    incr_counter = λ s k n h. r.incr_counter s (prefix ns k) n h;
    ttl-set = λ s k v t j. rw (r.ttl-set, text_eq-prefix);
    ttl-del = λ s k j. rw (r.ttl-del, text_eq-prefix);
    ttl-expire_string = λ s k t j h. rw (r.ttl-expire_string _ _ _ _ h, text_eq-prefix);
    ttl-incr = λ s k j. r.ttl-incr s (prefix ns k) (prefix ns j);
  }
