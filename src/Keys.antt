-- ===== src/Keys.antt =====
-- constants/user-keys.ts, constants/user-subject.ts and the prefix table of
-- redis/auth-redis.service.ts: the keys under which the server's state stands.
pub mod Subject
pub mod Apart
use nest_auth.Prelude.{
  ℕ, ◌+◌, ◌≡◌, refl, Bool, true, false, ◌&&◌, Option, none, some, [], ◌∷◌, ◌++◌, Text, codes, ltb,
  if◌then◌else◌,
}
use nest_auth.Prelude.Decimal.{decimal}

pub data Plane : Type 0 where
  dashboard platform : Plane

-- The names of the columns of `REFRESH_PREFIXES`.
pub data Slot : Type 0 where
  live grace consumed family index detail : Slot

-- `prefixesFor(kind)`, a column of the table.
abbrev pub prefixes_for : Plane → Slot → Text
prefixes_for dashboard live = codes "rt"
prefixes_for dashboard grace = codes "rp"
prefixes_for dashboard consumed = codes "cf"
prefixes_for dashboard family = codes "fam"
prefixes_for dashboard index = codes "sess"
prefixes_for dashboard detail = codes "sd"
prefixes_for platform live = codes "prt"
prefixes_for platform grace = codes "prp"
prefixes_for platform consumed = codes "pcf"
prefixes_for platform family = codes "pfam"
prefixes_for platform index = codes "psess"
prefixes_for platform detail = codes "psd"

-- `${p.slot}:${rest}`
unfoldable pub key : Plane → Slot → Text → Text
key kind slot rest = prefixes_for kind slot ++ b':' ∷ rest

-- The bytes that a character takes in UTF-8.
utf8_size : ℕ → ℕ
utf8_size c = if ltb c 0x80 then 1 else if ltb c 0x800 then 2 else if ltb c 0x10000 then 3 else 4

-- `Buffer.byteLength(text, 'utf8')`
unfoldable pub byte_length : Text → ℕ
unfolding utf8_size
byte_length [] = 0
byte_length (c ∷ t) = utf8_size c + byte_length t

-- `String(tenantId)`
abbrev pub tenant_text : Option Text → Text
tenant_text none = codes "undefined"
tenant_text (some t) = t

unfoldable pub user_subject : Plane → Text → Option Text → Text
user_subject platform user_id tenant_id = codes "platform:" ++ user_id
user_subject dashboard user_id tenant_id =
    let tenant = tenant_text tenant_id in
    codes "dashboard:" ++ decimal (byte_length tenant) ++ b':' ∷ (tenant ++ b':' ∷ user_id)

-- HMAC-SHA256 is a function of `node:crypto`: an argument `hmac` of what uses it.
unfoldable pub session_index_key : (Text → Text → Text) → Plane → Text → Text → Option Text → Text
session_index_key hmac plane user_id hmac_key tenant_id =
    key plane index (hmac (user_subject plane user_id tenant_id) hmac_key)

abbrev pub epoch_prefix : Plane → Text
epoch_prefix platform = codes "pep"
epoch_prefix dashboard = codes "ep"

unfoldable pub token_epoch_key : (Text → Text → Text) → Plane → Text → Text → Option Text → Text
token_epoch_key hmac plane user_id hmac_key tenant_id =
    epoch_prefix plane ++ b':' ∷ hmac (user_subject plane user_id tenant_id) hmac_key

-- constants/recent-auth.ts
unfoldable pub recent_auth_key : (Text → Text → Text) → Plane → Text → Text → Option Text → Text
recent_auth_key hmac plane user_id hmac_key tenant_id =
    codes "ra:" ++ hmac (user_subject plane user_id tenant_id) hmac_key
