-- ===== src/Json.antt =====
-- JSON values, as `JSON.parse` gives them and `JSON.stringify` takes them, and the primitives of the
-- platform that the server calls: the two JSON functions and the two digests of `node:crypto`.
use nest_auth.Prelude.{
  ℕ, ◌≡◌, Bool, Option, none, some, List, [], ◌∷◌, Text, text_eq, if◌then◌else◌,
}
use nest_auth.Redis.{Redis}

-- The server writes whole numbers only.
mutual
  pub data Json : Type 0 where
    null : Json
    bool : Bool → Json
    num : ℕ → Json
    str : Text → Json
    obj : Fields → Json
    arr : Items → Json

  pub data Fields : Type 0 where
    end : Fields
    field : Text → Json → Fields → Fields

  pub data Items : Type 0 where
    nil : Items
    item : Json → Items → Items

-- `record[name]` of an object; `none` is `undefined`.
unfoldable pub find : Text → Fields → Option Json
find name end = none
find name (field k v fs) = if text_eq k name then some v else find name fs

-- `(parsed as Record<string, unknown>)[name]`: a scalar has no such member, and on `null` the access
-- throws, which every caller treats as a missing member.
unfoldable pub member : Text → Json → Option Json
unfolding find
member name (obj fs) = find name fs
member name _ = none

-- `Array.isArray(v) && v.every((item) => typeof item === 'string')`
unfoldable pub texts_in : Items → Option (List Text)
texts_in nil = some []
texts_in (item (str t) rest) = elim (texts_in rest) [ none ↦ none | some texts ↦ some (t ∷ texts) ]
texts_in (item _ rest) = none

abbrev pub as_texts : Option Json → Option (List Text)
as_texts (some (arr items)) = texts_in items
as_texts _ = none

-- `typeof v === 'string'`
abbrev pub as_string : Option Json → Option Text
as_string (some (str t)) = some t
as_string _ = none

abbrev pub as_number : Option Json → Option ℕ
as_number (some (num n)) = some n
as_number _ = none

abbrev pub as_bool : Option Json → Option Bool
as_bool (some (bool b)) = some b
as_bool _ = none

-- The server's surroundings. What is parsed back is what was written, and the text of an object begins
-- with a brace.
pub record Platform : Type 1 where
  pub redis : Redis
  pub sha256 : Text → Text
  pub hmac : Text → Text → Text
  pub hmac_key : Text
  pub stringify : Json → Text
  pub parse : Text → Option Json
  pub parse-stringify : (j : Json) → parse (stringify j) ≡ some j
  pub object_brace : (fs : Fields) → (t : Text) × (stringify (obj fs) ≡ b'{' ∷ t)
