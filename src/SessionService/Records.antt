-- ===== src/SessionService/Records.antt =====
-- services/session.service.ts: the detail record of a session and what it is made of.
use nest_auth.Prelude.{
  ◌>>=◌, ℕ, Bool, true, ◌&&◌, ◌||◌, Option, none, some, [], ◌∷◌, ◌++◌, Text, codes, starts_with,
  length, leb, ltb, ◌==◌, if◌then◌else◌,
}
use nest_auth.Json.{Json, num, str, Fields, end, field, as_string, as_number, member}

-- `StoredSessionDetail`
pub record StoredSessionDetail : Type 0 where
  pub device : Text
  pub ip : Text
  pub created_at : ℕ
  pub last_activity_at : ℕ

-- MAX_IP_LENGTH
abbrev pub max_ip_length : ℕ
max_ip_length = 45

abbrev is_hex : ℕ → Bool
is_hex c = (leb b'a' c && leb c b'f') || (leb b'0' c && leb c b'9')

all_hex : Text → Bool
all_hex [] = true
all_hex (c ∷ t) = is_hex c && all_hex t

-- SESSION_HASH_RE; `assertValidSessionHash` throws where this is false.
unfoldable pub is_valid_session_hash : Text → Bool
unfolding all_hex
is_valid_session_hash hash = length hash == 64 && all_hex hash

-- `pattern.test(text)` for a pattern without operators
unfoldable pub occurs : Text → Text → Bool
occurs pattern [] = starts_with pattern []
occurs pattern (c ∷ t) = starts_with pattern (c ∷ t) || occurs pattern t

browser_of : Text → Text
browser_of ua =
    if occurs (codes "Edg/") ua
    then codes "Edge"
    else if occurs (codes "OPR/") ua || occurs (codes "Opera") ua
    then codes "Opera"
    else if occurs (codes "Chrome/") ua
    then codes "Chrome"
    else if occurs (codes "Firefox/") ua
    then codes "Firefox"
    else if occurs (codes "Safari/") ua && occurs (codes "Version/") ua
    then codes "Safari"
    else codes "Unknown Browser"

os_of : Text → Text
os_of ua =
    if occurs (codes "Android") ua
    then codes "Android"
    else if occurs (codes "iPhone") ua || (occurs (codes "iPad") ua || occurs (codes "iPod") ua)
    then codes "iOS"
    else if occurs (codes "Windows") ua
    then codes "Windows"
    else if occurs (codes "Macintosh") ua || occurs (codes "Mac OS X") ua
    then codes "macOS"
    else if occurs (codes "Linux") ua
    then codes "Linux"
    else codes "Unknown OS"

unfoldable pub parse_user_agent : Text → Text
unfolding browser_of os_of
parse_user_agent ua = browser_of ua ++ codes " on " ++ os_of ua

unfoldable pub detail_fields : StoredSessionDetail → Fields
detail_fields d = field (codes "device") (str d.device) (
    field (codes "ip") (str d.ip) (
      field (codes "createdAt") (num d.created_at)
        (field (codes "lastActivityAt") (num d.last_activity_at) end)))

-- `parseStoredDetail` on a parsed value
unfoldable pub detail_in : Json → Option StoredSessionDetail
detail_in parsed = do
  device ← as_string (member (codes "device") parsed)
  ip ← as_string (member (codes "ip") parsed)
  created_at ← as_number (member (codes "createdAt") parsed)
  last_activity_at ← as_number (member (codes "lastActivityAt") parsed)
  some (record {
    device = device;
    ip = ip;
    created_at = created_at;
    last_activity_at = last_activity_at;
  })

-- What the session limit of a user is resolved from: no resolver is configured, or the user is not
-- found, or the resolver throws, or it answers with no whole number, or with a whole number.
pub data Resolution : Type 0 where
  unconfigured no_user thrown not_whole : Resolution
  whole : ℕ → Resolution

unfoldable pub resolve_session_limit : ℕ → Resolution → ℕ
resolve_session_limit default_max_sessions (whole n) = if ltb n 1 then default_max_sessions else n
resolve_session_limit default_max_sessions _ = default_max_sessions

-- The creation time in a parsed record, where it has one.
abbrev pub created_in : Option Json → Option ℕ
created_in none = none
created_in (some parsed) = as_number (member (codes "createdAt") parsed)

abbrev pub or_number : Option ℕ → ℕ → ℕ
or_number none n = n
or_number (some m) n = m
