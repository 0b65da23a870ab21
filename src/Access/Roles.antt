-- ===== src/Access/Roles.antt =====
-- utils/roles.util.ts and guards/roles.guard.ts: the role hierarchy and the guard on roles. The
-- metadata and the role that the framework finds for a request are arguments.
use nest_auth.Prelude.{
  ◌≡◌, refl, Bool, true, false, ◌||◌, not, Option, none, some, List, [], ◌∷◌, Text, text_eq,
  text_eq_iff, contains, if◌then◌else◌, Result, ok, raise, insufficient_role, arith,
}

-- `Record<string, string[]>`, whose own keys are distinct; of two equal keys the first one counts.
pub data Hierarchy : Type 0 where
  no_roles : Hierarchy
  role : Text → List Text → Hierarchy → Hierarchy

-- `hierarchy[role]` where `Object.hasOwn(hierarchy, role)`
unfoldable pub inherited : Hierarchy → Text → Option (List Text)
inherited no_roles user_role = none
inherited (role name roles rest) user_role =
    if text_eq name user_role then some roles else inherited rest user_role

abbrev pub includes : Option (List Text) → Text → Bool
includes none required = false
includes (some roles) required = contains roles required

-- `hasRole`
unfoldable pub has_role : Text → Text → Hierarchy → Bool
unfolding inherited
has_role user_role required hierarchy =
    text_eq user_role required || includes (inherited hierarchy user_role) required

unfoldable pub has_one_of : Text → List Text → Hierarchy → Bool
unfolding has_role
has_one_of user_role [] hierarchy = false
has_one_of user_role (required ∷ rest) hierarchy =
    has_role user_role required hierarchy || has_one_of user_role rest hierarchy

-- `RolesGuard.canActivate`; a request without a user, or with an empty role, has no role
unfoldable pub roles_guard : Option (List Text) → Option Text → Hierarchy → Result Bool
unfolding has_one_of
roles_guard none user_role hierarchy = ok true
roles_guard (some []) user_role hierarchy = ok true
roles_guard (some (required ∷ rest)) none hierarchy = raise insufficient_role
roles_guard (some (required ∷ rest)) (some user_role) hierarchy =
    if text_eq user_role [] || not (has_one_of user_role (required ∷ rest) hierarchy)
    then raise insufficient_role
    else ok true

-- Every role inherits what those inherit that it inherits.
abbrev pub IsDenormalized : Hierarchy → Type 0
IsDenormalized hierarchy =
    (a b c : Text)
    → includes (inherited hierarchy a) b ≡ true
    → includes (inherited hierarchy b) c ≡ true
    → includes (inherited hierarchy a) c ≡ true

has_role-inherits :
    (hierarchy : Hierarchy) (junior senior required : Text)
    → IsDenormalized hierarchy
    → has_role senior junior hierarchy ≡ true
    → has_role junior required hierarchy ≡ true
    → has_role senior required hierarchy ≡ true
unfolding has_role
has_role-inherits hierarchy junior senior required closed above h =
    ground
      (arith, closed senior junior required, text_eq_iff senior junior, text_eq_iff junior required)

has_one_of-inherits :
    (hierarchy : Hierarchy) (junior senior : Text) (l : List Text)
    → IsDenormalized hierarchy
    → has_role senior junior hierarchy ≡ true
    → has_one_of junior l hierarchy ≡ true
    → has_one_of senior l hierarchy ≡ true
unfolding has_one_of
has_one_of-inherits hierarchy junior senior [] closed above h = h
has_one_of-inherits hierarchy junior senior (x ∷ l) closed above h = ground (
  arith,
  has_role-inherits hierarchy junior senior x closed above,
  has_one_of-inherits hierarchy junior senior l closed above,
)

-- In a hierarchy in which every role inherits what those inherit that it inherits, a named role
-- that has another one passes RolesGuard wherever that other role passes.
pub roles_guard-inherits :
    (hierarchy : Hierarchy) (required : List Text) (junior senior : Text)
    → IsDenormalized hierarchy
    → has_role senior junior hierarchy ≡ true
    → text_eq senior [] ≡ false
    → roles_guard (some required) (some junior) hierarchy ≡ ok true
    → roles_guard (some required) (some senior) hierarchy ≡ ok true
unfolding roles_guard
roles_guard-inherits hierarchy [] junior senior closed above named granted = refl
roles_guard-inherits hierarchy (r ∷ rest) junior senior closed above named granted =
    ground (arith, has_one_of-inherits hierarchy junior senior (r ∷ rest) closed above)
