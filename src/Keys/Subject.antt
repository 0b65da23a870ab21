-- ===== src/Keys/Subject.antt =====
-- The subject under which a user's keys are derived names the user: no two users share it.
use nest_auth.Prelude.{
  ℕ, ◌≢◌, ◌<◌, ◌≡◌, refl, ap, sym, ◌∙◌, Option, some, [], ◌∷◌, ◌++◌, Text, codes, arith,
  split_first, split_first-append,
}
use nest_auth.Prelude.Decimal.{decimal, decimal-Free, decimal-injective}
use mathlib.Core.Option.{some-injective}
use nest_auth.Keys.{dashboard, platform, utf8_size, byte_length, tenant_text, user_subject}

utf8_size_pos : (c : ℕ) → 0 < utf8_size c
unfolding utf8_size
utf8_size_pos c = ground arith

-- Two prefixes of one text that take as many bytes are the same.
prefix-injective :
    (a b x y : Text) → byte_length a ≡ byte_length b → a ++ x ≡ b ++ y → (a ≡ b) × (x ≡ y)
unfolding byte_length
prefix-injective [] [] x y n e = (refl, e)
prefix-injective [] (c ∷ b) x y n e = absurd (omega (arith, utf8_size_pos c))
prefix-injective (c ∷ a) [] x y n e = absurd (omega (arith, utf8_size_pos c))
prefix-injective (c ∷ a) (d ∷ b) x y n e =
    let same : c ≡ d = cc in
    let tails : a ++ x ≡ b ++ y = cc in
    let sizes : utf8_size c ≡ utf8_size d = ap utf8_size same in
    let rest = prefix-injective a b x y (omega arith) tails in (cc, rest.1)

after_decimal :
    (m n : ℕ) (x y : Text) → decimal m ++ b':' ∷ x ≡ decimal n ++ b':' ∷ y → (m ≡ n) × (x ≡ y)
after_decimal m n x y e =
    let both : ◌≡◌ {A = Option (Text × Text)} (some (decimal m, x)) (some (decimal n, y)) =
      sym (split_first-append b':' (decimal m) x (decimal-Free m))
      ∙ ap (split_first b':') e
      ∙ split_first-append b':' (decimal n) y (decimal-Free n) in
    let pair = some-injective _ _ both in
    (decimal-injective m n (ap (λ (p : Text × Text). p.0) pair), ap (λ (p : Text × Text). p.1) pair)

drop_prefix : (p x y : Text) → p ++ x ≡ p ++ y → x ≡ y
drop_prefix [] x y e = e
drop_prefix (c ∷ p) x y e = drop_prefix p x y (cc)

drop_colon : (x y : Text) → ◌≡◌ {A = Text} (b':' ∷ x) (b':' ∷ y) → x ≡ y
drop_colon x y e = cc

abbrev first_code : Text → ℕ
first_code [] = 0
first_code (c ∷ t) = c

d_ne_p : (x y : Text) → ◌≢◌ {A = Text} (b'd' ∷ x) (b'p' ∷ y)
d_ne_p x y e = omega (arith, ap first_code e)

dashboard_rest :
    (a b u v : Text)
    → decimal (byte_length a) ++ b':' ∷ (a ++ b':' ∷ u)
      ≡ decimal (byte_length b) ++ b':' ∷ (b ++ b':' ∷ v)
    → (u ≡ v) × (a ≡ b)
dashboard_rest a b u v e =
    let (sizes, tails) = after_decimal (byte_length a) (byte_length b) _ _ e in
    let (tenants, users) = prefix-injective a b (b':' ∷ u) (b':' ∷ v) sizes tails in
    (drop_colon u v users, tenants)

-- Two users of the dashboard plane that have the same subject have the same id and the same tenant,
-- whatever characters the ids hold; two of the platform plane have the same id; and no user of one
-- plane has the subject of a user of the other.
pub user_subject-injective :
    (u v : Text) (s t : Option Text)
    → (user_subject dashboard u s ≡ user_subject dashboard v t
        → (u ≡ v) × (tenant_text s ≡ tenant_text t))
      × (user_subject platform u s ≡ user_subject platform v t → u ≡ v)
      × (user_subject dashboard u s ≢ user_subject platform v t)
unfolding user_subject
user_subject-injective u v s t = (
  λ e. dashboard_rest (tenant_text s) (tenant_text t) u v (drop_prefix (codes "dashboard:") _ _ e),
  λ e. drop_prefix (codes "platform:") u v e,
  λ e. d_ne_p _ _ e,
)
