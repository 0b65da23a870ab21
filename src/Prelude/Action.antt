-- ===== src/Prelude/Action.antt =====
-- Methods that read and write a state and may throw: what was written before a throw stays written.
use mathlib.Core.Path.{◌≡◌, refl}
use mathlib.Core.Bool.{Bool, true, false}
use mathlib.Core.Option.{Option, none, some}
use nest_auth.Prelude.Results.{ErrorCode, Result, ok, raise}

abbrev pub Action : Type 0 → Type 0 → Type 0
Action W A = W → Result A × W

module _ {W A : Type 0} where
  abbrev pub pure : A → Action W A
  pure a w = (ok a, w)

  abbrev pub throw : ErrorCode → Action W A
  throw code w = (raise code, w)

  abbrev pub or_throw : ErrorCode → Option A → Action W A
  or_throw code none = throw code
  or_throw code (some a) = pure a

  abbrev pub from_result : Result A → Action W A
  from_result r w = (r, w)

  -- A method that only reads.
  abbrev pub reads : (W → A) → Action W A
  reads f w = (ok (f w), w)

abbrev pub throw_if : {W : Type 0} → Bool → ErrorCode → Action W (Unit {0})
throw_if true code w = (raise code, w)
throw_if false code w = (ok tt, w)

unfoldable pub continue : {W A B : Type 0} → (A → Action W B) → Result A × W → Result B × W
continue f (ok a, w) = f a w
continue f (raise code, w) = (raise code, w)

infixl 5 ◌>>=◌ ◌>>◌
abbrev pub ◌>>=◌ : {W A B : Type 0} → Action W A → (A → Action W B) → Action W B
◌>>=◌ m f w = continue f (m w)

abbrev pub ◌>>◌ : {W B : Type 0} → Action W (Unit {0}) → Action W B → Action W B
m >> k = m >>= λ _. k

through_pair :
    {W A B C : Type 0} (p : Result A × W) (f : A → Action W B) {b : B} {w' : W}
    → continue f p ≡ (ok b, w')
    → ((a : A) (v : W) → p ≡ (ok a, v) → f a v ≡ (ok b, w') → C)
    → C
unfolding continue
through_pair (ok a, v) f h next = next a v refl h
through_pair (raise code, v) f h next = cc

-- What holds of a run that does not throw, from its first step and the rest.
pub through :
    {W A B C : Type 0} {p : Result A × W} {f : A → Action W B} {b : B} {w' : W}
    → continue f p ≡ (ok b, w')
    → ((a : A) (v : W) → p ≡ (ok a, v) → f a v ≡ (ok b, w') → C)
    → C
through {p} {f} h next = through_pair p f h next

-- A run goes on after a step that does not throw.
pub proceed :
    {W A B : Type 0} (f : A → Action W B) {p : Result A × W} (a : A) (v : W) {x : Result B × W}
    → p ≡ (ok a, v)
    → f a v ≡ x
    → continue f p ≡ x
unfolding continue
proceed f a v e h = rw e h

-- A run ends with a step that throws.
pub stop :
    {W A B : Type 0} (f : A → Action W B) {p : Result A × W} (code : ErrorCode) (v : W)
    → p ≡ (raise code, v)
    → continue f p ≡ (raise code, v)
unfolding continue
stop f code v e = rw e refl

pub throw_if_inv :
    {W : Type 0} (b : Bool) (code : ErrorCode) (w : W) {r : Unit {0}} {w' : W}
    → throw_if b code w ≡ (ok r, w')
    → (b ≡ false) × (w' ≡ w)
throw_if_inv true code w h = cc
throw_if_inv false code w h = (refl, cc)

pub or_throw_inv :
    {W A : Type 0} (code : ErrorCode) (o : Option A) (w : W) {a : A} {w' : W}
    → or_throw code o w ≡ (ok a, w')
    → (o ≡ some a) × (w' ≡ w)
or_throw_inv code none w h = cc
or_throw_inv code (some a) w h = (cc, cc)

-- A reply and the state that it comes with.
pub reply_inv :
    {W A : Type 0} (r : Result A) (w : W) {a : A} {w' : W}
    → ◌≡◌ {A = Result A × W} (r, w) (ok a, w')
    → (r ≡ ok a) × (w' ≡ w)
reply_inv r w h = (cc, cc)

pub pure_inv :
    {W A : Type 0} (x : A) (w : W) {a : A} {w' : W} → pure x w ≡ (ok a, w') → (a ≡ x) × (w' ≡ w)
pure_inv x w h = (cc, cc)
