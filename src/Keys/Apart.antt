-- ===== src/Keys/Apart.antt =====
-- Keys of different planes or prefixes are different, and keys of one prefix are as their rests.
use nest_auth.Prelude.{◌≡◌, refl, Bool, true, false, Text, text_eq, if◌then◌else◌}
use nest_auth.Keys.{
  Plane, dashboard, platform, Slot, live, grace, consumed, family, index, detail, key,
}

abbrev pub same_plane : Plane → Plane → Bool
same_plane dashboard dashboard = true
same_plane platform platform = true
same_plane _ _ = false

abbrev pub same_slot : Slot → Slot → Bool
same_slot live live = true
same_slot grace grace = true
same_slot consumed consumed = true
same_slot family family = true
same_slot index index = true
same_slot detail detail = true
same_slot _ _ = false

pub text_eq-key :
    (p q : Plane) (a b : Slot) (x y : Text)
    → text_eq (key p a x) (key q b y)
      ≡ (if same_plane p q then (if same_slot a b then text_eq x y else false) else false)
unfolding key
text_eq-key dashboard dashboard live live x y = refl
text_eq-key dashboard dashboard grace grace x y = refl
text_eq-key dashboard dashboard consumed consumed x y = refl
text_eq-key dashboard dashboard family family x y = refl
text_eq-key dashboard dashboard index index x y = refl
text_eq-key dashboard dashboard detail detail x y = refl
text_eq-key dashboard platform live live x y = refl
text_eq-key dashboard platform grace grace x y = refl
text_eq-key dashboard platform consumed consumed x y = refl
text_eq-key dashboard platform family family x y = refl
text_eq-key dashboard platform index index x y = refl
text_eq-key dashboard platform detail detail x y = refl
text_eq-key platform dashboard live live x y = refl
text_eq-key platform dashboard grace grace x y = refl
text_eq-key platform dashboard consumed consumed x y = refl
text_eq-key platform dashboard family family x y = refl
text_eq-key platform dashboard index index x y = refl
text_eq-key platform dashboard detail detail x y = refl
text_eq-key platform platform live live x y = refl
text_eq-key platform platform grace grace x y = refl
text_eq-key platform platform consumed consumed x y = refl
text_eq-key platform platform family family x y = refl
text_eq-key platform platform index index x y = refl
text_eq-key platform platform detail detail x y = refl
text_eq-key _ _ _ _ x y = refl

-- On one plane.
pub text_eq-slot :
    (p : Plane) (a b : Slot) (x y : Text)
    → text_eq (key p a x) (key p b y) ≡ (if same_slot a b then text_eq x y else false)
text_eq-slot dashboard a b x y = text_eq-key dashboard dashboard a b x y
text_eq-slot platform a b x y = text_eq-key platform platform a b x y
