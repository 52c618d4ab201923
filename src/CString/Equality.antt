-- ===== src/CString/Equality.antt =====
-- The comparisons of C strings, as tests of equality.
use smart_lock_intercom.Base.{◌≡◌, ◌↔◌, refl, true, ◌∷◌, Bytes, arith}
use smart_lock_intercom.CString.{str_eq}

pub str_eq_iff : (a b : Bytes) → (str_eq a b ≡ true) ↔ (a ≡ b)
unfolding str_eq
str_eq_iff (x ∷ a) (y ∷ b) = ground (arith, str_eq_iff a b)
str_eq_iff _ _ = ground arith

pub str_eq_refl : (a : Bytes) → str_eq a a ≡ true
str_eq_refl a = (str_eq_iff a a).1 refl
