-- ===== src/CString/Numbers.antt =====
-- What `atoi` reads of a text of digits.
use smart_lock_intercom.Base.{
  ℕ, suc, ◌+◌, ◌-◌, ◌*◌, ◌≤◌, ◌≡◌, refl, ap, ◌∙◌, true, false, [], ◌∷◌, Bytes, arith, ◌==◌, All,
}
use smart_lock_intercom.Base.Int.{pos, negsuc}
use smart_lock_intercom.CString.{
  is_digit, is_space, digits_value, negate, signed_value, skip_blank, atoi,
}

-- A decimal digit.
abbrev pub IsDigit : ℕ → Type 0
IsDigit c = (48 ≤ c) × (c ≤ 57)

-- The value of digits behind `acc`.
unfoldable pub horner : ℕ → Bytes → ℕ
horner acc [] = acc
horner acc (c ∷ cs) = horner (acc * 10 + (c - b'0')) cs

IsDigit-is_digit : (c : ℕ) → IsDigit c → is_digit c ≡ true
IsDigit-is_digit c h = ground (arith, h.0, h.1)

digits_value-horner : (acc : ℕ) (s : Bytes) → All IsDigit s → digits_value acc s ≡ horner acc s
unfolding digits_value horner
digits_value-horner acc [] h = refl
digits_value-horner acc (c ∷ cs) h =
    rw (IsDigit-is_digit c h.0) (digits_value-horner (acc * 10 + (c - b'0')) cs h.1)

digit_plain :
    (c : ℕ) → IsDigit c → (is_space c ≡ false) × ((c == b'-') ≡ false) × ((c == b'+') ≡ false)
digit_plain c h = (ground (arith, h.0, h.1), ground (arith, h.0, h.1), ground (arith, h.0, h.1))

pub atoi-digits : (s : Bytes) → All IsDigit s → atoi s ≡ pos (horner 0 s)
unfolding atoi signed_value skip_blank horner
atoi-digits [] h = refl
atoi-digits (c ∷ cs) h =
    let (space, minus, plus) = digit_plain c h.0 in
    rw (space, minus, plus) (ap pos (digits_value-horner 0 (c ∷ cs) h))

pub atoi-negative :
    (m : ℕ) (s : Bytes) → All IsDigit s → horner 0 s ≡ suc m → atoi (b'-' ∷ s) ≡ negsuc m
unfolding atoi signed_value skip_blank
atoi-negative m s h e = ap negate (digits_value-horner 0 s h ∙ e)
