-- ===== src/Libre/Digits.antt =====
-- The digits of a number, as libre prints it and as `atoi` reads it.
use smart_lock_intercom.Base.{
  ℕ, zero, suc, ◌+◌, ◌/◌, ◌%◌, ◌^◌, ◌≤◌, ◌<◌, ◌≡◌, ◌≢◌, refl, ap, ◌∙◌, [], ◌∷◌, Bytes, arith,
  length, ltb, if_intro, All,
}
use smart_lock_intercom.Base.Int.{ℤ, pos, negsuc}
use smart_lock_intercom.CString.{atoi}
use smart_lock_intercom.CString.Numbers.{IsDigit, horner, atoi-digits, atoi-negative}
use smart_lock_intercom.Libre.{decimal, decimal_digits, decimal_int, hex8, xdigit, hex_digits}

decimal_digits-IsDigit :
    (fuel n : ℕ) (acc : Bytes) → All IsDigit acc → All IsDigit (decimal_digits fuel n acc)
unfolding decimal_digits
decimal_digits-IsDigit zero n acc h = h
decimal_digits-IsDigit (suc fuel) n acc h =
    let digits = (b'0' + n % 10) ∷ acc in
    let d : All IsDigit digits = ((omega arith, omega arith), h) in
    if_intro (λ (s : Bytes). All IsDigit s) (ltb n 10) (λ _. d)
      (λ _. decimal_digits-IsDigit fuel (n / 10) digits d)

pub decimal-IsDigit : (n : ℕ) → All IsDigit (decimal n)
unfolding decimal
decimal-IsDigit n = decimal_digits-IsDigit 20 n [] tt

decimal_digits-length :
    (fuel n : ℕ) (acc : Bytes) → length (decimal_digits fuel n acc) ≤ fuel + length acc
unfolding decimal_digits
decimal_digits-length zero n acc = omega arith
decimal_digits-length (suc fuel) n acc =
    let digits = (b'0' + n % 10) ∷ acc in
    if_intro (λ (s : Bytes). length s ≤ suc fuel + length acc) (ltb n 10) (λ _. omega arith)
      (λ _. let ih = decimal_digits-length fuel (n / 10) digits in omega arith)

pub length-decimal : (n : ℕ) → length (decimal n) ≤ 20
unfolding decimal
length-decimal n = decimal_digits-length 20 n []

horner-decimal_digits :
    (fuel n : ℕ) (acc : Bytes) → n < 10 ^ fuel → horner 0 (decimal_digits fuel n acc) ≡ horner n acc
unfolding decimal_digits horner
horner-decimal_digits zero n acc lt = let e : n ≡ 0 = omega arith in rw e refl
horner-decimal_digits (suc fuel) n acc lt =
    let digits = (b'0' + n % 10) ∷ acc in
    let P = λ (s : Bytes). horner 0 s ≡ horner n acc in
    if_intro P (ltb n 10) (λ small. ap (λ k. horner k acc) (ground (arith, small)))
      (λ _.
        horner-decimal_digits fuel (n / 10) digits (omega (arith, lt))
        ∙ ap (λ k. horner k acc) (omega arith))

-- `atoi` reads back what is printed by `%u`.
pub atoi-decimal : (n : ℕ) → n < 10 ^ 20 → atoi (decimal n) ≡ pos n
unfolding decimal horner
atoi-decimal n lt =
    atoi-digits (decimal n) (decimal-IsDigit n) ∙ ap pos (horner-decimal_digits 20 n [] lt)

-- The size of an `int`, up to its sign.
abbrev pub magnitude : ℤ → ℕ
magnitude (pos n) = n
magnitude (negsuc m) = suc m

-- And by `%d`.
pub atoi-decimal_int : (z : ℤ) → magnitude z < 10 ^ 20 → atoi (decimal_int z) ≡ z
unfolding decimal_int decimal horner
atoi-decimal_int (pos n) lt = atoi-decimal n lt
atoi-decimal_int (negsuc m) lt =
    atoi-negative m (decimal (suc m)) (decimal-IsDigit (suc m))
      (horner-decimal_digits 20 (suc m) [] lt)

-- A printed number has none of the bytes below the minus.
pub decimal-Without : (c n : ℕ) → c < 45 → All (λ x. x ≢ c) (decimal n)
decimal-Without c n lt = digits (decimal n) (decimal-IsDigit n)
  where
    digits : (s : Bytes) → All IsDigit s → All (λ x. x ≢ c) s
    digits [] h = tt
    digits (d ∷ ds) h = ((λ e. absurd (omega (arith, h.0.0, e, lt))), digits ds h.1)

-- Not a CR, for one.
pub decimal-no_cr : (n : ℕ) → All (λ x. x ≢ 13) (decimal n)
decimal-no_cr n = decimal-Without 13 n (omega arith)

pub decimal_int-no_cr : (z : ℤ) → All (λ x. x ≢ 13) (decimal_int z)
unfolding decimal_int
decimal_int-no_cr (pos n) = decimal-no_cr n
decimal_int-no_cr (negsuc m) = ((λ e. absurd (omega (arith, e))), decimal-no_cr (suc m))

hex_digits-no_cr :
    (a width n : ℕ) (acc : Bytes)
    → 13 < a
    → All (λ x. x ≢ 13) acc
    → All (λ x. x ≢ 13) (hex_digits a width n acc)
unfolding hex_digits
hex_digits-no_cr a zero n acc lt h = h
hex_digits-no_cr a (suc width) n acc lt h =
    hex_digits-no_cr a width (n / 16) (xdigit a (n % 16) ∷ acc) lt (
      if_intro (λ (d : ℕ). d ≢ 13) (ltb (n % 16) 10) (λ _ e. absurd (omega (arith, e)))
          (λ _ e. absurd (omega (arith, e, lt))),
      h,
    )

pub hex8-no_cr : (a n : ℕ) → 13 < a → All (λ x. x ≢ 13) (hex8 a n)
unfolding hex8
hex8-no_cr a n lt = hex_digits-no_cr a 8 n [] lt tt

hex_digits-length :
    (a width n : ℕ) (acc : Bytes) → length (hex_digits a width n acc) ≡ width + length acc
unfolding hex_digits
hex_digits-length a zero n acc = omega arith
hex_digits-length a (suc width) n acc =
    hex_digits-length a width (n / 16) (xdigit a (n % 16) ∷ acc) ∙ omega arith

pub length-hex8 : (a n : ℕ) → length (hex8 a n) ≡ 8
unfolding hex8
length-hex8 a n = hex_digits-length a 8 n []
