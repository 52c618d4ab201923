-- ===== src/Libre.antt =====
-- The text formatting of libre that the program's strings depend on: `re_snprintf` of
-- re-4.6.0/src/fmt/print.c, given the pieces that the format makes (the text between conversions,
-- and what each conversion prints).
pub mod Whole
pub mod Digits
use smart_lock_intercom.Base.{
  ℕ, zero, suc, ◌+◌, ◌-◌, ◌/◌, ◌%◌, List, [], ◌∷◌, ◌++◌, Bytes, ltb, if◌then◌else◌, length,
}
use smart_lock_intercom.Base.Int.{ℤ, pos, negsuc}

-- `print_handler` under the loop of `vhprintf`: a piece that does not fit whole ends the output.
-- `room` is `pl->l`.
unfoldable pub print_pieces : ℕ → List Bytes → Bytes
print_pieces room [] = []
print_pieces room (p ∷ ps) =
    let rest = p ++ print_pieces (room - length p) ps in if ltb room (length p) then [] else rest

abbrev pub concat : List Bytes → Bytes
concat [] = []
concat (p ∷ ps) = p ++ concat ps

-- The C string left in a buffer of `size` bytes.
abbrev pub snprintf : ℕ → List Bytes → Bytes
snprintf size ps = print_pieces (size - 1) ps

-- `local_itoa` in base 10: the digits of `n` before `acc`. Fuel: 20 digits are enough for a
-- `uint64_t`.
decimal_digits : ℕ → ℕ → Bytes → Bytes
decimal_digits zero n acc = acc
decimal_digits (suc fuel) n acc =
    let digits = (b'0' + n % 10) ∷ acc in
    let more = decimal_digits fuel (n / 10) digits in if ltb n 10 then digits else more

-- `%u`.
unfoldable pub decimal : ℕ → Bytes
unfolding decimal_digits
decimal n = decimal_digits 20 n []

-- `%d`.
unfoldable pub decimal_int : ℤ → Bytes
decimal_int (pos n) = decimal n
decimal_int (negsuc m) = b'-' ∷ decimal (suc m)

abbrev xdigit : ℕ → ℕ → ℕ
xdigit a d = if ltb d 10 then b'0' + d else a + (d - 10)

-- `local_itoa` in base 16 under `write_padded` with zeros, for a number of at most `width` digits;
-- `a` is the digit of ten.
hex_digits : ℕ → ℕ → ℕ → Bytes → Bytes
hex_digits a zero n acc = acc
hex_digits a (suc width) n acc = hex_digits a width (n / 16) (xdigit a (n % 16) ∷ acc)

-- `%08x` and `%08X` of a 32-bit number.
unfoldable pub hex8 : ℕ → ℕ → Bytes
unfolding hex_digits
hex8 a n = hex_digits a 8 n []
