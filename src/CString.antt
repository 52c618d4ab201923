-- ===== src/CString.antt =====
-- The C string functions that the sources call, over lists of bytes: a pointer into a string is
-- the text from it on, and a search gives the text before its hit too, which pointer differences
-- measure. No code of the repository is modelled here.
pub mod Find
pub mod Equality
pub mod Numbers
use Prim.Native.Char.{code}
use Prim.Native.String.{String}
use smart_lock_intercom.Base.{
  ℕ, zero, suc, ◌+◌, ◌-◌, ◌*◌, ◌<◌, Bool, true, false, ◌&&◌, ◌||◌, not, Option, some, none, List,
  [], ◌∷◌, ◌++◌, Bytes, leb, ◌==◌, if◌then◌else◌, take,
}
use smart_lock_intercom.Base.Int.{ℤ, pos, negsuc}

-- The bytes of an ASCII literal.
abbrev pub codes : String → Bytes
codes String.[] = []
codes (String.◌∷◌ c s) = code c ∷ codes s

-- What a C function reads of a buffer: the bytes before the first NUL.
unfoldable pub c_str : Bytes → Bytes
c_str [] = []
c_str (c ∷ cs) = if c == 0 then [] else c ∷ c_str cs

-- `strcmp(s, t) == 0`.
unfoldable pub str_eq : Bytes → Bytes → Bool
str_eq [] [] = true
str_eq (x ∷ xs) (y ∷ ys) = x == y && str_eq xs ys
str_eq _ _ = false

-- `strncmp(s, p, strlen(p)) == 0`.
unfoldable pub has_prefix : Bytes → Bytes → Bool
has_prefix s [] = true
has_prefix [] (y ∷ p) = false
has_prefix (x ∷ s) (y ∷ p) = x == y && has_prefix s p

abbrev pub within : ℕ → ℕ → ℕ → Bool
within lo hi c = leb lo c && leb c hi

unfoldable pub to_lower : ℕ → ℕ
to_lower c = if within b'A' b'Z' c then c + 32 else c

-- `strncasecmp(s, p, strlen(p)) == 0`.
unfoldable pub has_prefix_nocase : Bytes → Bytes → Bool
unfolding to_lower
has_prefix_nocase s [] = true
has_prefix_nocase [] (y ∷ p) = false
has_prefix_nocase (x ∷ s) (y ∷ p) = to_lower x == to_lower y && has_prefix_nocase s p

-- `strcasecmp(s, t) == 0`.
unfoldable pub str_eq_nocase : Bytes → Bytes → Bool
unfolding to_lower
str_eq_nocase [] [] = true
str_eq_nocase (x ∷ xs) (y ∷ ys) = to_lower x == to_lower y && str_eq_nocase xs ys
str_eq_nocase _ _ = false

abbrev pub put_before : ℕ → Option (Bytes × Bytes) → Option (Bytes × Bytes)
put_before c none = none
put_before c (some (before, at)) = some (c ∷ before, at)

-- `strstr(s, p)`: the text before the first occurrence, and the text from it on.
unfoldable pub strstr : Bytes → Bytes → Option (Bytes × Bytes)
unfolding has_prefix
strstr [] p = if has_prefix [] p then some ([], []) else none
strstr (c ∷ cs) p = if has_prefix (c ∷ cs) p then some ([], c ∷ cs) else put_before c (strstr cs p)

-- `strchr(s, c)` and `memchr`, likewise.
unfoldable pub strchr : Bytes → ℕ → Option (Bytes × Bytes)
strchr [] c = none
strchr (x ∷ xs) c = if x == c then some ([], x ∷ xs) else put_before x (strchr xs c)

-- `strrchr(s, c)`: the text from the last occurrence on.
unfoldable pub strrchr : Bytes → ℕ → Option Bytes
strrchr [] c = none
strrchr (x ∷ xs) c = elim (strrchr xs c) [
  | some at ↦ some at
  | none ↦ if x == c then some (x ∷ xs) else none
]

-- `while (*s == ' ') s++`.
unfoldable pub skip_spaces : Bytes → Bytes
skip_spaces [] = []
skip_spaces (c ∷ cs) = if c == b' ' then skip_spaces cs else c ∷ cs

-- Copy into an array of `sz` chars: at most `sz - 1` bytes, and a NUL.
abbrev pub str_ncpy : ℕ → Bytes → Bytes
str_ncpy sz s = take (sz - 1) s

abbrev is_digit : ℕ → Bool
is_digit c = within b'0' b'9' c

abbrev pub is_space : ℕ → Bool
is_space c = c == b' ' || within 9 13 c

digits_value : ℕ → Bytes → ℕ
digits_value acc [] = acc
digits_value acc (c ∷ cs) =
    let rest = digits_value (acc * 10 + (c - b'0')) cs in if is_digit c then rest else acc

abbrev negate : ℕ → ℤ
negate zero = pos 0
negate (suc n) = negsuc n

signed_value : Bytes → ℤ
unfolding digits_value
signed_value [] = pos 0
signed_value (c ∷ cs) =
    if c == b'-'
    then negate (digits_value 0 cs)
    else if c == b'+'
    then pos (digits_value 0 cs)
    else pos (digits_value 0 (c ∷ cs))

skip_blank : Bytes → Bytes
skip_blank [] = []
skip_blank (c ∷ cs) = if is_space c then skip_blank cs else c ∷ cs

-- `atoi(s)`, without the undefined overflow of `int`.
unfoldable pub atoi : Bytes → ℤ
unfolding signed_value skip_blank
atoi s = signed_value (skip_blank s)
