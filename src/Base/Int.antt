-- ===== src/Base/Int.antt =====
-- Signed integers over the native numbers, and their conversion to unsigned words.
use Prim.Native.Nat.{ℕ, suc, ◌-◌, ◌%◌, ◌^◌}

-- `negsuc n` is -(n + 1).
pub data ℤ : Type 0 where
  pos : ℕ → ℤ
  negsuc : ℕ → ℤ

-- The C conversion to an unsigned type of `w` bits: the value modulo 2 ^ w.
unfoldable pub to_word : ℕ → ℤ → ℕ
to_word w (pos n) = n % 2 ^ w
to_word w (negsuc n) = 2 ^ w - suc (n % 2 ^ w)
