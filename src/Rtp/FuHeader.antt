-- ===== src/Rtp/FuHeader.antt =====
-- What the two bytes of a fragment say to a receiver, by evaluation over all bytes.
use smart_lock_intercom.Base.{
  ℕ, ◌+◌, ◌*◌, ◌/◌, ◌%◌, ◌<◌, ◌≤◌, ◌≡◌, refl, bit_and, Bool, true, false, arith, leb, ◌==◌,
  if◌then◌else◌, ==_iff, passes_to, passes_to_lem,
}
use smart_lock_intercom.Rtp.{fu_indicator, fu_header, fu_chunk}

pub fu_indicator_lem : (h : ℕ) → h < 256 → fu_indicator h ≡ h / 32 * 32 + 28
unfolding fu_indicator passes_to
fu_indicator_lem h lt =
    (==_iff _ _).0 (passes_to_lem (λ x. fu_indicator x == x / 32 * 32 + 28) 256 h refl lt)

abbrev flag : Bool → ℕ → ℕ
flag b n = if b then n else 0

abbrev pub fu_value : ℕ → Bool → Bool → ℕ
fu_value h first last_frag = h % 32 + flag first 128 + flag last_frag 64

same : Bool → Bool → ℕ → Bool
unfolding fu_header
same first last_frag h = fu_header (bit_and h 0x1F) first last_frag == fu_value h first last_frag

same-true : (first last_frag : Bool) → passes_to (same first last_frag) 256 ≡ true
unfolding same passes_to
same-true true true = refl
same-true true false = refl
same-true false true = refl
same-true false false = refl

-- S is bit 7, E is bit 6 and the type is the low five bits.
pub fu_header_lem :
    (h : ℕ) (first last_frag : Bool)
    → h < 256
    → fu_header (bit_and h 0x1F) first last_frag ≡ fu_value h first last_frag
unfolding same
fu_header_lem h first last_frag lt =
    (==_iff _ _).0 (passes_to_lem (same first last_frag) 256 h (same-true first last_frag) lt)

pub fu_chunk-le : (n : ℕ) → (fu_chunk n ≤ n) × (fu_chunk n ≤ 1198)
unfolding fu_chunk
fu_chunk-le n = ground arith

pub fu_chunk_pos : (n : ℕ) → 0 < n → 0 < fu_chunk n
unfolding fu_chunk
fu_chunk_pos n h = ground arith

-- A fragment that is not the last one is full.
pub fu_chunk_full : (n : ℕ) → leb n (fu_chunk n) ≡ false → fu_chunk n ≡ 1198
unfolding fu_chunk
fu_chunk_full n h = ground arith
