-- ===== src/AudioOut/Ulaw.antt =====
-- The decoder `ulaw_to_pcm` of audio_out_win.c as a whole: the order of its levels and its two
-- halves.
use smart_lock_intercom.Base.{
  ℕ, ◌+◌, ◌-◌, ◌<◌, ◌≤◌, ◌≡◌, refl, Bool, true, ◌&&◌, arith, ltb, leb, ◌==◌, passes_to,
  passes_to_lem, ==_iff, ltb→lt, leb→le,
}
use smart_lock_intercom.Base.Int.{ℤ, pos, negsuc}
use smart_lock_intercom.AudioOut.{ulaw_to_pcm}

-- A sample above the least value of an `int16_t`.
abbrev pub level : ℤ → ℕ
level (pos n) = 32768 + n
level (negsuc n) = 32767 - n

and_left : (a b : Bool) → (a && b) ≡ true → a ≡ true
and_left a b h = ground arith

and_right : (a b : Bool) → (a && b) ≡ true → b ≡ true
and_right a b h = ground arith

ordered : ℕ → Bool
unfolding ulaw_to_pcm
ordered u =
    ltb (level (ulaw_to_pcm u)) (level (ulaw_to_pcm (u + 1)))
    && ltb (level (ulaw_to_pcm (u + 129))) (level (ulaw_to_pcm (u + 128)))

mirrored : ℕ → Bool
unfolding ulaw_to_pcm
mirrored u =
    level (ulaw_to_pcm u) + level (ulaw_to_pcm (u + 128)) == 65536
    && leb 644 (level (ulaw_to_pcm u))

-- Each code below 127 decodes to a lower level than the next one, and each code from 128 to 254
-- to a higher one than the next.
pub ulaw_to_pcm-ordered :
    (u : ℕ)
    → u < 127
    → (level (ulaw_to_pcm u) < level (ulaw_to_pcm (u + 1)))
      × (level (ulaw_to_pcm (u + 129)) < level (ulaw_to_pcm (u + 128)))
unfolding ordered passes_to
ulaw_to_pcm-ordered u lt =
    let h = passes_to_lem ordered 127 u refl lt in
    (ltb→lt _ _ (and_left _ _ h), ltb→lt _ _ (and_right _ _ h))

-- A code below 128 decodes to the negative of what the code with the sign bit decodes to, and no
-- sample is beyond 32124 in size.
pub ulaw_to_pcm-mirrored :
    (u : ℕ)
    → u < 128
    → (level (ulaw_to_pcm u) + level (ulaw_to_pcm (u + 128)) ≡ 65536)
      × (644 ≤ level (ulaw_to_pcm u))
unfolding mirrored passes_to
ulaw_to_pcm-mirrored u lt =
    let h = passes_to_lem mirrored 128 u refl lt in
    ((==_iff _ _).0 (and_left _ _ h), leb→le _ _ (and_right _ _ h))
