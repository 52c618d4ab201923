-- ===== src/AudioOut.antt =====
-- intercom_test/src/audio_out_win.c: the speaker's four buffers and the G.711 decoder. The waveOut
-- calls are the system's: `waveOutWrite` clears a buffer's WHDR_DONE and sets it when it is played.
pub mod Ulaw
use smart_lock_intercom.Base.{
  ℕ, zero, suc, ◌+◌, ◌-◌, ◌*◌, ◌/◌, ◌%◌, ◌^◌, bit_and, Bool, true, false, ◌&&◌, ◌||◌, not, Option,
  some, none, List, [], ◌∷◌, Bytes, map, ltb, ◌==◌, if◌then◌else◌, length, take, get_or, set,
}
use smart_lock_intercom.Base.Int.{ℤ, pos, negsuc}

abbrev pub num_buffers : ℕ
num_buffers = 4

abbrev pub max_samples : ℕ
max_samples = 960

abbrev signed : Bool → ℕ → ℤ
signed false n = pos n
signed true zero = pos 0
signed true (suc n) = negsuc n

-- `~u` on a byte is 255 - u; the result fits an `int16_t`.
unfoldable pub ulaw_to_pcm : ℕ → ℤ
ulaw_to_pcm u =
    let v = 255 - u in
    let exponent = bit_and (v / 2 ^ 4) 0x07 in
    let mantissa = bit_and v 0x0F in
    let magnitude = (mantissa * 2 ^ 3 + 0x84) * 2 ^ exponent - 0x84 in
    signed (not (bit_and v 0x80 == 0)) magnitude

-- `g_aout`, less the samples in the buffers; `done` has each buffer's WHDR_DONE.
pub record AudioOut : Type 0 where
  pub done : List Bool
  pub next_buf : ℕ
  pub srate : ℕ
  pub channels : ℕ
  pub opened : Bool

-- `memset(&g_aout, 0, sizeof(g_aout))`.
abbrev pub cleared : AudioOut
cleared = record {
  done = false ∷ false ∷ false ∷ false ∷ [];
  next_buf = 0;
  srate = 0;
  channels = 0;
  opened = false;
}

-- `opens` says whether `waveOutOpen` succeeds. The result says whether the call returns 0.
unfoldable pub audio_out_open : Bool → ℕ → ℕ → AudioOut → AudioOut × Bool
audio_out_open opens srate channels a =
    if a.opened then (a, true) else if not opens then (cleared, false) else (
      record {
        done = true ∷ true ∷ true ∷ true ∷ [];
        next_buf = 0;
        srate = srate;
        channels = channels;
        opened = true;
      },
      true,
    )

unfoldable pub audio_out_close : AudioOut → AudioOut
audio_out_close a = if a.opened then cleared else a

abbrev is_empty : Bytes → Bool
is_empty [] = true
is_empty (c ∷ cs) = false

-- The samples are what is handed to `waveOutWrite`.
unfoldable pub audio_out_play : Bytes → AudioOut → AudioOut × Option (List ℤ)
audio_out_play pcmu a =
    if not a.opened || is_empty pcmu
    then (a, none)
    else if not (get_or a.done a.next_buf false)
    then (a, none)
    else (
      record a { done = set a.done a.next_buf false; next_buf = (a.next_buf + 1) % num_buffers },
      some (map ulaw_to_pcm (take max_samples pcmu)),
    )

-- The system has played buffer `i`.
abbrev pub played : ℕ → AudioOut → AudioOut
played i a = record a { done = set a.done i true }
