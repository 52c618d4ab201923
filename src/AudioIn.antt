-- ===== src/AudioIn.antt =====
-- intercom_test/src/audio_in_win.c: the microphone's ring buffer and its open state. The waveIn
-- calls are the system's: their results are arguments. The critical section makes each of
-- `enqueue_to_ring`, `audio_in_read` and `audio_in_available` one step.
pub mod Ring
pub mod Queue
use smart_lock_intercom.Base.{
  ℕ, zero, suc, ◌+◌, ◌-◌, ◌*◌, ◌%◌, ◌^◌, Bool, true, false, ◌&&◌, not, List, [], ◌∷◌, ltb, ◌==◌,
  if◌then◌else◌,
}
use smart_lock_intercom.Base.Int.{ℤ, pos, negsuc}

abbrev pub ring_size : ℕ
ring_size = 8000

abbrev pub max_samples : ℕ
max_samples = 960

-- `g_ain`, less the waveIn buffers. `samples` is the array `ring`, by index.
pub record AudioIn : Type 0 where
  pub samples_per_buf : ℕ
  pub opened : Bool
  pub samples : ℕ → ℤ
  pub wr : ℕ
  pub rd : ℕ
  pub drop_count : ℕ
  pub last_drop_log : ℕ

-- `memset(&g_ain, 0, sizeof(g_ain))`.
abbrev pub cleared : AudioIn
cleared = record {
  samples_per_buf = 0;
  opened = false;
  samples = λ i. pos 0;
  wr = 0;
  rd = 0;
  drop_count = 0;
  last_drop_log = 0;
}

abbrev pub update {ℓ} : {A : Type ℓ} → (ℕ → A) → ℕ → A → ℕ → A
update f i v j = if i == j then v else f j

-- The gain of 10, clipped to an `int16_t`. `negsuc n` times 10 is -(10 n + 10).
unfoldable pub amplify : ℤ → ℤ
amplify (pos n) = if ltb 32767 (n * 10) then pos 32767 else pos (n * 10)
amplify (negsuc n) = if ltb 32767 (n * 10 + 9) then negsuc 32767 else negsuc (n * 10 + 9)

-- The oldest sample is given up. `now` is `GetTickCount()`; unsigned differences wrap at 2 ^ 32.
pub drop_oldest : ℕ → AudioIn → AudioIn
drop_oldest now a = record a {
  rd = (a.rd + 1) % ring_size;
  drop_count = (a.drop_count + 1) % 2 ^ 32;
  last_drop_log =
      if ltb 10000 ((now + 2 ^ 32 - a.last_drop_log) % 2 ^ 32) then now else a.last_drop_log;
}

abbrev pub next_wr : AudioIn → ℕ
next_wr a = (a.wr + 1) % ring_size

-- The body of the loop of `enqueue_to_ring`.
pub enqueue : ℕ → ℤ → AudioIn → AudioIn
unfolding drop_oldest
enqueue now s a =
    let b = if next_wr a == a.rd then drop_oldest now a else a in
    record b { samples = update b.samples a.wr (amplify s); wr = next_wr a }

-- `now k` is the tick count at the k-th sample from the end of the call's samples.
pub enqueue_to_ring : (ℕ → ℕ) → List ℤ → AudioIn → AudioIn
enqueue_to_ring now [] a = a
enqueue_to_ring now (s ∷ src) a = enqueue_to_ring (λ k. now (suc k)) src (enqueue (now 0) s a)

-- The loop of `audio_in_read`; the samples read, and the state after.
pub audio_in_read : ℕ → AudioIn → List ℤ × AudioIn
audio_in_read zero a = ([], a)
audio_in_read (suc count) a =
    let more = audio_in_read count (record a { rd = (a.rd + 1) % ring_size }) in
    if a.rd == a.wr then ([], a) else (a.samples a.rd ∷ more.0, more.1)

unfoldable pub audio_in_available : AudioIn → ℕ
audio_in_available a = (a.wr + ring_size - a.rd) % ring_size

-- `opens` and `starts` say whether `waveInOpen` and `waveInStart` succeed. The result is whether
-- the call returns 0 and not `ENODEV`.
unfoldable pub audio_in_close : AudioIn → AudioIn
audio_in_close a = if a.opened then cleared else a

unfoldable pub audio_in_open : Bool → Bool → ℕ → AudioIn → AudioIn × Bool
unfolding audio_in_close
audio_in_open opens starts samples_per_frame a =
    let capped = if ltb max_samples samples_per_frame then max_samples else samples_per_frame in
    let configured = record cleared { samples_per_buf = capped } in
    let running = record configured { opened = true } in
    if a.opened
    then (a, true)
    else if not opens
    then (configured, false)
    else if not starts
    then (audio_in_close running, false)
    else (running, true)

unfoldable pub audio_in_is_open : AudioIn → Bool
audio_in_is_open a = a.opened
