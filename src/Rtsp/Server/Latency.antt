-- ===== src/Rtsp/Server/Latency.antt =====
-- What `audio_send_timer` of rtsp_server.c takes from the microphone.
use smart_lock_intercom.Base.{
  ℕ, zero, suc, ◌+◌, ◌-◌, ◌≤◌, ◌≡◌, refl, sym, ap, ap₂, ◌∙◌, inl, inr, Bool, true, false, ◌||◌,
  List, [], ◌∷◌, ◌++◌, ltb, ◌==◌, if◌then◌else◌, length, take, drop, min, arith, Bool-cases,
  length-take, length-drop, replicate, length-append, length-replicate,
}
use smart_lock_intercom.Base.Int.{ℤ, pos}
use smart_lock_intercom.AudioIn.{AudioIn, audio_in_read, audio_in_available}
use smart_lock_intercom.AudioIn.Ring.{IsValid, contents, length-from}
use smart_lock_intercom.AudioIn.Queue.{audio_in_read_lem, audio_in_read-IsValid}
use smart_lock_intercom.Rtsp.Media.{next_samples}
use smart_lock_intercom.Rtsp.Server.{drain, drain_excess}

drop_nil : (n : ℕ) → drop {A = ℤ} n [] ≡ []
drop_nil zero = refl
drop_nil (suc n) = refl

drop-drop : (j m : ℕ) (xs : List ℤ) → drop m (drop j xs) ≡ drop (j + m) xs
drop-drop zero m xs = let e : 0 + m ≡ m = omega arith in rw e refl
drop-drop (suc j) m [] = drop_nil m ∙ sym (drop_nil (suc j + m))
drop-drop (suc j) m (x ∷ xs) =
    let e : suc j + m ≡ suc (j + m) = omega arith in rw e (drop-drop j m xs)

drain-step :
    (fuel skip : ℕ) (mic : AudioIn)
    → let r = audio_in_read (min skip 160) mic in
      (skip == 0 || length r.0 == 0) ≡ false
      → drain (suc fuel) skip mic ≡ drain fuel (skip - length r.0) r.1
unfolding drain
drain-step fuel skip mic e = rw e refl

drain-nothing : (fuel : ℕ) (mic : AudioIn) → drain fuel 0 mic ≡ mic
unfolding drain
drain-nothing zero mic = refl
drain-nothing (suc fuel) mic = refl

-- The loop throws away exactly the samples that it is told to.
drain_lem :
    (fuel skip : ℕ) (mic : AudioIn)
    → IsValid mic
    → skip ≤ fuel
    → skip ≤ length (contents mic)
    → contents (drain fuel skip mic) ≡ drop skip (contents mic)
drain_lem fuel zero mic v fuel_le le = ap contents (drain-nothing fuel mic)
drain_lem zero (suc k) mic v fuel_le le = absurd (omega arith)
drain_lem (suc fuel) (suc k) mic v fuel_le le =
    let n = min (suc k) 160 in
    let r = audio_in_read n mic in
    let h = audio_in_read_lem n mic v in
    let len : length r.0 ≡ n = ap length h.0 ∙ length-take n (contents mic) ∙ omega arith in
    let more : (suc k == 0 || length r.0 == 0) ≡ false = rw len (ground arith) in
    let left : suc k - length r.0 ≡ suc k - n = ap (λ i. suc k - i) len in
    let rest =
      drain_lem fuel (suc k - n) r.1 (audio_in_read-IsValid n mic v) (omega arith)
        (omega (arith, ap length h.1, length-drop n (contents mic))) in
    let e : n + (suc k - n) ≡ suc k = omega arith in
    ap contents (drain-step fuel (suc k) mic more ∙ ap (λ i. drain fuel i r.1) left)
    ∙ rest
    ∙ ap (drop (suc k - n)) h.1
    ∙ drop-drop n (suc k - n) (contents mic)
    ∙ ap (λ i. drop i (contents mic)) e

drain_excess-many :
    (mic : AudioIn)
    → let avail = audio_in_available mic in
      ltb 320 avail ≡ true → drain_excess mic ≡ drain (avail - 160) (avail - 160) mic
unfolding drain_excess
drain_excess-many mic e = rw e refl

drain_excess-few :
    (mic : AudioIn) → ltb 320 (audio_in_available mic) ≡ false → drain_excess mic ≡ mic
unfolding drain_excess
drain_excess-few mic e = rw e refl

-- When more than two packets of samples wait, the newest 160 of them are kept, and otherwise all.
pub drain_excess-contents :
    (mic : AudioIn)
    → IsValid mic
    → contents (drain_excess mic) ≡ (
        let waiting = contents mic in
        if ltb 320 (length waiting) then drop (length waiting - 160) waiting else waiting)
drain_excess-contents mic v =
    let avail = audio_in_available mic in
    let e : length (contents mic) ≡ avail = length-from mic.samples avail mic.rd in
    let waiting = contents mic in
    rw e (elim (Bool-cases (ltb 320 avail)) [
      | inl many ↦
          ap contents (drain_excess-many mic many)
          ∙ drain_lem (avail - 160) (avail - 160) mic v (omega arith) (omega arith)
          ∙ ap (λ (b : Bool). if b then drop (avail - 160) waiting else waiting) (sym many)
      | inr few ↦
          ap contents (drain_excess-few mic few)
          ∙ ap (λ (b : Bool). if b then drop (avail - 160) waiting else waiting) (sym few)
    ])

-- A packet has 160 samples: those that are waiting, the oldest first, and silence behind them.
pub next_samples_lem :
    (mic : AudioIn)
    → IsValid mic
    → (length (next_samples true mic).0 ≡ 160)
      × ((next_samples true mic).0
          ≡ take 160 (contents mic) ++ replicate (160 - length (contents mic)) (pos 0))
next_samples_lem mic v =
    let h = (audio_in_read_lem 160 mic v).0 in
    let len = ap length h ∙ length-take 160 (contents mic) in
    let padding : 160 - length (audio_in_read 160 mic).0 ≡ 160 - length (contents mic) =
      omega arith in
    let e = ap₂ (λ xs n. xs ++ replicate n (pos 0)) h padding in
    (
      ap length e
          ∙ omega (
            arith,
            length-append (take 160 (contents mic))
                (replicate (160 - length (contents mic)) (pos 0)),
            length-replicate (160 - length (contents mic)) (pos 0),
            length-take 160 (contents mic),
          ),
      e,
    )
