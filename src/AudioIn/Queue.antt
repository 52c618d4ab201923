-- ===== src/AudioIn/Queue.antt =====
-- `enqueue_to_ring` and `audio_in_read` of audio_in_win.c against the queue of waiting samples.
use smart_lock_intercom.Base.{
  ℕ, zero, suc, ◌+◌, ◌-◌, ◌%◌, ◌≤◌, ◌≡◌, ◌≢◌, refl, sym, ap, ◌∙◌, inl, inr, List, [], ◌∷◌, ◌++◌,
  append_assoc, append-nil, arith, ◌==◌, length, take, drop, map, Bool-cases, length-append,
  length-drop, ==_iff,
}
use smart_lock_intercom.Base.Int.{ℤ}
use smart_lock_intercom.AudioIn.{
  AudioIn, ring_size, amplify, enqueue, enqueue_to_ring, audio_in_read, audio_in_available,
}
use smart_lock_intercom.AudioIn.Ring.{
  IsValid, from, contents, make_room, contents-enqueue, enqueue-IsValid, length-from,
}

-- The last 7999 of some samples.
abbrev pub newest : List ℤ → List ℤ
newest xs = drop (length xs - 7999) xs

drop-drop_append :
    (j m : ℕ) (xs ys : List ℤ) → j ≤ length xs → drop m (drop j xs ++ ys) ≡ drop (j + m) (xs ++ ys)
drop-drop_append zero m xs ys le = let e : 0 + m ≡ m = omega arith in rw e refl
drop-drop_append (suc j) m [] ys le = absurd (omega arith)
drop-drop_append (suc j) m (x ∷ xs) ys le =
    let e : suc j + m ≡ suc (j + m) = omega arith in rw e (drop-drop_append j m xs ys (omega arith))

drop_within : (j : ℕ) (xs ys : List ℤ) → j ≤ length xs → drop j xs ++ ys ≡ drop j (xs ++ ys)
drop_within zero xs ys le = refl
drop_within (suc j) [] ys le = absurd (omega arith)
drop_within (suc j) (x ∷ xs) ys le = drop_within j xs ys (omega arith)

make_room-newest :
    (xs : List ℤ) (x : ℤ) → length xs ≤ 7999 → make_room xs ++ (x ∷ []) ≡ newest (xs ++ (x ∷ []))
make_room-newest xs x le = elim (Bool-cases (length xs == 7999)) [
  | inl full ↦
      let e : length (xs ++ (x ∷ [])) - 7999 ≡ 1 =
        omega (arith, (==_iff _ _).0 full, length-append xs (x ∷ [])) in
      rw (full, e) (drop_within 1 xs (x ∷ []) (omega (arith, (==_iff _ _).0 full)))
  | inr room ↦
      let ne : length xs ≢ 7999 = λ eq. cc ((==_iff _ _).1 eq) in
      let e : length (xs ++ (x ∷ [])) - 7999 ≡ 0 = omega (arith, length-append xs (x ∷ [])) in
      rw (room, e) refl
]

newest-newest : (xs : List ℤ) (ys : List ℤ) → newest (newest xs ++ ys) ≡ newest (xs ++ ys)
newest-newest xs ys =
    let j = length xs - 7999 in
    drop-drop_append j (length (newest xs ++ ys) - 7999) xs ys (omega arith)
    ∙ ap (λ k. drop k (xs ++ ys))
        (omega (arith, length-append (newest xs) ys, length-append xs ys, length-drop j xs))

available-le : (a : AudioIn) → IsValid a → audio_in_available a ≤ 7999
unfolding audio_in_available
available-le a v = omega arith

newest-small : (xs : List ℤ) → length xs ≤ 7999 → newest xs ≡ xs
newest-small xs le = let e : length xs - 7999 ≡ 0 = omega arith in rw e refl

-- After a buffer of samples has come in, the queue holds the newest 7999 of the samples that
-- waited and the new ones behind them, amplified.
pub contents-enqueue_to_ring :
    (now : ℕ → ℕ) (src : List ℤ) (a : AudioIn)
    → IsValid a
    → contents (enqueue_to_ring now src a) ≡ newest (contents a ++ map amplify src)
unfolding enqueue_to_ring
contents-enqueue_to_ring now [] a v = rw append-nil (
    sym (
      newest-small (contents a)
        (omega (arith, available-le a v, length-from a.samples (audio_in_available a) a.rd))))
contents-enqueue_to_ring now (s ∷ src) a v =
    let b = enqueue (now 0) s a in
    contents-enqueue_to_ring (λ k. now (suc k)) src b (enqueue-IsValid (now 0) s a v)
    ∙ ap (λ c. newest (c ++ map amplify src))
        (contents-enqueue (now 0) s a v
          ∙ make_room-newest (contents a) (amplify s)
              (omega (arith, available-le a v, length-from a.samples (audio_in_available a) a.rd)))
    ∙ newest-newest (contents a ++ (amplify s ∷ [])) (map amplify src)
    ∙ ap newest (append_assoc (contents a) (amplify s ∷ []) (map amplify src))

-- A read takes the oldest samples, up to `count` of them, in order, and leaves the others.
pub audio_in_read_lem :
    (count : ℕ) (a : AudioIn)
    → IsValid a
    → ((audio_in_read count a).0 ≡ take count (contents a))
      × (contents (audio_in_read count a).1 ≡ drop count (contents a))
unfolding audio_in_read from audio_in_available
audio_in_read_lem zero a v = (refl, refl)
audio_in_read_lem (suc count) a v = elim (Bool-cases (a.rd == a.wr)) [
  | inl empty ↦
      let none_left : (a.wr + 8000 - a.rd) % 8000 ≡ 0 = omega (arith, (==_iff _ _).0 empty) in
      rw (empty, none_left) (refl, refl)
  | inr some_left ↦
      let ne : a.rd ≢ a.wr = λ eq. cc ((==_iff _ _).1 eq) in
      let b = record a { rd = (a.rd + 1) % ring_size } in
      let one_less : (a.wr + 8000 - a.rd) % 8000 ≡ suc ((b.wr + 8000 - b.rd) % 8000) =
        omega arith in
      let ih = audio_in_read_lem count b (record { wr_lt = v.wr_lt; rd_lt = omega arith }) in
      rw (some_left, one_less) (ap (◌∷◌ (a.samples a.rd)) ih.0, ih.1)
]

-- A read leaves both indices within the ring.
pub audio_in_read-IsValid :
    (count : ℕ) (a : AudioIn) → IsValid a → IsValid (audio_in_read count a).1
unfolding audio_in_read
audio_in_read-IsValid zero a v = v
audio_in_read-IsValid (suc count) a v = elim (Bool-cases (a.rd == a.wr)) [
  | inl empty ↦ rw empty v
  | inr some_left ↦ rw some_left (
      audio_in_read-IsValid count (record a { rd = (a.rd + 1) % ring_size })
        (record { wr_lt = v.wr_lt; rd_lt = omega arith }))
]
