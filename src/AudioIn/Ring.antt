-- ===== src/AudioIn/Ring.antt =====
-- The ring of audio_in_win.c, seen as a queue of samples.
use smart_lock_intercom.Base.{
  ℕ, zero, suc, ◌+◌, ◌-◌, ◌%◌, ◌<◌, ◌≤◌, ◌≡◌, ◌≢◌, refl, ap, ◌∙◌, inl, inr, true, false, List, [],
  ◌∷◌, ◌++◌, arith, ◌==◌, if◌then◌else◌, length, drop, Bool-cases, ==_iff, ne→false,
}
use smart_lock_intercom.Base.Int.{ℤ}
use smart_lock_intercom.AudioIn.{
  AudioIn, ring_size, update, amplify, drop_oldest, next_wr, enqueue, audio_in_available,
}

pub record IsValid (a : AudioIn) : Type 0 where
  pub wr_lt : a.wr < ring_size
  pub rd_lt : a.rd < ring_size

-- `n` samples from index `i` on, around the ring.
unfoldable pub from : (ℕ → ℤ) → ℕ → ℕ → List ℤ
from f zero i = []
from f (suc n) i = f i ∷ from f n ((i + 1) % ring_size)

-- The samples that wait, oldest first.
abbrev pub contents : AudioIn → List ℤ
contents a = from a.samples (audio_in_available a) a.rd

pub length-from : (f : ℕ → ℤ) (n i : ℕ) → length (from f n i) ≡ n
unfolding from
length-from f zero i = refl
length-from f (suc n) i = ap suc (length-from f n ((i + 1) % ring_size))

from-suc :
    (f : ℕ → ℤ) (n i : ℕ)
    → i < ring_size
    → from f (suc n) i ≡ from f n i ++ (f ((i + n) % ring_size) ∷ [])
unfolding from
from-suc f zero i lt = let e : (i + 0) % 8000 ≡ i = omega arith in rw e refl
from-suc f (suc n) i lt =
    let e : ((i + 1) % 8000 + n) % 8000 ≡ (i + suc n) % 8000 = omega arith in
    ap (◌∷◌ (f i)) (from-suc f n ((i + 1) % ring_size) (omega arith) ∙ rw e refl)

-- A write behind the samples in question does not change them.
from-update :
    (f : ℕ → ℤ) (n k i j : ℕ) (v : ℤ)
    → i < ring_size
    → k < ring_size
    → n ≤ k
    → j ≡ (i + k) % ring_size
    → from (update f j v) n i ≡ from f n i
unfolding from
from-update f zero k i j v lt klt le e = refl
from-update f (suc n) k i j v lt klt le e =
    let ne : (j == i) ≡ false = ground arith in
    let ih =
      from-update f n (k - 1) ((i + 1) % ring_size) j v (omega arith) (omega arith) (omega arith)
        (omega arith) in
    rw (ne, ih) refl

update_self : (f : ℕ → ℤ) (j : ℕ) (v : ℤ) → update f j v j ≡ v
update_self f j v = ground arith

-- The samples up to and with one that has just been written.
from-write :
    (f : ℕ → ℤ) (n i : ℕ) (v : ℤ)
    → i < ring_size
    → n < ring_size
    → from (update f ((i + n) % ring_size) v) (suc n) i ≡ from f n i ++ (v ∷ [])
from-write f n i v lt nlt =
    from-suc (update f ((i + n) % ring_size) v) n i lt
    ∙ rw
        (
          from-update f n n i ((i + n) % ring_size) v lt nlt (omega arith) refl,
          update_self f ((i + n) % ring_size) v,
        )
        refl

-- Room for one more: the oldest of 7999 samples goes.
abbrev pub make_room : List ℤ → List ℤ
make_room xs = if length xs == 7999 then drop 1 xs else xs

module _ (f : ℕ → ℤ) (wr rd : ℕ) (v : ℤ) (wr_lt : wr < ring_size) (rd_lt : rd < ring_size) where
  write_full :
      (n : ℕ)
      → (wr + 1) % ring_size ≡ rd
      → n ≡ 7998
      → from (update f wr v) (suc n) ((rd + 1) % ring_size)
        ≡ make_room (from f (suc n) rd) ++ (v ∷ [])
  write_full n full e =
      let at : wr ≡ ((rd + 1) % ring_size + n) % ring_size = omega arith in
      let long : (length (from f (suc n) rd) == 7999) ≡ true =
        (==_iff _ _).1 (omega (arith, length-from f (suc n) rd)) in
      rw (at, long)
        (from-write f n ((rd + 1) % ring_size) v (omega arith) (omega arith) ∙ unfold from in refl)

  write_room :
      (n : ℕ)
      → n < 7999
      → wr ≡ (rd + n) % ring_size
      → from (update f wr v) (suc n) rd ≡ make_room (from f n rd) ++ (v ∷ [])
  write_room n lt e =
      let short : (length (from f n rd) == 7999) ≡ false =
        ne→false _ _ (λ eq. absurd (omega (arith, length-from f n rd))) in
      rw (e, short) (from-write f n rd v rd_lt (omega arith))

-- One new sample joins the queue at its end, amplified; it takes the oldest one's place if 7999
-- samples wait already.
pub contents-enqueue :
    (now : ℕ) (s : ℤ) (a : AudioIn)
    → IsValid a
    → contents (enqueue now s a) ≡ make_room (contents a) ++ (amplify s ∷ [])
unfolding enqueue drop_oldest audio_in_available
contents-enqueue now s a v = elim (Bool-cases (next_wr a == a.rd)) [
  | inl full ↦
      let e = (==_iff _ _).0 full in
      let old : (a.wr + 8000 - a.rd) % 8000 ≡ suc 7998 = omega arith in
      let new : ((a.wr + 1) % 8000 + 8000 - (a.rd + 1) % 8000) % 8000 ≡ suc 7998 = omega arith in
      rw full
        (rw (old, new) (write_full a.samples a.wr a.rd (amplify s) v.wr_lt v.rd_lt 7998 e refl))
  | inr room ↦
      let ne : (a.wr + 1) % 8000 ≢ a.rd = λ e. cc ((==_iff _ _).1 e) in
      let n = (a.wr + 8000 - a.rd) % 8000 in
      let new : ((a.wr + 1) % 8000 + 8000 - a.rd) % 8000 ≡ suc n = omega arith in
      rw room (
        rw new (
          write_room a.samples a.wr a.rd (amplify s) v.wr_lt v.rd_lt n (omega arith) (omega arith)))
]

pub enqueue-IsValid : (now : ℕ) (s : ℤ) (a : AudioIn) → IsValid a → IsValid (enqueue now s a)
unfolding enqueue drop_oldest
enqueue-IsValid now s a v = elim (Bool-cases (next_wr a == a.rd)) [
  | inl full ↦ rw full (record { wr_lt = omega arith; rd_lt = omega arith })
  | inr room ↦ rw room (record { wr_lt = omega arith; rd_lt = v.rd_lt })
]
