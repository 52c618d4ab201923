-- ===== src/Rtp/Sequence.antt =====
-- Numbering, size, time stamps and markers of the packets for one NAL unit.
use smart_lock_intercom.Base.{
  ℕ, zero, suc, ◌+◌, ◌-◌, ◌%◌, ◌/◌, ◌^◌, ◌<◌, ◌≤◌, ◌≡◌, ◌≢◌, refl, inl, inr, Bool, true, false,
  List, [], ◌∷◌, Bytes, arith, length, drop, leb, if◌then◌else◌, Bool-cases, ap, length-take,
  length-drop, leb→le, leb_false→lt, drop-all,
}
use smart_lock_intercom.Rtp.{
  Packet, Stream, pt_h264, next_seq, fu_chunk, fu_packet, fu_loop, nalu_packets,
}
use smart_lock_intercom.Rtp.FuHeader.{fu_chunk-le, fu_chunk_pos, fu_chunk_full}
use smart_lock_intercom.Rtp.Depacketize.{always, fu_loop-nil, drop-ne-nil}

-- The packets carry the stream's numbers in turn, its one time stamp and source, and at most 1200
-- bytes of payload; `t` is the stream after them.
abbrev pub Numbered : Stream → List Packet → Stream → Type 0
Numbered s [] t = t ≡ s
Numbered s (p ∷ ps) t =
    (p.header.seq ≡ s.seq)
    × (p.header.ts ≡ s.ts)
    × (p.header.ssrc ≡ s.ssrc)
    × (p.header.pt ≡ pt_h264)
    × (length p.payload ≤ 1200)
    × Numbered (next_seq s) ps t

fu_loop-Numbered :
    (alloc : ℕ → Bool) (fuel k h : ℕ) (last first : Bool) (rest : Bytes) (s : Stream)
    → let r = fu_loop alloc fuel k h last first rest s in Numbered s r.0 r.1
unfolding fu_loop
fu_loop-Numbered alloc zero k h last first rest s = refl
fu_loop-Numbered alloc (suc fuel) k h last first [] s = refl
fu_loop-Numbered alloc (suc fuel) k h last first (b ∷ bs) s =
    let n = fu_chunk (length (b ∷ bs)) in
    let ih = fu_loop-Numbered alloc fuel (suc k) h last false (drop n (b ∷ bs)) (next_seq s) in
    let small = fu_chunk-le (length (b ∷ bs)) in
    elim (Bool-cases (alloc k)) [
      | inl ok ↦ rw ok (refl, refl, refl, refl, omega (arith, length-take n (b ∷ bs)), ih)
      | inr failed ↦ rw failed refl
    ]

-- Whatever buffers can be allocated, the packets of a NAL unit take consecutive sequence numbers
-- from the stream's, carry its time stamp and source, hold at most 1200 bytes of payload each, and
-- leave the stream at the number after the last one sent.
pub nalu_packets-Numbered :
    (alloc : ℕ → Bool) (nalu : Bytes) (is_last : Bool) (s : Stream)
    → let r = nalu_packets alloc nalu is_last s in Numbered s r.0 r.1
unfolding nalu_packets
nalu_packets-Numbered alloc [] is_last s = refl
nalu_packets-Numbered alloc (h ∷ payload) is_last s =
    elim (Bool-cases (leb (length (h ∷ payload)) 1200)) [
      | inl small ↦ rw small (elim (Bool-cases (alloc 0)) [
        | inl ok ↦ rw ok (refl, refl, refl, refl, leb→le _ _ small, refl)
        | inr failed ↦ rw failed refl
      ])
      | inr large ↦ rw large (fu_loop-Numbered alloc (length payload) 0 h is_last true payload s)
    ]

-- The sequence number after `n` packets, modulo 2 ^ 16.
Numbered-seq :
    (s t : Stream) (ps : List Packet)
    → s.seq < 2 ^ 16
    → Numbered s ps t
    → t.seq ≡ (s.seq + length ps) % 2 ^ 16
Numbered-seq s t [] lt e = ground arith
Numbered-seq s t (p ∷ ps) lt (_, _, _, _, _, rest) =
    omega (arith, Numbered-seq (next_seq s) t ps (omega arith) rest)

-- Every packet but the last has marker 0, and the last has `m`.
abbrev pub Marked : ℕ → List Packet → Type 0
Marked m [] = ⊥
Marked m (p ∷ []) = p.header.m ≡ m
Marked m (p ∷ q ∷ ps) = (p.header.m ≡ 0) × Marked m (q ∷ ps)

Marked-cons :
    (m : ℕ) (p : Packet) (ps : List Packet) → p.header.m ≡ 0 → Marked m ps → Marked m (p ∷ ps)
Marked-cons m p [] e h = absurd h
Marked-cons m p (q ∷ ps) e h = (e, h)

fu_loop-Marked :
    (fuel k h : ℕ) (last first : Bool) (rest : Bytes) (s : Stream)
    → rest ≢ []
    → length rest ≤ fuel
    → Marked (if last then 1 else 0) (fu_loop always fuel k h last first rest s).0
unfolding fu_loop
fu_loop-Marked zero k h last first [] s ne le = absurd (ne refl)
fu_loop-Marked zero k h last first (b ∷ bs) s ne le = absurd (omega arith)
fu_loop-Marked (suc fuel) k h last first [] s ne le = absurd (ne refl)
fu_loop-Marked (suc fuel) k h last first (b ∷ bs) s ne le =
    let rest = b ∷ bs in
    let n = fu_chunk (length rest) in
    elim (Bool-cases (leb (length rest) n)) [
      | inl done ↦
          rw
            (
              drop-all n rest (leb→le (length rest) n done),
              fu_loop-nil always fuel (suc k) h last false (next_seq s),
              done,
            )
            refl
      | inr more ↦
          Marked-cons (if last then 1 else 0) (fu_packet h last first rest s) _ (rw more refl) (
            fu_loop-Marked fuel (suc k) h last false (drop n rest) (next_seq s)
              (drop-ne-nil n rest (leb_false→lt (length rest) n more))
              (omega (arith, length-drop n rest, fu_chunk_pos (length rest) (omega arith))))
    ]

-- When every buffer can be allocated, a non-empty NAL unit gives at least one packet, and the
-- marker bit is set on its last packet exactly if the unit is the last one of the frame, and on no
-- other packet.
pub nalu_packets-Marked :
    (h : ℕ) (payload : Bytes) (is_last : Bool) (s : Stream)
    → Marked (if is_last then 1 else 0) (nalu_packets always (h ∷ payload) is_last s).0
unfolding nalu_packets
nalu_packets-Marked h payload is_last s = elim (Bool-cases (leb (length (h ∷ payload)) 1200)) [
  | inl small ↦ rw small refl
  | inr large ↦
      let many = leb_false→lt (length (h ∷ payload)) 1200 large in
      rw large (
        fu_loop-Marked (length payload) 0 h is_last true payload s
          (λ e. absurd (omega (arith, ap length e))) (omega arith))
]

fu_loop-length :
    (fuel k h : ℕ) (last first : Bool) (rest : Bytes) (s : Stream)
    → length rest ≤ fuel
    → length (fu_loop always fuel k h last first rest s).0 ≡ (length rest + 1197) / 1198
unfolding fu_loop
fu_loop-length zero k h last first [] s le = omega arith
fu_loop-length zero k h last first (b ∷ bs) s le = absurd (omega arith)
fu_loop-length (suc fuel) k h last first [] s le = omega arith
fu_loop-length (suc fuel) k h last first (b ∷ bs) s le =
    let rest = b ∷ bs in
    let n = fu_chunk (length rest) in
    let ih = fu_loop-length fuel (suc k) h last false (drop n rest) (next_seq s) in
    let cut = length-drop n rest in
    let pos = fu_chunk_pos (length rest) (omega arith) in
    let low = fu_chunk-le (length rest) in
    elim (Bool-cases (leb (length rest) n)) [
      | inl done ↦ omega (arith, ih (omega arith), leb→le (length rest) n done)
      | inr more ↦ omega (arith, ih (omega arith), fu_chunk_full (length rest) more)
    ]

-- The number of packets for a NAL unit of `size` bytes.
abbrev pub packet_count : ℕ → ℕ
packet_count size = if leb size 1200 then 1 else (size - 1 + 1197) / 1198

length-nalu_packets :
    (h : ℕ) (payload : Bytes) (is_last : Bool) (s : Stream)
    → length (nalu_packets always (h ∷ payload) is_last s).0 ≡ packet_count (length (h ∷ payload))
unfolding nalu_packets
length-nalu_packets h payload is_last s = elim (Bool-cases (leb (length (h ∷ payload)) 1200)) [
  | inl small ↦ rw small refl
  | inr large ↦
      rw large
        (omega (arith, fu_loop-length (length payload) 0 h is_last true payload s (omega arith)))
]

-- When every buffer can be allocated, a NAL unit of up to 1200 bytes takes one packet and a longer
-- one a packet for each 1198 bytes after its first, and the stream's sequence number moves on by
-- just that many, modulo 2 ^ 16.
pub nalu_packets-seq :
    (h : ℕ) (payload : Bytes) (is_last : Bool) (s : Stream)
    → s.seq < 2 ^ 16
    → let r = nalu_packets always (h ∷ payload) is_last s in
      (length r.0 ≡ packet_count (length (h ∷ payload)))
      × (r.1.seq ≡ (s.seq + packet_count (length (h ∷ payload))) % 2 ^ 16)
nalu_packets-seq h payload is_last s lt =
    let r = nalu_packets always (h ∷ payload) is_last s in
    let seq = Numbered-seq s r.1 r.0 lt (nalu_packets-Numbered always (h ∷ payload) is_last s) in
    let many = length-nalu_packets h payload is_last s in (many, rw many at seq)
