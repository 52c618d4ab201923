-- ===== src/Rtp/Depacketize.antt =====
-- A receiver of RFC 6184 packets, written from the RFC and not from the sender, for the packets
-- that rtsp_server.c and session.c send.
use smart_lock_intercom.Base.{
  ℕ, zero, suc, ◌+◌, ◌*◌, ◌/◌, ◌%◌, ◌<◌, ◌≤◌, ◌≡◌, ◌≢◌, refl, sym, ap, ap₂, ◌∙◌, inl, inr, Bool,
  true, false, Option, some, none, List, [], ◌∷◌, ◌++◌, append_assoc, map, Bytes, arith, length,
  take, drop, leb, ◌==◌, if◌then◌else◌, Bool-cases, take-append-drop, length-drop, take-all,
  drop-all, bit_and, leb→le, leb_false→lt,
}
use smart_lock_intercom.Rtp.{
  Packet, Stream, fu_chunk, fu_indicator, fu_header, fu_loop, nalu_packets, next_seq,
}
use smart_lock_intercom.Rtp.FuHeader.{fu_indicator_lem, fu_header_lem, fu_chunk-le, fu_chunk_pos}

-- After the first fragment: `acc` is what has come so far. The end bit must be on the last packet,
-- and no later packet may start a unit.
unfoldable pub collect : Bytes → List Bytes → Option Bytes
collect acc ((indicator ∷ header ∷ fragment) ∷ ps) =
    let rest = collect (acc ++ fragment) ps in
    if indicator % 32 == 28
    then if header / 128 == 0
      then if header / 64 % 2 == 1
        then elim ps [ [] ↦ some (acc ++ fragment) | _ ∷ _ ↦ none ]
        else rest
      else none
    else none
collect acc _ = none

-- The first fragment carries the start bit and not the end bit. The header of the NAL unit is
-- put together from the indicator's F and NRI bits and the type in the fragment's header.
unfoldable pub start : Bytes → List Bytes → Option Bytes
start (indicator ∷ header ∷ fragment) ps =
    if header / 64 == 2 then collect ((indicator / 32 * 32 + header % 32) ∷ fragment) ps else none
start _ ps = none

-- The NAL unit that the payloads of some packets carry.
unfoldable pub depacketize : List Bytes → Option Bytes
depacketize ((b ∷ bs) ∷ ps) =
    if b % 32 == 28 then start (b ∷ bs) ps else elim ps [ [] ↦ some (b ∷ bs) | _ ∷ _ ↦ none ]
depacketize _ = none

abbrev pub payloads : List Packet → List Bytes
payloads = map (λ p. p.payload)

abbrev pub always : ℕ → Bool
always k = true

collect_last :
    (acc f : Bytes) (i c : ℕ)
    → i % 32 ≡ 28
    → c / 128 ≡ 0
    → c / 64 % 2 ≡ 1
    → collect acc ((i ∷ c ∷ f) ∷ []) ≡ some (acc ++ f)
unfolding collect
collect_last acc f i c p q r = ground arith

collect_more :
    (acc f : Bytes) (i c : ℕ) (ps : List Bytes)
    → i % 32 ≡ 28
    → c / 128 ≡ 0
    → c / 64 % 2 ≡ 0
    → collect acc ((i ∷ c ∷ f) ∷ ps) ≡ collect (acc ++ f) ps
unfolding collect
collect_more acc f i c ps p q r = ground arith

start_lem :
    (f : Bytes) (i c : ℕ) (ps : List Bytes)
    → i % 32 ≡ 28
    → c / 64 ≡ 2
    → depacketize ((i ∷ c ∷ f) ∷ ps) ≡ collect ((i / 32 * 32 + c % 32) ∷ f) ps
unfolding depacketize start
start_lem f i c ps p q = ground arith

pub fu_loop-nil :
    (alloc : ℕ → Bool) (fuel k h : ℕ) (last first : Bool) (s : Stream)
    → fu_loop alloc fuel k h last first [] s ≡ ([], s)
unfolding fu_loop
fu_loop-nil alloc zero k h last first s = refl
fu_loop-nil alloc (suc fuel) k h last first s = refl

-- One round of the loop, when its packet can be allocated.
fu_loop_step :
    (fuel k h : ℕ) (last first : Bool) (b : ℕ) (bs : Bytes) (s : Stream) (n : ℕ) (end : Bool)
    → n ≡ fu_chunk (length (b ∷ bs))
    → end ≡ leb (length (b ∷ bs)) n
    → payloads (fu_loop always (suc fuel) k h last first (b ∷ bs) s).0
      ≡ (fu_indicator h ∷ fu_header (bit_and h 0x1F) first end ∷ take n (b ∷ bs))
        ∷ payloads (fu_loop always fuel (suc k) h last false (drop n (b ∷ bs)) (next_seq s)).0
unfolding fu_loop
fu_loop_step fuel k h last first b bs s n end p q = rw (q, p)

length-drop_pos : (n b : ℕ) (bs : Bytes) → 0 < n → length (drop n (b ∷ bs)) ≤ length bs
length-drop_pos n b bs h = omega (arith, length-drop n (b ∷ bs))

pub drop-ne-nil : (n : ℕ) (xs : Bytes) → n < length xs → drop n xs ≢ []
drop-ne-nil n xs h e = absurd (omega (arith, length-drop n xs, ap length e))

module _ (h : ℕ) (last : Bool) (lt : h < 256) where
  -- The middle fragments and the last one.
  collect-fu_loop :
      (fuel k : ℕ) (acc rest : Bytes) (s : Stream)
      → rest ≢ []
      → length rest ≤ fuel
      → collect acc (payloads (fu_loop always fuel k h last false rest s).0) ≡ some (acc ++ rest)
  collect-fu_loop zero k acc [] s ne le = absurd (ne refl)
  collect-fu_loop zero k acc (b ∷ bs) s ne le = absurd (omega arith)
  collect-fu_loop (suc fuel) k acc [] s ne le = absurd (ne refl)
  collect-fu_loop (suc fuel) k acc (b ∷ bs) s ne le =
      let rest = b ∷ bs in
      let n = fu_chunk (length rest) in
      let low = fu_chunk-le (length rest) in
      let high = fu_chunk_pos (length rest) (omega arith) in
      let after = drop n rest in
      elim (Bool-cases (leb (length rest) n)) [
        | inl done ↦ rw (fu_loop_step fuel k h last false b bs s n true refl (sym done)) (
            rw (drop-all n rest (leb→le (length rest) n done), fu_loop-nil)
              (rw (take-all n rest (leb→le (length rest) n done)) (
                collect_last acc rest _ _ (omega (arith, fu_indicator_lem h lt))
                  (rw (fu_header_lem h false true lt) (omega arith))
                  (rw (fu_header_lem h false true lt) (omega arith)))))
        | inr more ↦ rw (fu_loop_step fuel k h last false b bs s n false refl (sym more)) (
            collect_more acc (take n rest) _ _ _ (omega (arith, fu_indicator_lem h lt))
              (rw (fu_header_lem h false false lt) (omega arith))
              (rw (fu_header_lem h false false lt) (omega arith))
            ∙ collect-fu_loop fuel (suc k) (acc ++ take n rest) after (next_seq s)
                (drop-ne-nil n rest (leb_false→lt (length rest) n more))
                (omega (arith, length-drop_pos n b bs high))
            ∙ ap some (
                append_assoc acc (take n rest) after
                ∙ ap (λ t. acc ++ t) (take-append-drop n rest)))
      ]

  -- A payload of more than one fragment, from its start.
  depacketize-fu_loop :
      (payload : Bytes) (s : Stream)
      → 1198 < length payload
      → depacketize (payloads (fu_loop always (length payload) 0 h last true payload s).0)
        ≡ some (h ∷ payload)
  depacketize-fu_loop [] s le = absurd (omega arith)
  depacketize-fu_loop (b ∷ bs) s le =
      let rest = b ∷ bs in
      rw
        (fu_loop_step (length bs) 0 h last true b bs s 1198 false (unfold fu_chunk in ground arith)
          (ground arith))
        (start_lem (take 1198 rest) _ _ _ (omega (arith, fu_indicator_lem h lt))
            (rw (fu_header_lem h true false lt) (omega arith))
          ∙ collect-fu_loop (length bs) 1 _ (drop 1198 rest) (next_seq s) (drop-ne-nil 1198 rest le)
              (length-drop_pos 1198 b bs (omega arith))
          ∙ ap some (
              ap₂ (λ x t. x ∷ t)
                (omega (arith, fu_indicator_lem h lt, fu_header_lem h true false lt))
                (take-append-drop 1198 rest)))

-- A receiver of the packets for a NAL unit gets back the unit, byte for byte, whatever the send
-- state is, if every packet buffer can be allocated. The unit's first byte is a byte; a unit short
-- enough for a single packet does not itself have the type 28 of a fragment.
pub depacketize-nalu_packets :
    (h : ℕ) (payload : Bytes) (is_last : Bool) (s : Stream)
    → h < 256
    → h % 32 ≢ 28
    → depacketize (payloads (nalu_packets always (h ∷ payload) is_last s).0) ≡ some (h ∷ payload)
unfolding nalu_packets depacketize
depacketize-nalu_packets h payload is_last s lt type =
    elim (Bool-cases (leb (length (h ∷ payload)) 1200)) [
      | inl small ↦ rw small (ground arith)
      | inr large ↦ rw large (
          depacketize-fu_loop h is_last lt payload s
            (omega (arith, leb_false→lt (length (h ∷ payload)) 1200 large)))
    ]
