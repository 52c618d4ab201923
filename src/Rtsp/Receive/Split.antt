-- ===== src/Rtsp/Receive/Split.antt =====
-- How `rtsp_recv_handler` of rtsp_server.c cuts the receive buffer into messages.
use smart_lock_intercom.Base.{
  ℕ, zero, suc, ◌+◌, ◌<◌, ◌≤◌, ◌≡◌, refl, ap, ◌⊎◌, inl, inr, false, some, [], ◌∷◌, ◌++◌, Bytes,
  length, take, drop, ltb, ◌==◌, arith, Bool-cases, Option-cases, length-append, length-drop,
  le→ltb,
}
use smart_lock_intercom.CString.{c_str, strstr}
use smart_lock_intercom.CString.Find.{strstr-append, strstr_lem, has_prefix-length}
use smart_lock_intercom.Rtsp.Interleaved.{more_needed, read_frame, be16}
use smart_lock_intercom.Rtsp.Receive.{
  Message, incomplete, frame, request, blank_line, of_framing, of_search, next_message,
}

-- The message that the same buffer holds when `more` has come behind it.
abbrev pub followed : Bytes → Message → Message
followed more incomplete = incomplete
followed more (frame channel rtp rest) = frame channel rtp (rest ++ more)
followed more (request before rest) = request before (rest ++ more)

take_within : (n : ℕ) (xs ys : Bytes) → n ≤ length xs → take n (xs ++ ys) ≡ take n xs
take_within zero xs ys h = refl
take_within (suc n) [] ys h = absurd (omega arith)
take_within (suc n) (x ∷ xs) ys h = ap (◌∷◌ x) (take_within n xs ys (omega arith))

drop_within : (n : ℕ) (xs ys : Bytes) → n ≤ length xs → drop n (xs ++ ys) ≡ drop n xs ++ ys
drop_within zero xs ys h = refl
drop_within (suc n) [] ys h = absurd (omega arith)
drop_within (suc n) (x ∷ xs) ys h = drop_within n xs ys (omega arith)

c_str-append : (xs ys : Bytes) → (tail : Bytes) × (c_str (xs ++ ys) ≡ c_str xs ++ tail)
unfolding c_str
c_str-append [] ys = (c_str ys, refl)
c_str-append (x ∷ xs) ys = elim (Bool-cases (x == 0)) [
  | inl nul ↦ ([], rw nul refl)
  | inr not_nul ↦ let (tail, e) = c_str-append xs ys in (tail, rw not_nul (ap (◌∷◌ x) e))
]

length-c_str : (xs : Bytes) → length (c_str xs) ≤ length xs
unfolding c_str
length-c_str [] = omega arith
length-c_str (x ∷ xs) = elim (Bool-cases (x == 0)) [
  | inl nul ↦ rw nul (omega arith)
  | inr not_nul ↦ rw not_nul (omega (arith, length-c_str xs))
]

frame-followed :
    (buf more : Bytes)
    → (read_frame buf ≡ more_needed)
      ⊎ (of_framing (read_frame (buf ++ more)) ≡ followed more (of_framing (read_frame buf)))
unfolding read_frame
frame-followed [] more = inl refl
frame-followed (a ∷ []) more = inl refl
frame-followed (a ∷ b ∷ []) more = inl refl
frame-followed (channel ∷ hi ∷ lo ∷ rest) more =
    let n = be16 hi lo in
    elim (Bool-cases (ltb (length rest) n)) [
      | inl short ↦ inl (rw short refl)
      | inr enough ↦
          let le : n ≤ length rest = ground arith in
          let e : ltb (length (rest ++ more)) n ≡ false =
            le→ltb _ _ (omega (arith, length-append rest more)) in
          inr (rw (enough, e, take_within n rest more le, drop_within n rest more le) refl)
    ]

-- The part behind the blank line lies within the buffer.
found-within :
    (buf : Bytes) {before eor : Bytes}
    → strstr (c_str buf) blank_line ≡ some (before, eor)
    → length before + 4 ≤ length buf
found-within buf {before} {eor} found =
    let h = strstr_lem (c_str buf) blank_line found in
    omega (
      arith,
      length-c_str buf,
      ap length h.0,
      length-append before eor,
      has_prefix-length eor blank_line h.1,
    )

request-followed :
    (buf more : Bytes) {before eor : Bytes}
    → strstr (c_str buf) blank_line ≡ some (before, eor)
    → of_search (buf ++ more) (strstr (c_str (buf ++ more)) blank_line)
      ≡ request before (drop (length before + 4) buf ++ more)
request-followed buf more {before} {eor} found =
    let (tail, e) = c_str-append buf more in
    rw
      (
        e,
        strstr-append (c_str buf) blank_line tail found,
        drop_within (length before + 4) buf more (found-within buf found),
      )
      refl

-- Once a message is complete in the receive buffer, bytes that come in behind it change neither it
-- nor where the next one starts.
pub next_message-followed :
    (buf more : Bytes)
    → (next_message buf ≡ incomplete)
      ⊎ (next_message (buf ++ more) ≡ followed more (next_message buf))
unfolding next_message
next_message-followed [] more = inl refl
next_message-followed (c ∷ buf) more = elim (Bool-cases (c == b'$')) [
  | inl dollar ↦
      rw dollar
        (elim (frame-followed buf more) [ inl waits ↦ inl (ap of_framing waits) | inr e ↦ inr e ])
  | inr text ↦ rw text (elim (Option-cases (strstr (c_str (c ∷ buf)) blank_line)) [
    | inl waits ↦ inl (rw waits refl)
    | inr ((before, eor), found) ↦ inr (rw found (request-followed (c ∷ buf) more found))
  ])
]

-- What is left of the buffer behind a message.
abbrev pub left_behind : Message → Bytes
left_behind incomplete = []
left_behind (frame channel rtp rest) = rest
left_behind (request before rest) = rest

-- A message takes bytes from the buffer.
pub next_message-shrinks :
    (buf : Bytes)
    → (next_message buf ≡ incomplete) ⊎ (length (left_behind (next_message buf)) < length buf)
unfolding next_message read_frame
next_message-shrinks [] = inl refl
next_message-shrinks (c ∷ buf) = elim (Bool-cases (c == b'$')) [
  | inl dollar ↦ rw dollar (shorter buf)
  | inr text ↦ rw text (elim (Option-cases (strstr (c_str (c ∷ buf)) blank_line)) [
    | inl waits ↦ inl (rw waits refl)
    | inr ((before, eor), found) ↦ inr (
        rw found
          (omega (arith, found-within (c ∷ buf) found, length-drop (length before + 4) (c ∷ buf))))
  ])
]
  where
    shorter :
        (buf : Bytes)
        → (of_framing (read_frame buf) ≡ incomplete)
          ⊎ (length (left_behind (of_framing (read_frame buf))) < suc (length buf))
    shorter [] = inl refl
    shorter (a ∷ []) = inl refl
    shorter (a ∷ b ∷ []) = inl refl
    shorter (channel ∷ hi ∷ lo ∷ rest) = elim (Bool-cases (ltb (length rest) (be16 hi lo))) [
      | inl short ↦ inl (rw short refl)
      | inr enough ↦ inr (rw enough (omega (arith, length-drop (be16 hi lo) rest)))
    ]
