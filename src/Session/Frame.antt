-- ===== src/Session/Frame.antt =====
-- A frame of a call of session.c, from the NAL units to the packets and back.
use smart_lock_intercom.Base.{
  ℕ, suc, ◌+◌, ◌*◌, ◌/◌, ◌%◌, ◌<◌, ◌≡◌, ◌≢◌, refl, ap, subst, ◌∙◌, Bool, true, false, not, if_intro,
  Option, some, none, List, [], ◌∷◌, ◌++◌, Bytes, arith, All, ◌==◌, if◌then◌else◌, append-nil,
}
use smart_lock_intercom.Rtp.{Packet, Stream, is_nil, next_seq, advance_ts, nalu_packets}
use smart_lock_intercom.Rtp.Depacketize.{
  collect, start, depacketize, payloads, always, depacketize-nalu_packets,
}
use smart_lock_intercom.Rtp.Sequence.{Numbered, Marked, nalu_packets-Numbered, nalu_packets-Marked}
use smart_lock_intercom.Session.{Session, Devices, send_h264_nalu_rtp, send_frame, video_send_timer}
use smart_lock_intercom.Camera.{Camera, CameraFrame, Encoded, camera_get_frame}
use smart_lock_intercom.Status.{success}

abbrev add_unit : Bytes → Option (List Bytes) → Option (List Bytes)
add_unit u none = none
add_unit u (some us) = some (u ∷ us)

-- A receiver of a whole frame, by RFC 6184: `partial` is the unit that is coming in fragments, if
-- there is one. Nothing but fragments may come in between, and none may be missing at the end.
receive : Option Bytes → List Bytes → Option (List Bytes)
receive none [] = some []
receive (some acc) [] = none
receive (some acc) ((i ∷ h ∷ f) ∷ ps) =
    let more = receive (some (acc ++ f)) ps in
    let done = add_unit (acc ++ f) (receive none ps) in
    if i % 32 == 28
    then if h / 128 == 0 then if h / 64 % 2 == 1 then done else more else none
    else none
receive none ((b ∷ h ∷ f) ∷ ps) =
    let begun = receive (some ((b / 32 * 32 + h % 32) ∷ f)) ps in
    let whole = add_unit (b ∷ h ∷ f) (receive none ps) in
    if b % 32 == 28 then if h / 64 == 2 then begun else none else whole
receive none ((b ∷ []) ∷ ps) =
    let whole = add_unit (b ∷ []) (receive none ps) in if b % 32 == 28 then none else whole
receive _ _ = none

-- The NAL units that the payloads of some packets carry.
unfoldable pub receive_frame : List Bytes → Option (List Bytes)
unfolding receive
receive_frame ps = receive none ps

receive-collect :
    (acc : Bytes) (ps qs : List Bytes) (u : Bytes)
    → collect acc ps ≡ some u
    → receive (some acc) (ps ++ qs) ≡ add_unit u (receive none qs)
unfolding collect receive
receive-collect acc [] qs u e = cc
receive-collect acc ([] ∷ ps) qs u e = cc
receive-collect acc ((i ∷ []) ∷ ps) qs u e = cc
receive-collect acc ((i ∷ h ∷ f) ∷ []) qs u e = ground arith
receive-collect acc ((i ∷ h ∷ f) ∷ p ∷ ps) qs u e =
    ground (arith, receive-collect (acc ++ f) (p ∷ ps) qs u)

receive-depacketize :
    (ps qs : List Bytes) (u : Bytes)
    → depacketize ps ≡ some u
    → receive none (ps ++ qs) ≡ add_unit u (receive none qs)
unfolding depacketize start receive
receive-depacketize [] qs u e = cc
receive-depacketize ([] ∷ ps) qs u e = cc
receive-depacketize ((b ∷ []) ∷ []) qs u e = ground arith
receive-depacketize ((b ∷ []) ∷ p ∷ ps) qs u e = ground arith
receive-depacketize ((b ∷ h ∷ f) ∷ []) qs u e =
    ground (arith, receive-collect ((b / 32 * 32 + h % 32) ∷ f) [] qs u)
receive-depacketize ((b ∷ h ∷ f) ∷ p ∷ ps) qs u e =
    ground (arith, receive-collect ((b / 32 * 32 + h % 32) ∷ f) (p ∷ ps) qs u)

Numbered-append :
    (s t u : Stream) (ps qs : List Packet)
    → Numbered s ps t
    → Numbered t qs u
    → Numbered s (ps ++ qs) u
Numbered-append s t u [] qs e n = subst (λ (v : Stream). Numbered v qs u) e n
Numbered-append s t u (p ∷ ps) qs (a, b, c, d, e, rest) n =
    (a, b, c, d, e, Numbered-append (next_seq s) t u ps qs rest n)

Marked-append : (m : ℕ) (ps qs : List Packet) → Marked 0 ps → Marked m qs → Marked m (ps ++ qs)
Marked-append m (p ∷ []) (q ∷ qs) h k = (h, k)
Marked-append m (p ∷ p' ∷ ps) qs (h, h') k = (h, Marked-append m (p' ∷ ps) qs h' k)
Marked-append m (p ∷ []) [] h k = absurd k
Marked-append m [] qs h k = absurd h

-- A NAL unit with a header byte that is not the type of a fragment.
abbrev pub IsUnit : Bytes → Type 0
IsUnit [] = ⊥
IsUnit (h ∷ payload) = (h < 256) × (h % 32 ≢ 28)

abbrev pub all_buffers : ℕ → ℕ → Bool
all_buffers i k = true

payloads-append : (ps qs : List Packet) → payloads (ps ++ qs) ≡ payloads ps ++ payloads qs
payloads-append [] qs = refl
payloads-append (p ∷ ps) qs = ap (◌∷◌ p.payload) (payloads-append ps qs)

pub send_frame-received :
    (ns : List Bytes) (s : Stream)
    → All IsUnit ns
    → receive_frame (payloads (send_frame all_buffers ns s).0) ≡ some ns
unfolding receive_frame send_frame send_h264_nalu_rtp
send_frame-received [] s h = refl
send_frame-received ([] ∷ ns) s h = absurd h.0
send_frame-received ((h ∷ payload) ∷ ns) s ((lt, type), rest) =
    let r = nalu_packets always (h ∷ payload) (is_nil ns) s in
    let more = send_frame all_buffers ns r.1 in
    rw (payloads-append r.0 more.0) (
      receive-depacketize (payloads r.0) (payloads more.0) (h ∷ payload)
        (depacketize-nalu_packets h payload (is_nil ns) s lt type)
      ∙ ap (add_unit (h ∷ payload)) (send_frame-received ns r.1 rest))

send_frame-Numbered :
    (alloc : ℕ → ℕ → Bool) (ns : List Bytes) (s : Stream)
    → let r = send_frame alloc ns s in Numbered s r.0 r.1
unfolding send_frame send_h264_nalu_rtp
send_frame-Numbered alloc [] s = refl
send_frame-Numbered alloc (n ∷ ns) s =
    let r = nalu_packets (alloc 0) n (is_nil ns) s in
    let more = send_frame (λ i. alloc (suc i)) ns r.1 in
    Numbered-append s r.1 more.1 r.0 more.0 (nalu_packets-Numbered (alloc 0) n (is_nil ns) s)
      (send_frame-Numbered (λ i. alloc (suc i)) ns r.1)

send_frame-Marked :
    (n : Bytes) (ns : List Bytes) (s : Stream)
    → All IsUnit (n ∷ ns)
    → Marked 1 (send_frame all_buffers (n ∷ ns) s).0
unfolding send_frame send_h264_nalu_rtp
send_frame-Marked [] ns s h = absurd h.0
send_frame-Marked (h ∷ payload) [] s u =
    rw (append-nil (nalu_packets always (h ∷ payload) true s).0)
      (nalu_packets-Marked h payload true s)
send_frame-Marked (h ∷ payload) (n ∷ ns) s u =
    let r = nalu_packets always (h ∷ payload) false s in
    Marked-append 1 r.0 (send_frame all_buffers (n ∷ ns) r.1).0
      (nalu_packets-Marked h payload false s) (send_frame-Marked n ns r.1 u.1)

abbrev Sends : Session → List Bytes → Devices × Session × List Packet → Type 0
Sends s ns r =
    (receive_frame (payloads r.2) ≡ some ns)
    × Marked 1 r.2
    × ((t : Stream) × Numbered s.video r.2 t × (r.1.video ≡ advance_ts 6000 t))

-- When the camera gives a frame to an active call with a peer, and every buffer can be allocated,
-- a receiver of the packets that leave gets back the frame's NAL units, byte for byte and in order.
-- The marker bit is on the last packet and on no other. The packets take consecutive sequence
-- numbers from the call's on, its source and its one time stamp, and the call goes on with the
-- number after them and a time stamp 6000 ticks later. No unit has the type 28 of a fragment.
pub video_send_timer-receive_frame :
    (encoded : Encoded) (s : Session) (d : Devices) (cam : Camera) (n : Bytes) (ns : List Bytes)
    (key : Bool)
    → s.active ≡ true
    → s.peer_addr.is_set ≡ true
    → camera_get_frame encoded d.camera
      ≡ (cam, success, some (record { nalus = n ∷ ns; is_keyframe = key }))
    → All IsUnit (n ∷ ns)
    → let r = video_send_timer all_buffers encoded s d in
      (receive_frame (payloads r.2) ≡ some (n ∷ ns))
      × Marked 1 r.2
      × ((t : Stream) × Numbered s.video r.2 t × (r.1.video ≡ advance_ts 6000 t))
unfolding video_send_timer
video_send_timer-receive_frame encoded s d cam n ns key active set got units =
    let f : CameraFrame = record { nalus = n ∷ ns; is_keyframe = key } in
    let r = send_frame all_buffers (n ∷ ns) s.video in
    if_intro (Sends s (n ∷ ns)) (not s.active) (λ h. cc)
      (λ _.
        if_intro (Sends s (n ∷ ns)) (not s.peer_addr.is_set) (λ h. cc)
          (λ _. rw got (
            send_frame-received (n ∷ ns) s.video units,
            send_frame-Marked n ns s.video units,
            (r.1, send_frame-Numbered all_buffers (n ∷ ns) s.video, refl),
          )))
