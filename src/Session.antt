-- ===== src/Session.antt =====
-- intercom_test/src/session.c: a call, which sends the camera's frames and a test tone to one peer
-- as plain RTP and plays what comes back. libre's socket, RTP header decoder and mu-law encoder are
-- arguments, and so is the tone, which the source computes with `sin` on doubles.
pub mod Frame
pub mod Sharing
pub mod Life
use smart_lock_intercom.Base.{
  ℕ, zero, suc, ◌+◌, ◌%◌, ◌^◌, Bool, true, false, not, Option, some, none, List, [], ◌∷◌, ◌++◌,
  Bytes, map, length, ltb, ◌==◌, if◌then◌else◌,
}
use smart_lock_intercom.Base.Int.{ℤ}
use smart_lock_intercom.Status.{Status, success, enomem, is_ok}
use smart_lock_intercom.Camera
use smart_lock_intercom.Camera.{
  Camera, CameraFrame, Encoded, camera_open, camera_close, camera_get_frame,
}
use smart_lock_intercom.AudioOut.{AudioOut, audio_out_open, audio_out_close, audio_out_play}
use smart_lock_intercom.Rtp.{
  Packet, Stream, is_nil, pt_pcmu, header_of, next_seq, advance_ts, nalu_packets,
}

-- An address as the program sees it: whether `sa_isset(&sa, SA_ALL)`, and its text for `%J`.
pub record Peer : Type 0 where
  pub is_set : Bool
  pub printed : Bytes

-- `struct intercom_session`, less its socket.
pub record Session : Type 0 where
  pub peer_addr : Peer
  pub local_port : ℕ
  pub tmr_audio : Bool
  pub tmr_video : Bool
  pub video : Stream
  pub video_frame_count : ℕ
  pub audio : Stream
  pub active : Bool

-- The camera and the speaker, which the calls share with the RTSP server.
pub record Devices : Type 0 where
  pub camera : Camera
  pub speaker : AudioOut

-- What the libraries and the system answer to `session_alloc`.
pub record SessionAnswers : Type 0 where
  pub allocates : Bool
  pub ssrc : ℕ
  pub video_ssrc : ℕ
  pub camera_setup : Camera.Setup
  pub speaker_opens : Bool
  pub listen : Status
  pub bound_port : ℕ

unfoldable pub session_destructor : Devices → Devices
session_destructor d = record {
  camera = camera_close d.camera;
  speaker = audio_out_close d.speaker;
}

abbrev pub fresh_session : SessionAnswers → Peer → Session
fresh_session a peer = record {
  peer_addr = peer;
  local_port = a.bound_port;
  tmr_audio = true;
  tmr_video = true;
  video = record { seq = 0; ts = 0; ssrc = a.video_ssrc };
  video_frame_count = 0;
  audio = record { seq = 0; ts = 0; ssrc = a.ssrc };
  active = true;
}

-- A speaker that does not open is only logged. Every other failure releases the new session, whose
-- destructor closes the devices.
unfoldable pub session_alloc : SessionAnswers → Peer → Devices → Devices × Status × Option Session
session_alloc a peer d =
    let cam = camera_open a.camera_setup 320 240 15 d.camera in
    let out = audio_out_open a.speaker_opens 8000 1 d.speaker in
    let filmed : Devices = record { camera = cam.0; speaker = d.speaker } in
    let ready : Devices = record { camera = cam.0; speaker = out.0 } in
    if not a.allocates
    then (d, enomem, none)
    else if not (is_ok cam.1)
    then (session_destructor filmed, cam.1, none)
    else if not (is_ok a.listen)
    then (session_destructor ready, a.listen, none)
    else (ready, success, some (fresh_session a peer))

-- What `rtp_hdr_decode` makes of a datagram, with the bytes behind the header.
pub record Decoded : Type 0 where
  pub ver : ℕ
  pub pt : ℕ
  pub rest : Bytes

play_decoded : Option Decoded → Devices → Devices × Option (List ℤ)
play_decoded none d = (d, none)
play_decoded (some h) d =
    let r = audio_out_play h.rest d.speaker in
    if not (h.ver == 2)
    then (d, none)
    else if h.pt == pt_pcmu
    then (record d { speaker = r.0 }, r.1)
    else (d, none)

-- The samples are those that go to the speaker. (`audio_out_play` does nothing on no bytes.)
unfoldable pub udp_recv_handler :
    (Bytes → Option Decoded) → Bytes → Session → Devices → Devices × Option (List ℤ)
unfolding play_decoded
udp_recv_handler rtp_hdr_decode mb s d =
    if not s.active
    then (d, none)
    else if ltb (length mb) 12
    then (d, none)
    else play_decoded (rtp_hdr_decode mb) d

-- `n` samples of the tone from `phase` on, a `uint32_t`.
unfoldable pub tone_from : (ℕ → ℤ) → ℕ → ℕ → List ℤ
tone_from tone zero phase = []
tone_from tone (suc n) phase = tone phase ∷ tone_from tone n ((phase + 1) % 2 ^ 32)

abbrev tone_packet : (ℤ → ℕ) → (ℕ → ℤ) → ℕ → Session → Packet
tone_packet pcm2ulaw tone phase s = record {
  header = header_of s.audio pt_pcmu false;
  payload = map pcm2ulaw (tone_from tone 160 phase);
}

-- The static `phase`, the session and the packets that leave. The timer has run out when its
-- handler is called.
unfoldable pub audio_send_timer : (ℤ → ℕ) → (ℕ → ℤ) → Bool → ℕ → Session → ℕ × Session × List Packet
audio_send_timer pcm2ulaw tone alloc phase s =
    let later = (phase + 160) % 2 ^ 32 in
    let restarted = record s { tmr_audio = true } in
    let sent = record s { tmr_audio = true; audio = advance_ts 160 (next_seq s.audio) } in
    if not s.active
    then (phase, record s { tmr_audio = false }, [])
    else if not s.peer_addr.is_set
    then (phase, restarted, [])
    else if not alloc
    then (later, restarted, [])
    else (later, sent, tone_packet pcm2ulaw tone phase s ∷ [])

unfoldable pub send_h264_nalu_rtp : (ℕ → Bool) → Bytes → Bool → Stream → List Packet × Stream
send_h264_nalu_rtp alloc nalu is_last_nalu s = nalu_packets alloc nalu is_last_nalu s

-- The loop over the NAL units of a frame; `alloc i k` is the k-th buffer of unit i.
unfoldable pub send_frame : (ℕ → ℕ → Bool) → List Bytes → Stream → List Packet × Stream
send_frame alloc [] s = ([], s)
send_frame alloc (n ∷ ns) s =
    let r = send_h264_nalu_rtp (alloc 0) n (is_nil ns) s in
    let more = send_frame (λ i. alloc (suc i)) ns r.1 in (r.0 ++ more.0, more.1)

abbrev send_captured : (ℕ → ℕ → Bool) → Option CameraFrame → Session → Session × List Packet
send_captured alloc none s = (s, [])
send_captured alloc (some f) s =
    let r = send_frame alloc f.nalus s.video in
    (
      record s {
        video = advance_ts 6000 r.1;
        video_frame_count = (s.video_frame_count + 1) % 2 ^ 32;
      },
      r.0,
    )

unfoldable pub video_send_timer :
    (ℕ → ℕ → Bool) → Encoded → Session → Devices → Devices × Session × List Packet
video_send_timer alloc encoded s d =
    let r = camera_get_frame encoded d.camera in
    let sent = send_captured alloc r.2 (record s { tmr_video = true }) in
    if not s.active
    then (d, record s { tmr_video = false }, [])
    else if not s.peer_addr.is_set
    then (d, record s { tmr_video = true }, [])
    else (record d { camera = r.0 }, sent.0, sent.1)

-- `session_close` of a session that is not NULL.
unfoldable pub session_close : Session → Session
session_close s = record s { tmr_audio = false; tmr_video = false; active = false }
