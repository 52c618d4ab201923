-- ===== src/Rtsp/Receive.antt =====
-- `rtsp_recv_handler` of rtsp_server.c: the receive buffer, the messages in it and what they do.
pub mod Split
pub mod Drain
use smart_lock_intercom.Base.{
  ℕ, zero, suc, ◌+◌, Bool, true, false, ◌&&◌, Option, some, none, List, [], ◌∷◌, ◌++◌, Bytes,
  length, drop, ltb, ◌==◌, if◌then◌else◌,
}
use smart_lock_intercom.Base.Int.{ℤ}
use smart_lock_intercom.CString.{c_str, strstr}
use smart_lock_intercom.AudioOut.{AudioOut, audio_out_play}
use smart_lock_intercom.Rtsp.Interleaved.{
  Framing, more_needed, framed, read_frame, backchannel_payload,
}
use smart_lock_intercom.Rtsp.Media.{client_destructor}
use smart_lock_intercom.Rtsp.State.{RtspClient, World, Answers, Output, plays, store}
use smart_lock_intercom.Rtsp.Dispatch.{Dispatched, dispatch_rtsp}

-- The first message of the buffer: a frame with its channel, or the text of a request up to its
-- blank line; and the bytes behind it.
pub data Message : Type 0 where
  incomplete : Message
  frame : ℕ → Bytes → Bytes → Message
  request : Bytes → Bytes → Message

abbrev pub blank_line : Bytes
blank_line = 13 ∷ 10 ∷ 13 ∷ 10 ∷ []

abbrev pub of_framing : Framing → Message
of_framing more_needed = incomplete
of_framing (framed channel rtp rest) = frame channel rtp rest

-- `req_len` is four more than the length of the text before the blank line.
abbrev pub of_search : Bytes → Option (Bytes × Bytes) → Message
of_search buf none = incomplete
of_search buf (some (before, eor)) = request before (drop (length before + 4) buf)

unfoldable pub next_message : Bytes → Message
next_message [] = incomplete
next_message (c ∷ buf) =
    if c == b'$'
    then of_framing (read_frame buf)
    else of_search (c ∷ buf) (strstr (c_str (c ∷ buf)) blank_line)

abbrev pub play_payload : Option Bytes → World → World × List Output
play_payload none w = (w, [])
play_payload (some pcmu) w =
    let r = audio_out_play pcmu w.speaker in
    (record w { speaker = r.0 }, elim r.1 [ none ↦ [] | some pcm ↦ plays pcm ∷ [] ])

-- A frame of the client: sound for the speaker on the backchannel, dropped on another channel.
unfoldable pub recv_frame : ℕ → Bytes → World → RtspClient → World × List Output
recv_frame channel rtp w c =
    if c.backchannel_setup && channel == c.backchannel_interleaved && c.audio_out_opened
    then play_payload (backchannel_payload rtp) w
    else (w, [])

abbrev pub with_outputs : List Output → Dispatched → Dispatched
with_outputs os d = record d { outputs = os ++ d.outputs }

-- The loop over the messages of the buffer. The k-th request has the answers `ans k`.
unfoldable pub recv_loop :
    (Bytes → Bytes) → (ℤ → ℕ) → ℕ → (ℕ → Answers) → World → RtspClient → Dispatched
unfolding recv_frame
recv_loop md5 pcm2ulaw zero ans w c = record { world = w; client = some c; outputs = [] }
recv_loop md5 pcm2ulaw (suc fuel) ans w c = elim (next_message c.rbuf) [
  | incomplete ↦ record { world = w; client = some c; outputs = [] }
  | frame channel rtp rest ↦
      let r = recv_frame channel rtp w c in
      with_outputs r.1 (recv_loop md5 pcm2ulaw fuel ans r.0 (record c { rbuf = rest }))
  | request before rest ↦
      let d = dispatch_rtsp md5 pcm2ulaw (ans 0) (c_str c.rbuf) (length before + 4) w c in
      elim d.client [
        | none ↦ d
        | some e ↦
            with_outputs d.outputs
              (recv_loop md5 pcm2ulaw fuel (λ k. ans (suc k)) d.world (record e { rbuf = rest }))
      ]
]

-- The client's new state in its place.
abbrev pub keep_client : Option RtspClient → World → World
keep_client none w = w
keep_client (some c) w = record w { clients = store c w.clients }

abbrev keep : Dispatched → Dispatched
keep d = record d { world = keep_client d.client d.world }

abbrev pub rbuf_limit : ℕ
rbuf_limit = 16384

-- `received` is what one `tcp_recv` brings.
unfoldable pub rtsp_recv_handler :
    (Bytes → Bytes) → (ℤ → ℕ) → (ℕ → Answers) → Bytes → World → RtspClient → Dispatched
rtsp_recv_handler md5 pcm2ulaw ans received w c =
    let appended = c.rbuf ++ received in
    if ltb rbuf_limit (length appended)
    then record { world = client_destructor c w; client = none; outputs = [] }
    else keep (recv_loop md5 pcm2ulaw (length appended) ans w (record c { rbuf = appended }))
