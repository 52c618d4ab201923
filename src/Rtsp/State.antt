-- ===== src/Rtsp/State.antt =====
-- The state of rtsp_server.c: `struct rtsp_client`, `g_rtsp` and the devices behind it, and the
-- replies. A pointer to a client is its `id`; a `udp_sock` pointer is whether it is set.
use smart_lock_intercom.Base.{
  ℕ, Bool, true, false, ◌&&◌, ◌||◌, Option, none, List, [], ◌∷◌, Bytes, ltb, leb, ◌==◌,
  if◌then◌else◌,
}
use smart_lock_intercom.Base.Int.{ℤ}
use smart_lock_intercom.Camera
use smart_lock_intercom.Camera.{Camera, Encoded}
use smart_lock_intercom.AudioIn.{AudioIn}
use smart_lock_intercom.AudioOut.{AudioOut}
use smart_lock_intercom.Auth.{AuthState}
use smart_lock_intercom.Rtp.{Packet, Stream}

pub data RtspState : Type 0 where
  idle ready playing : RtspState

pub record RtspClient : Type 0 where
  pub id : ℕ
  -- Whether `tcp_conn_peer_get` gives a loopback address.
  pub loopback : Bool
  pub rbuf : Bytes
  pub state : RtspState
  -- The number behind the eight hexadecimal digits, once they are there.
  pub session_id : Option ℕ
  pub interleaved : Bool
  pub rtp_video : Bool
  pub video_dest : ℕ
  pub video_srv_port : ℕ
  pub video_interleaved : ℕ
  pub video_interleaved_rtcp : ℕ
  pub video : Stream
  pub rtp_audio : Bool
  pub audio_dest : ℕ
  pub audio_srv_port : ℕ
  pub audio_interleaved : ℕ
  pub audio_interleaved_rtcp : ℕ
  pub audio : Stream
  pub video_setup : Bool
  pub audio_setup : Bool
  pub backchannel_setup : Bool
  pub backchannel_interleaved : ℕ
  pub backchannel_interleaved_rtcp : ℕ
  pub audio_out_opened : Bool
  -- Whether `tmr_timeout` is running.
  pub tmr_timeout : Bool

-- `g_rtsp`, with the modules that it drives.
pub record World : Type 0 where
  pub clients : List RtspClient
  pub tmr_audio : Bool
  pub tmr_video : Bool
  pub camera_opened : Bool
  pub video_frame_count : ℕ
  pub mic_opened : Bool
  pub local_ip : Bytes
  pub port : ℕ
  pub camera : Camera
  pub mic : AudioIn
  pub speaker : AudioOut
  pub auth : AuthState

-- The headers that a handler adds to its reply, by the values that their format takes.
pub data Headers : Type 0 where
  no_headers : Headers
  public_methods : Headers
  content_base : Bytes → Headers
  -- The RTP and RTCP channels, and the SSRC where the format has it.
  tcp_transport : ℕ → ℕ → Option ℕ → Headers
  -- The client's two ports, the server's RTP port, and the SSRC.
  udp_transport : ℕ → ℕ → ℕ → ℕ → Headers
  -- The base URI, the video and audio numbers, and whether there is a backchannel.
  rtp_info : Bytes → Stream → Stream → Bool → Headers
  challenge : Bytes → Headers

-- The SDP of `handle_describe` by what varies in it: our address, and SPS and PPS if known.
pub data Body : Type 0 where
  no_body : Body
  sdp : Bytes → Option (Bytes × Bytes) → Body

pub record Reply : Type 0 where
  pub cseq : ℤ
  pub code : ℕ
  pub session : Option ℕ
  pub headers : Headers
  pub body : Body

-- What leaves the server: replies, RTP packets on a channel of a client's connection or to a port
-- of its host, and samples for the speaker.
pub data Output : Type 0 where
  replies : ℕ → Reply → Output
  frames : ℕ → ℕ → Packet → Output
  datagram : ℕ → ℕ → Packet → Output
  plays : List ℤ → Output

-- What the libraries and the system answer while one request is served.
pub record Answers : Type 0 where
  -- `mbuf_alloc` and the printing in `rtsp_reply`.
  pub reply_ok : Bool
  -- `rand_u32` for an SSRC and for a session.
  pub ssrc : ℕ
  pub session : ℕ
  -- `udp_listen`: the port that it bound.
  pub bound_port : Option ℕ
  pub camera_setup : Camera.Setup
  pub encoded : Encoded
  pub mic_opens : Bool
  pub mic_starts : Bool
  pub speaker_opens : Bool
  -- The k-th packet buffer of NAL unit i of a frame.
  pub video_alloc : ℕ → ℕ → Bool
  pub audio_alloc : Bool
  -- `rand` and the stale bytes of a stack frame, for the authentication.
  pub rand : ℕ → ℕ
  pub stale : ℕ → ℕ

abbrev pub is_playing : RtspState → Bool
is_playing playing = true
is_playing _ = false

abbrev pub is_idle : RtspState → Bool
is_idle idle = true
is_idle _ = false

-- `has_playing_clients`.
unfoldable pub has_playing_clients : List RtspClient → Bool
has_playing_clients [] = false
has_playing_clients (c ∷ cs) = is_playing c.state || has_playing_clients cs

-- A change of a client in place.
unfoldable pub store : RtspClient → List RtspClient → List RtspClient
store c [] = []
store c (d ∷ ds) = if d.id == c.id then c ∷ ds else d ∷ store c ds

-- `list_unlink`.
unfoldable pub unlink : ℕ → List RtspClient → List RtspClient
unlink id [] = []
unlink id (d ∷ ds) = if d.id == id then ds else d ∷ unlink id ds

abbrev is_success : ℕ → Bool
is_success code = leb 200 code && ltb code 300

-- `rtsp_reply`; the error of `tcp_send` is only logged by its callers.
unfoldable pub rtsp_reply : Answers → RtspClient → ℤ → ℕ → Headers → Body → List Output
rtsp_reply ans c cseq code headers body =
    let session = if is_success code then c.session_id else none in
    if ans.reply_ok
    then replies c.id
        (record { cseq = cseq; code = code; session = session; headers = headers; body = body })
      ∷ []
    else []
