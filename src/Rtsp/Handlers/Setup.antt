-- ===== src/Rtsp/Handlers/Setup.antt =====
-- `handle_setup` of rtsp_server.c.
use smart_lock_intercom.Base.{
  ℕ, Bool, true, false, ◌&&◌, ◌||◌, not, Option, some, none, List, Bytes, ◌==◌, if◌then◌else◌,
  get_or,
}
use smart_lock_intercom.CString.{codes, strstr}
use smart_lock_intercom.Rtp.{Stream}
use smart_lock_intercom.Rtsp.Request.{RtspReq}
use smart_lock_intercom.Rtsp.Transport.{parse_client_port, parse_interleaved, is_tcp_transport}
use smart_lock_intercom.Rtsp.State.{
  RtspClient, ready, Answers, Output, Headers, no_headers, tcp_transport, udp_transport, no_body,
  rtsp_reply,
}

-- The char behind the track's name ends it.
abbrev ends_track : ℕ → Bool
ends_track c = c == 0 || (c == b'/' || (c == b'&' || (c == b';' || c == b' ')))

unfoldable pub has_track : Bytes → Bytes → Bool
has_track uri name = elim (strstr uri name) [
  | none ↦ false
  | some (before, p) ↦ ends_track (get_or p 9 0)
]

-- The three flags; more than one of the first three tests can hold.
pub record Track : Type 0 where
  pub is_video : Bool
  pub is_audio : Bool
  pub is_backchannel : Bool

abbrev default_track : Bool → Track → Track
default_track video_setup t =
    if not t.is_video && (not t.is_audio && not t.is_backchannel)
    then record { is_video = not video_setup; is_audio = video_setup; is_backchannel = false }
    else t

unfoldable pub track_of : Bool → Bytes → Track
track_of video_setup uri = default_track video_setup (record {
  is_video = has_track uri (codes "trackID=0");
  is_audio = has_track uri (codes "trackID=1");
  is_backchannel = has_track uri (codes "trackID=2");
})

-- The client after a SETUP and the Transport header of the reply, or the code of an error.
pub data SetupResult : Type 0 where
  accepted : RtspClient → Headers → SetupResult
  refused : ℕ → SetupResult

abbrev channels_of : Bool → Option (ℕ × ℕ) → ℕ × ℕ
channels_of is_video none = if is_video then (0, 1) else (2, 3)
channels_of is_video (some p) = p

abbrev new_ssrc : ℕ → Stream → Stream
new_ssrc ssrc s = record s { ssrc = ssrc }

unfoldable pub setup_tcp : Answers → Track → Bytes → RtspClient → SetupResult
setup_tcp ans t transport c =
    let ch = channels_of t.is_video (parse_interleaved transport) in
    if t.is_video
    then accepted
        (record c {
          interleaved = true;
          video_interleaved = ch.0;
          video_interleaved_rtcp = ch.1;
          video = new_ssrc ans.ssrc c.video;
          video_setup = true;
        })
        (tcp_transport ch.0 ch.1 (some ans.ssrc))
    else if t.is_backchannel
    then accepted
        (record c {
          interleaved = true;
          backchannel_interleaved = ch.0;
          backchannel_interleaved_rtcp = ch.1;
          backchannel_setup = true;
        })
        (tcp_transport ch.0 ch.1 none)
    else accepted
        (record c {
          interleaved = true;
          audio_interleaved = ch.0;
          audio_interleaved_rtcp = ch.1;
          audio = new_ssrc ans.ssrc c.audio;
          audio_setup = true;
        })
        (tcp_transport ch.0 ch.1 (some ans.ssrc))

-- `alloc_rtp_socket` for the video, unless there is a socket; `none` is its failure.
abbrev pub video_socket : Answers → RtspClient → Option RtspClient
video_socket ans c = if c.rtp_video then some c else elim ans.bound_port [
  | none ↦ none
  | some port ↦
      some (record c { rtp_video = true; video_srv_port = port; video = new_ssrc ans.ssrc c.video })
]

abbrev pub audio_socket : Answers → RtspClient → Option RtspClient
audio_socket ans c = if c.rtp_audio then some c else elim ans.bound_port [
  | none ↦ none
  | some port ↦
      some (record c { rtp_audio = true; audio_srv_port = port; audio = new_ssrc ans.ssrc c.audio })
]

abbrev pub finish_video : ℕ × ℕ → Option RtspClient → SetupResult
finish_video ports none = refused 500
finish_video ports (some c) =
    accepted (record c { video_dest = ports.0; video_setup = true })
      (udp_transport ports.0 ports.1 c.video_srv_port c.video.ssrc)

abbrev pub finish_audio : ℕ × ℕ → Option RtspClient → SetupResult
finish_audio ports none = refused 500
finish_audio ports (some c) =
    accepted (record c { audio_dest = ports.0; audio_setup = true })
      (udp_transport ports.0 ports.1 c.audio_srv_port c.audio.ssrc)

abbrev pub setup_ports : Answers → Track → Option (ℕ × ℕ) → RtspClient → SetupResult
setup_ports ans t none c = refused 461
setup_ports ans t (some ports) c =
    if t.is_video
    then finish_video ports (video_socket ans c)
    else finish_audio ports (audio_socket ans c)

-- Plain UDP, for a client on this host only.
unfoldable pub setup_udp : Answers → Track → Bytes → RtspClient → SetupResult
setup_udp ans t transport c =
    if t.is_backchannel
    then refused 461
    else if not c.loopback
    then refused 461
    else setup_ports ans t (parse_client_port transport) c

abbrev pub or_else : Option ℕ → ℕ → Option ℕ
or_else none n = some n
or_else (some m) n = some m

-- The session's number and the state, once the transport is settled.
abbrev pub enter_ready : Answers → RtspClient → RtspClient
enter_ready ans c = record c { session_id = or_else c.session_id ans.session; state = ready }

unfoldable pub finish_setup :
    Answers → RtspReq → RtspClient → SetupResult → RtspClient × List Output
finish_setup ans req c (refused code) = (c, rtsp_reply ans c req.cseq code no_headers no_body)
finish_setup ans req c (accepted d headers) =
    let e = enter_ready ans d in (e, rtsp_reply ans e req.cseq 200 headers no_body)

unfoldable pub handle_setup : Answers → RtspReq → RtspClient → RtspClient × List Output
handle_setup ans req c =
    let t = track_of c.video_setup req.uri in
    let r =
      if is_tcp_transport req.transport
      then setup_tcp ans t req.transport c
      else setup_udp ans t req.transport c in
    finish_setup ans req c r
