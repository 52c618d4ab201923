-- ===== src/Tests/Replies.antt =====
-- Replies of rtsp_server.c, as a client reads them.
use smart_lock_intercom.Base.{
  ◌≡◌, refl, true, some, none, [], ◌∷◌, ◌++◌, Bytes, length, replicate, Option, arith, ◌+◌, ◌*◌,
  ◌/◌,
}
use smart_lock_intercom.Base.Int.{pos}
use smart_lock_intercom.CString.{codes}
use smart_lock_intercom.Camera
use smart_lock_intercom.Camera.{Camera, camera_get_sps_pps}
use smart_lock_intercom.Rtsp.State.{RtspClient, World, Reply, content_base, sdp}
use smart_lock_intercom.Rtsp.Reply.{reply_text, body_text}
use smart_lock_intercom.Rtsp.Reply.Lines.{has_no_cr-Without}
use smart_lock_intercom.Rtsp.Reply.Reader.{read_response}
use smart_lock_intercom.Rtsp.Reply.RoundTrip.{read_response-reply_text, session_value}
use smart_lock_intercom.Rtsp.Reply.Sent.{Reads, play_response, handle_play-read}
use smart_lock_intercom.Rtsp.Request.{RtspReq}
use smart_lock_intercom.Rtsp.Handlers.Describe.{handle_describe}
use smart_lock_intercom.Rtsp.Handlers.Play.{strip_slashes, handle_play}
use smart_lock_intercom.Tests.Data.{ans, world, player, req, pcm2ulaw}

-- Base64 in its length.
base64 : Bytes → Bytes
base64 s = replicate ((length s + 2) / 3 * 4) b'A'

abbrev described : Reply
described = record {
  cseq = pos 3;
  code = 200;
  session = some 0x1234;
  headers = content_base (codes "rtsp://h/live");
  body = sdp (codes "10.0.0.1") none;
}

read_response-reply_text_example :
    read_response (reply_text base64 described ++ codes "RTSP/1.0")
    ≡ some (
      record {
        code = some (pos 200);
        cseq = some (pos 3);
        session = session_value (some 0x1234);
        body = body_text base64 (sdp (codes "10.0.0.1") none);
      },
      codes "RTSP/1.0",
    )
read_response-reply_text_example =
    read_response-reply_text base64 described (codes "RTSP/1.0") (omega arith) (omega arith)
      (has_no_cr-Without (codes "rtsp://h/live") refl, omega arith)

-- The server of a freshly opened camera with SPS and PPS, and a client that describes it.
abbrev params : Camera
params = record Camera.cleared { sps = 0x67 ∷ 1 ∷ []; pps = 0x68 ∷ 2 ∷ []; has_params = true }

abbrev home : World
home = record world { camera = params; local_ip = codes "10.0.0.1" }

abbrev describe : RtspReq
describe = record req { method = codes "DESCRIBE"; uri = codes "rtsp://h/live" }

abbrev home_params : Option (Bytes × Bytes)
home_params = camera_get_sps_pps (handle_describe ans describe player home).0.camera

-- A URI of 160 bytes, which the RTP-Info of a client with a backchannel names three times.
abbrev long_uri : Bytes
long_uri = replicate 160 b'a'

abbrev play : RtspReq
play = record req { uri = long_uri }

abbrev talking : RtspClient
talking = record player { backchannel_setup = true; backchannel_interleaved = 4 }

handle_play-read_example :
    Reads base64 1
      (handle_play pcm2ulaw ans play world talking).outputs
      []
      (play_response (strip_slashes long_uri) (pos 0) talking)
unfolding strip_slashes
handle_play-read_example =
    handle_play-read base64 pcm2ulaw ans play world talking refl refl (omega arith)
      (has_no_cr-Without (strip_slashes long_uri) refl)

-- It is the reply that does not end.
play_response-cut : play_response (strip_slashes long_uri) (pos 0) talking ≡ none
unfolding strip_slashes smart_lock_intercom.Libre.decimal
play_response-cut = refl
