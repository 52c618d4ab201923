-- ===== src/Tests/Calls.antt =====
-- Runs of the calls of session.c and http_server.c.
use smart_lock_intercom.Base.{
  ◌≡◌, refl, inl, true, false, Option, some, none, [], ◌∷◌, Bytes, arith,
}
use smart_lock_intercom.CString.{codes, str_eq_nocase, str_eq}
use smart_lock_intercom.Status.{success, ealready}
use smart_lock_intercom.Camera
use smart_lock_intercom.Camera.{camera_get_frame}
use smart_lock_intercom.AudioOut
use smart_lock_intercom.Rtp.{Stream, advance_ts}
use smart_lock_intercom.Rtp.Depacketize.{payloads}
use smart_lock_intercom.Rtp.Sequence.{Numbered, Marked}
use smart_lock_intercom.Rtsp.State.{World}
use smart_lock_intercom.Rtsp.Media.{ensure_media_started}
use smart_lock_intercom.Rtsp.Server
use smart_lock_intercom.Stun.Steps as Stun
use smart_lock_intercom.RelayClient.Steps as Client
use smart_lock_intercom.Rtsp.Server.Delivery.Addressed.{addressed}
use smart_lock_intercom.Rtsp.Server.Delivery.{video_send_timer-addressed}
use smart_lock_intercom.Session.{
  Peer, Session, Devices, SessionAnswers, fresh_session, session_alloc, video_send_timer,
}
use smart_lock_intercom.Session.Frame.{receive_frame, all_buffers, video_send_timer-receive_frame}
use smart_lock_intercom.Session.Sharing.{session_alloc-busy}
use smart_lock_intercom.Session.Life.{Live}
use smart_lock_intercom.Http.Calls.{peer_str, handle_call_create}
use smart_lock_intercom.Http.Calls.Peers.{peer_str_reads}
use smart_lock_intercom.Http.Calls.Answers.{Answered, handle_call_create-Answered}
use smart_lock_intercom.Http.Router.{Intercom, HttpMsg, HttpEnv, http_req_handler}
use smart_lock_intercom.Http.Router.Steps.{here, next, request, streams, devices_of, Reachable-Live}
use smart_lock_intercom.Rtsp.Invariant.Steps as Rtsp
use smart_lock_intercom.Http.Router.Safe.{http_req_handler_safe}
use smart_lock_intercom.Tests.Data.{md5, pcm2ulaw, encoded, ans, crowded, player}

abbrev peer : Peer
peer = record { is_set = true; printed = codes "10.0.0.2:5006" }

abbrev answers : SessionAnswers
answers = record {
  allocates = true;
  ssrc = 1;
  video_ssrc = 2;
  camera_setup = ans.camera_setup;
  speaker_opens = true;
  listen = success;
  bound_port = 5004;
}

abbrev off : Devices
off = record { camera = Camera.cleared; speaker = AudioOut.cleared }

abbrev on : Devices
on = record off { camera = record Camera.cleared { opened = true } }

abbrev call : Session
call = fresh_session answers peer

-- The camera's frame has the one unit 67 01.
abbrev filmed : Camera.Camera
filmed = (camera_get_frame encoded on.camera).0

got :
    camera_get_frame encoded on.camera
    ≡ (filmed, success, some (record { nalus = (0x67 ∷ 1 ∷ []) ∷ []; is_keyframe = true }))
unfolding camera_get_frame Camera.all_nalus Camera.layer_nalus Camera.start_code
    smart_lock_intercom.CString.has_prefix
got = refl

video_send_timer-receive_frame_example :
    let r = video_send_timer all_buffers encoded call on in
    (receive_frame (payloads r.2) ≡ some ((0x67 ∷ 1 ∷ []) ∷ []))
    × Marked 1 r.2
    × ((t : Stream) × Numbered call.video r.2 t × (r.1.video ≡ advance_ts 6000 t))
video_send_timer-receive_frame_example =
    video_send_timer-receive_frame encoded call on filmed (0x67 ∷ 1 ∷ []) [] true refl refl got
      ((omega arith, λ e. cc e), tt)

-- The RTSP server streams already.
abbrev streaming : World
streaming = record crowded { camera_opened = true; camera = on.camera }

session_alloc-busy_example :
    let r =
      session_alloc answers peer (record { camera = on.camera; speaker = AudioOut.cleared }) in
    let left = record streaming { camera = r.0.camera; speaker = r.0.speaker } in
    (r.1 ≡ ealready)
    × (left.speaker.opened ≡ false)
    × ((ensure_media_started ans left).camera.opened ≡ false)
    × ((Server.video_send_timer (λ c i k. true) encoded left).1 ≡ [])
session_alloc-busy_example =
    session_alloc-busy answers peer streaming ans (λ c i k. true) encoded refl refl refl

abbrev decode : Bytes → Option Peer
decode text = some peer

-- A second call, which takes the place of the first.
handle_call_create-Answered_example :
    Answered decode answers
      (peer_str [] [])
      (some call)
      on
      (handle_call_create decode answers [] [] (some call) on)
handle_call_create-Answered_example =
    handle_call_create-Answered decode answers [] [] (some call) on

peer_str_reads_example :
    peer_str (codes "{\"peer\": \"10.0.0.2:5006\"}") (7 ∷ []) ≡ codes "10.0.0.2:5006"
peer_str_reads_example =
    peer_str_reads (codes ": \"") b'1' (codes "0.0.0.2:5006") (codes "}") (7 ∷ [])
      (refl, (refl, (refl, tt))) refl (ground arith) (ground arith) (omega arith)

-- The server without a call, and requests to it.
abbrev pub quiet : Intercom
quiet = record {
  sess = none;
  bell = record { pending = false; timestamp = 0 };
  www_path = codes "www";
  devices = off;
}

abbrev env : HttpEnv
env = record {
  sa_decode = decode;
  session = answers;
  fopen = λ path. none;
  sent = success;
  now = 1000;
  stun = Stun.closed;
  relay = Client.zeroed;
}

abbrev asks_call : HttpMsg
asks_call = record { met = codes "POST"; path = codes "/api/call"; body = []; stale = [] }

abbrev asks_status : HttpMsg
asks_status = record { met = codes "GET"; path = codes "/api/status"; body = []; stale = [] }

abbrev pub called : Intercom
called = (http_req_handler env asks_call quiet).0

-- The RTSP server, which streams from the call's devices.
abbrev beside : World
beside = record streaming { camera = called.devices.camera; speaker = called.devices.speaker }

abbrev streamed : World
streamed = (Server.video_send_timer (λ k. all_buffers) encoded beside).0

Reachable-Live_example : Live called.sess (devices_of streamed)
Reachable-Live_example = Reachable-Live (
    next (next (here quiet refl) (request env asks_call quiet)) (
      streams {md5 = md5} {pcm2ulaw = pcm2ulaw} {w = beside} called refl
        (Rtsp.sends_video (λ k. all_buffers) encoded)))

http_req_handler_safe_example : (http_req_handler env asks_status called).0 ≡ called
unfolding str_eq_nocase str_eq
http_req_handler_safe_example = http_req_handler_safe env asks_status called (inl (refl, refl))

-- The first of two clients plays.
video_send_timer-addressed_example :
    receive_frame (
      payloads
        (addressed player.id (Server.video_send_timer (λ k. all_buffers) encoded streaming).1))
    ≡ some ((0x67 ∷ 1 ∷ []) ∷ [])
video_send_timer-addressed_example =
    video_send_timer-addressed encoded streaming [] (Server.new_client 2 false ∷ []) player filmed
      ((0x67 ∷ 1 ∷ []) ∷ []) true refl tt ((λ e. absurd (omega arith)), tt) refl refl (inl refl) got
      ((omega arith, λ e. cc e), tt)
