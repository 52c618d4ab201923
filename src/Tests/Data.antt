-- ===== src/Tests/Data.antt =====
-- The inputs of the tests.
use smart_lock_intercom.Base.{ℕ, suc, true, false, some, [], ◌∷◌, ◌++◌, Bytes, replicate}
use smart_lock_intercom.Base.Int.{ℤ, pos}
use smart_lock_intercom.CString.{codes}
use smart_lock_intercom.Camera
use smart_lock_intercom.Camera.{Encoded, Layer, idr}
use smart_lock_intercom.AudioIn
use smart_lock_intercom.AudioIn.{AudioIn}
use smart_lock_intercom.AudioOut
use smart_lock_intercom.Auth.{AuthState}
use smart_lock_intercom.Rtp.{Stream}
use smart_lock_intercom.Rtsp.Request
use smart_lock_intercom.Rtsp.Request.{RtspReq}
use smart_lock_intercom.Rtsp.State.{RtspClient, playing, World, Answers}
use smart_lock_intercom.Rtsp.Server.{new_client}

-- A digest of the right size.
abbrev pub md5 : Bytes → Bytes
md5 t = replicate 16 7

-- A quiet encoder of samples.
abbrev pub pcm2ulaw : ℤ → ℕ
pcm2ulaw s = 255

abbrev pub stream : Stream
stream = record { seq = 65535; ts = 90000; ssrc = 7 }

abbrev pub auth_on : AuthState
auth_on = record { username = codes "u"; password = codes "p"; nonce = codes "n"; enabled = true }

abbrev pub encoded : Encoded
encoded = record {
  encodes = true;
  frame_type = idr;
  layers = record { buf = 0 ∷ 0 ∷ 0 ∷ 1 ∷ 0x67 ∷ 1 ∷ []; lengths = 6 ∷ [] } ∷ [];
}

abbrev pub ans : Answers
ans = record {
  reply_ok = true;
  ssrc = 17;
  session = 18;
  bound_port = some 5000;
  camera_setup = record { creates = true; initializes = true; allocates = true };
  encoded = encoded;
  mic_opens = true;
  mic_starts = true;
  speaker_opens = true;
  video_alloc = λ i k. true;
  audio_alloc = true;
  rand = λ k. k;
  stale = λ k. 0;
}

abbrev pub world : World
world = record {
  clients = [];
  tmr_audio = true;
  tmr_video = true;
  camera_opened = false;
  video_frame_count = 3;
  mic_opened = false;
  local_ip = [];
  port = 0;
  camera = Camera.cleared;
  mic = AudioIn.cleared;
  speaker = AudioOut.cleared;
  auth = auth_on;
}

abbrev pub player : RtspClient
player = record (new_client 1 true) {
  state = playing;
  session_id = some 18;
  interleaved = true;
  video_setup = true;
}

abbrev pub crowded : World
crowded = record world { clients = player ∷ new_client 2 false ∷ [] }

-- Three samples wait, across the end of the ring.
abbrev pub mic : AudioIn
mic = record AudioIn.cleared { opened = true; samples = λ i. pos (suc i); wr = 1; rd = 7998 }

abbrev pub authorization : Bytes
authorization =
    codes "Digest username=\"u\", realm=\"SmartLock\", nonce=\"n\", uri=\"x\", response=\""
    ++ (codes "07070707070707070707070707070707" ++ codes "\"")

abbrev pub req : RtspReq
req = record Request.cleared {
  method = codes "PLAY";
  uri = codes "x";
  authorization = authorization;
}

-- A keepalive behind a frame of two bytes.
abbrev pub received : Bytes
received =
    (b'$' ∷ 1 ∷ 0 ∷ 2 ∷ 9 ∷ 9 ∷ [])
    ++ (codes "GET_PARAMETER x RTSP/1.0" ++ (13 ∷ 10 ∷ 13 ∷ 10 ∷ []))
