-- ===== src/Rtsp/Dispatch.antt =====
-- `dispatch_rtsp` of rtsp_server.c.
pub mod Gate
use smart_lock_intercom.Base.{
  ℕ, Bool, true, false, ◌&&◌, ◌||◌, not, Option, some, none, List, [], ◌∷◌, ◌++◌, Bytes, length,
  take, if◌then◌else◌,
}
use smart_lock_intercom.Base.Int.{ℤ}
use smart_lock_intercom.CString.{codes, str_eq}
use smart_lock_intercom.Status.{Status, is_ok}
use smart_lock_intercom.Auth.{AuthState, rtsp_auth_check, rtsp_auth_challenge}
use smart_lock_intercom.Rtsp.Request.{RtspReq, parse_rtsp_request}
use smart_lock_intercom.Rtsp.Handlers.Describe.{handle_options, handle_describe}
use smart_lock_intercom.Rtsp.Handlers.Play.{Served, handle_play, handle_teardown}
use smart_lock_intercom.Rtsp.Handlers.Setup.{handle_setup}
use smart_lock_intercom.Rtsp.State.{
  RtspClient, World, Answers, Output, no_headers, challenge, no_body, rtsp_reply, store,
}

-- The methods that `strcmp` tells apart.
pub data Method : Type 0 where
  options describe setup play teardown get_parameter unknown : Method

unfoldable pub method_of : Bytes → Method
method_of m =
    if str_eq m (codes "OPTIONS")
    then options
    else if str_eq m (codes "DESCRIBE")
    then describe
    else if str_eq m (codes "SETUP")
    then setup
    else if str_eq m (codes "PLAY")
    then play
    else if str_eq m (codes "TEARDOWN")
    then teardown
    else if str_eq m (codes "GET_PARAMETER")
    then get_parameter
    else unknown

-- Whether the method needs no authentication.
abbrev pub is_open : Method → Bool
is_open options = true
is_open get_parameter = true
is_open _ = false

-- The state after a request, with the client if it is still there.
pub record Dispatched : Type 0 where
  pub world : World
  pub client : Option RtspClient
  pub outputs : List Output

-- `tmr_start(&cli->tmr_timeout, 60000, …)`.
abbrev pub touch : RtspClient → RtspClient
touch c = record c { tmr_timeout = true }

-- The branch of each method, with the timeout started again for a known method.
unfoldable pub serve : (ℤ → ℕ) → Answers → Method → RtspReq → World → RtspClient → Dispatched
serve pcm2ulaw ans options req w c = record {
  world = w;
  client = some (touch c);
  outputs = handle_options ans req c;
}
serve pcm2ulaw ans describe req w c =
    let r = handle_describe ans req c w in
    record { world = r.0; client = some (touch c); outputs = r.1 }
serve pcm2ulaw ans setup req w c =
    let r = handle_setup ans req c in record { world = w; client = some (touch r.0); outputs = r.1 }
serve pcm2ulaw ans play req w c =
    let r = handle_play pcm2ulaw ans req w c in
    record { world = r.world; client = some (touch r.client); outputs = r.outputs }
serve pcm2ulaw ans teardown req w c =
    let r = handle_teardown ans req w c in record { world = r.0; client = none; outputs = r.1 }
serve pcm2ulaw ans get_parameter req w c = record {
  world = w;
  client = some (touch c);
  outputs = rtsp_reply ans c req.cseq 200 no_headers no_body;
}
serve pcm2ulaw ans unknown req w c = record {
  world = w;
  client = some c;
  outputs = rtsp_reply ans c req.cseq 405 no_headers no_body;
}

-- `req.authorization[0] ? req.authorization : NULL`.
abbrev pub auth_header : Bytes → Option Bytes
auth_header [] = none
auth_header (x ∷ xs) = some (x ∷ xs)

-- The client is handed back, not stored: `store` puts it into the list.
unfoldable pub dispatch_request :
    (Bytes → Bytes) → (ℤ → ℕ) → Answers → RtspReq → World → RtspClient → Dispatched
dispatch_request md5 pcm2ulaw ans req w c =
    let m = method_of req.method in
    let checked =
      rtsp_auth_check md5 ans.rand ans.stale req.method req.uri (auth_header req.authorization)
        w.auth in
    let passed = record w { auth = checked.1 } in
    if not w.auth.enabled || is_open m
    then serve pcm2ulaw ans m req w c
    else if is_ok checked.0
    then serve pcm2ulaw ans m req passed c
    else record {
      world = passed;
      client = some c;
      outputs =
          rtsp_reply ans c req.cseq 401 (challenge (rtsp_auth_challenge 256 checked.1)) no_body;
    }

-- `text` is the receive buffer up to its NUL, `len` bytes of it the request. The result of the C
-- function says whether the client is gone.
unfoldable pub dispatch_rtsp :
    (Bytes → Bytes) → (ℤ → ℕ) → Answers → Bytes → ℕ → World → RtspClient → Dispatched
dispatch_rtsp md5 pcm2ulaw ans text len w c =
    dispatch_request md5 pcm2ulaw ans (parse_rtsp_request text len) w c
