-- ===== src/Tests/Requests.antt =====
-- Runs of the RTSP server of rtsp_server.c.
use mathlib.Core.List.{Memᴰ}
use smart_lock_intercom.Base.{
  ℕ, ◌≡◌, ◌⊎◌, refl, true, some, none, List, [], ◌∷◌, ◌++◌, Bytes, length, take, All, arith,
}
use smart_lock_intercom.CString.{codes, skip_spaces}
use smart_lock_intercom.Rtsp.Request.Repeated.{two_sessions, parse_rtsp_request_repeated}
use smart_lock_intercom.Rtsp.Request.{cleared, parse_rtsp_request}
use smart_lock_intercom.Rtsp.Request.Bounds.{Fits, parse_rtsp_request-Fits}
use smart_lock_intercom.Rtsp.Request.Line.{fold_lines}
use smart_lock_intercom.Rtsp.Request.Lines.{request_text, parse_rtsp_request-lines}
use smart_lock_intercom.Rtsp.Interleaved.{tcp_interleaved_send, framed, read_frame}
use smart_lock_intercom.Rtsp.Interleaved.RoundTrip.{read_frame-tcp_interleaved_send}
use smart_lock_intercom.Rtsp.State.{RtspClient, World, Answers}
use smart_lock_intercom.Rtsp.Receive.{incomplete, next_message, recv_loop, rtsp_recv_handler}
use smart_lock_intercom.Rtsp.Receive.Split.{followed, next_message-followed}
use smart_lock_intercom.Rtsp.Receive.Drain.{Drained, recv_loop-Drained}
use smart_lock_intercom.Rtsp.Server.{
  new_client, rtsp_conn_handler, rtsp_server_init, rtsp_close_handler, session_timeout_handler,
}
use smart_lock_intercom.Rtsp.Server.Leaving.{Left, rtsp_close_handler-Left}
use smart_lock_intercom.Rtsp.Invariant.{IsValid}
use smart_lock_intercom.Rtsp.Invariant.Steps.{
  connects, receives, Reachable, starts, steps, Reachable-IsValid,
}
use smart_lock_intercom.Tests.Data.{md5, pcm2ulaw, ans, world, player, crowded, received}

abbrev every : ℕ → Answers
every k = ans

-- The server has started, and a client has connected.
abbrev connected : World
connected = rtsp_conn_handler true true 1 true (rtsp_server_init (some 554) none world).0

new_client-mem : Memᴰ (new_client 1 true) connected.clients
unfolding rtsp_conn_handler rtsp_server_init
new_client-mem = Memᴰ.head refl

-- It sends a frame and a request.
reached :
    Reachable md5 pcm2ulaw
      (rtsp_recv_handler md5 pcm2ulaw every received connected (new_client 1 true)).world
reached =
    steps (steps (starts 554 none world) (connects true true 1 true))
      (receives every received new_client-mem)

Reachable-IsValid_example :
    All IsValid
      (rtsp_recv_handler md5 pcm2ulaw every received connected (new_client 1 true)).world.clients
Reachable-IsValid_example = Reachable-IsValid md5 pcm2ulaw reached

next_message-followed_example :
    (next_message received ≡ incomplete)
    ⊎ (next_message (received ++ (b'$' ∷ [])) ≡ followed (b'$' ∷ []) (next_message received))
next_message-followed_example = next_message-followed received (b'$' ∷ [])

abbrev full : RtspClient
full = record player { rbuf = received }

recv_loop-Drained_example : Drained (recv_loop md5 pcm2ulaw 40 every crowded full).client
recv_loop-Drained_example = recv_loop-Drained md5 pcm2ulaw 40 every crowded full (omega arith)

parse_rtsp_request-Fits_example : Fits (parse_rtsp_request received 34)
parse_rtsp_request-Fits_example = parse_rtsp_request-Fits received 34

abbrev lines : List Bytes
lines = codes "CSeq: 2" ∷ codes "Session: 12" ∷ []

parse_rtsp_request-lines_example :
    parse_rtsp_request
      (request_text (codes "PLAY") (codes "x") (codes "RTSP/1.0") lines ++ (b'$' ∷ []))
      (length (request_text (codes "PLAY") (codes "x") (codes "RTSP/1.0") lines))
    ≡ fold_lines lines
        (b'$' ∷ [])
        (record cleared { method = take 15 (codes "PLAY"); uri = take 255 (codes "x") })
parse_rtsp_request-lines_example =
    parse_rtsp_request-lines (codes "PLAY") (codes "x") (codes "RTSP/1.0") lines (b'$' ∷ [])
      (ground arith) (ground arith) (ground arith) (ground arith)

read_frame-tcp_interleaved_send_example :
    (sent : Bytes) × (tcp_interleaved_send true 3 (9 ∷ 8 ∷ []) ≡ some (b'$' ∷ sent))
    × (read_frame (sent ++ (b'$' ∷ [])) ≡ framed 3 (9 ∷ 8 ∷ []) (b'$' ∷ []))
read_frame-tcp_interleaved_send_example =
    read_frame-tcp_interleaved_send 3 (9 ∷ 8 ∷ []) (b'$' ∷ []) (omega arith)

rtsp_close_handler-Left_example :
    Left player crowded (rtsp_close_handler player crowded)
    × Left player crowded (session_timeout_handler player crowded)
rtsp_close_handler-Left_example = rtsp_close_handler-Left player crowded refl

-- "12345" and then "9", between other headers.
abbrev doubled : List Bytes
doubled =
    two_sessions (codes "CSeq: 2" ∷ []) (codes "12345") (codes "User-Agent: a" ∷ []) (codes "9")
      (codes "Transport: b" ∷ [])

parse_rtsp_request_repeated_example :
    let text = request_text (codes "PLAY") (codes "x") (codes "RTSP/1.0") doubled in
    (parse_rtsp_request (text ++ []) (length text)).session ≡ codes "92345"
unfolding skip_spaces smart_lock_intercom.CString.has_prefix_nocase
    smart_lock_intercom.CString.to_lower
parse_rtsp_request_repeated_example =
    parse_rtsp_request_repeated (codes "PLAY") (codes "x") (codes "RTSP/1.0") (codes "CSeq: 2" ∷ [])
      (codes "User-Agent: a" ∷ []) (codes "Transport: b" ∷ []) (codes "12345") (codes "9") []
      (ground arith) (ground arith) (ground arith) (ground arith) (refl, tt) (refl, tt) (refl, tt)
      refl refl (omega arith) (omega arith)
