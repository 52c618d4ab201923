-- ===== src/Rtsp/Invariant/Opened.antt =====
-- No event of rtsp_server.c closes a camera that is open.
pub mod Handlers
use smart_lock_intercom.Base.{
  ℕ, zero, suc, ◌+◌, ◌≡◌, ◌∙◌, Bool, true, ◌&&◌, ◌||◌, not, Option, some, none, List, ◌++◌, Bytes,
  length, if_intro, if◌then◌else◌, Option-cases, inl, inr, ltb, ◌==◌,
}
use smart_lock_intercom.Base.Int.{ℤ}
use smart_lock_intercom.CString.{c_str}
use smart_lock_intercom.Status.{Status, is_ok}
use smart_lock_intercom.Camera.{
  Camera, CameraFrame, Encoded, Setup, camera_open, camera_get_frame, camera_get_sps_pps,
  camera_request_keyframe,
}
use smart_lock_intercom.Camera.Opened.{opened-camera_get_frame}
use smart_lock_intercom.Rtsp.State.{
  RtspClient, World, Answers, Output, is_idle, is_playing, has_playing_clients,
}
use smart_lock_intercom.Auth.{rtsp_auth_check}
use smart_lock_intercom.Rtsp.Request.{RtspReq, parse_rtsp_request}
use smart_lock_intercom.Rtsp.Interleaved.{backchannel_payload}
use smart_lock_intercom.Rtsp.Media.{
  camera_failed, ensure_media_started, maybe_stop_media, client_destructor,
}
use smart_lock_intercom.Rtsp.Handlers.Describe.{learn_params, params_known, handle_describe}
use smart_lock_intercom.Rtsp.Handlers.Play.{
  Served, open_speaker, first_frame, first_audio, start_playing, handle_play, handle_teardown,
  send_frame,
}
use smart_lock_intercom.Rtsp.Dispatch.{
  Method, options, describe, setup, play, teardown, get_parameter, unknown, Dispatched, auth_header,
  is_open, method_of, serve, dispatch_request, dispatch_rtsp,
}
use smart_lock_intercom.Rtsp.Receive.{
  next_message, recv_frame, recv_loop, rtsp_recv_handler, rbuf_limit, keep_client, play_payload,
}
use smart_lock_intercom.Rtsp.Receive.Drain.{Message-cases}
use smart_lock_intercom.Rtsp.Server.{
  rtsp_conn_handler, rtsp_accept_relay_conn, rtsp_close_handler, session_timeout_handler,
  audio_send_timer, video_send_timer, needs_idr, leave_playing, send_video_frame,
}
use smart_lock_intercom.Rtsp.Invariant.Steps.{
  Step, connects, is_relayed, receives, closes, times_out, sends_audio, sends_video,
}
use smart_lock_intercom.Rtsp.Invariant.Opened.Handlers.{
  IsOpen, maybe_stop_media-opened, handle_describe-opened, handle_play-opened,
  handle_teardown-opened,
}

module _ (md5 : Bytes → Bytes) (pcm2ulaw : ℤ → ℕ) where
  serve-opened :
      (ans : Answers) (m : Method) (req : RtspReq) (w : World) (c : RtspClient)
      → IsOpen w
      → IsOpen (serve pcm2ulaw ans m req w c).world
  unfolding serve
  serve-opened ans options req w c h = h
  serve-opened ans describe req w c h = handle_describe-opened ans req c w h
  serve-opened ans setup req w c h = h
  serve-opened ans play req w c h = handle_play-opened pcm2ulaw ans req w c h
  serve-opened ans teardown req w c h = handle_teardown-opened ans req w c h
  serve-opened ans get_parameter req w c h = h
  serve-opened ans unknown req w c h = h

  dispatch_rtsp-opened :
      (ans : Answers) (text : Bytes) (len : ℕ) (w : World) (c : RtspClient)
      → IsOpen w
      → IsOpen (dispatch_rtsp md5 pcm2ulaw ans text len w c).world
  unfolding dispatch_rtsp dispatch_request
  dispatch_rtsp-opened ans text len w c h =
      let req = parse_rtsp_request text len in
      let m = method_of req.method in
      let checked =
        rtsp_auth_check md5 ans.rand ans.stale req.method req.uri (auth_header req.authorization)
          w.auth in
      let P = λ (d : Dispatched). IsOpen d.world in
      if_intro P (not w.auth.enabled || is_open m) (λ _. serve-opened ans m req w c h)
        (λ _.
          if_intro P (is_ok checked.0)
            (λ _. serve-opened ans m req (record w { auth = checked.1 }) c h) (λ _. h))

  recv_frame-opened :
      (ch : ℕ) (rtp : Bytes) (w : World) (c : RtspClient)
      → IsOpen w
      → IsOpen (recv_frame ch rtp w c).0
  unfolding recv_frame
  recv_frame-opened ch rtp w c h =
      if_intro (λ (r : World × List Output). IsOpen r.0)
        (c.backchannel_setup && ch == c.backchannel_interleaved && c.audio_out_opened)
        (λ _. play_payload-opened (backchannel_payload rtp) w h) (λ _. h)
    where
      play_payload-opened :
          (pcmu : Option Bytes) (w : World) → IsOpen w → IsOpen (play_payload pcmu w).0
      play_payload-opened none w h = h
      play_payload-opened (some pcmu) w h = h

  recv_loop-opened :
      (fuel : ℕ) (ans : ℕ → Answers) (w : World) (c : RtspClient)
      → IsOpen w
      → IsOpen (recv_loop md5 pcm2ulaw fuel ans w c).world
  unfolding recv_loop
  recv_loop-opened zero ans w c h = h
  recv_loop-opened (suc fuel) ans w c h = elim (Message-cases (next_message c.rbuf)) [
    | inl waits ↦ rw (waits, recv_loop) h
    | inr (inl (ch, rtp, rest, e)) ↦
        rw (e, recv_loop)
          (recv_loop-opened fuel ans (recv_frame ch rtp w c).0 (record c { rbuf = rest })
            (recv_frame-opened ch rtp w c h))
    | inr (inr (before, rest, e)) ↦
        let d = dispatch_rtsp md5 pcm2ulaw (ans 0) (c_str c.rbuf) (length before + 4) w c in
        let o = dispatch_rtsp-opened (ans 0) (c_str c.rbuf) (length before + 4) w c h in
        elim (Option-cases d.client) [
          | inl gone ↦ rw (e, gone, recv_loop) o
          | inr (c', stays) ↦
              rw (e, stays, recv_loop)
                (recv_loop-opened fuel (λ k. ans (suc k)) d.world (record c' { rbuf = rest }) o)
        ]
  ]

  rtsp_recv_handler-opened :
      (ans : ℕ → Answers) (received : Bytes) (w : World) (c : RtspClient)
      → IsOpen w
      → IsOpen (rtsp_recv_handler md5 pcm2ulaw ans received w c).world
  unfolding rtsp_recv_handler client_destructor
  rtsp_recv_handler-opened ans received w c h =
      let P = λ (d : Dispatched). IsOpen d.world in
      let all = c.rbuf ++ received in
      let d = recv_loop md5 pcm2ulaw (length all) ans w (record c { rbuf = all }) in
      if_intro P (ltb rbuf_limit (length all)) (λ _. h)
        (λ _.
          kept d.client d.world (recv_loop-opened (length all) ans w (record c { rbuf = all }) h))
    where
      kept : (c : Option RtspClient) (w : World) → IsOpen w → IsOpen (keep_client c w)
      kept none w h = h
      kept (some c) w h = h

leave_playing-opened : (c : RtspClient) (w : World) → IsOpen w → IsOpen (leave_playing c w)
leave_playing-opened c w h =
    if_intro IsOpen (is_playing c.state) (λ _. maybe_stop_media-opened _ h) (λ _. h)

send_video_frame-opened :
    (alloc : ℕ → ℕ → ℕ → Bool) (f : Option CameraFrame) (w : World)
    → IsOpen w
    → IsOpen (send_video_frame alloc f w).0
send_video_frame-opened alloc none w h = h
send_video_frame-opened alloc (some f) w h = h

video_send_timer-opened :
    (alloc : ℕ → ℕ → ℕ → Bool) (encoded : Encoded) (w : World)
    → IsOpen w
    → IsOpen (video_send_timer alloc encoded w).0
unfolding video_send_timer camera_request_keyframe
video_send_timer-opened alloc encoded w h =
    let cam =
      if needs_idr w.video_frame_count then camera_request_keyframe w.camera else w.camera in
    let asked : cam.opened ≡ true =
      if_intro (λ (c : Camera). c.opened ≡ true) (needs_idr w.video_frame_count) (λ _. h)
        (λ _. h) in
    let r = camera_get_frame encoded cam in
    if_intro (λ (s : World × List Output). IsOpen s.0) (has_playing_clients w.clients)
      (λ _.
        send_video_frame-opened alloc r.2 (record w { tmr_video = true; camera = r.0 })
          (opened-camera_get_frame encoded cam ∙ asked))
      (λ _. h)

-- A camera that is open before an event of the server is open after it.
pub Step-opened :
    {md5 : Bytes → Bytes} {pcm2ulaw : ℤ → ℕ} {w v : World}
    → Step md5 pcm2ulaw w v
    → IsOpen w
    → IsOpen v
unfolding rtsp_conn_handler rtsp_accept_relay_conn rtsp_close_handler session_timeout_handler
    client_destructor audio_send_timer
Step-opened (connects allocs accepts id loopback) h =
    if_intro IsOpen (allocs && accepts) (λ _. h) (λ _. h)
Step-opened (is_relayed allocs id loopback) h = if_intro IsOpen allocs (λ _. h) (λ _. h)
Step-opened {md5} {pcm2ulaw} {w} (receives ans received {c = c} m) h =
    rtsp_recv_handler-opened md5 pcm2ulaw ans received w c h
Step-opened {w = w} (closes {c = c} m) h = leave_playing-opened c w h
Step-opened {w = w} (times_out {c = c} m) h = leave_playing-opened c w h
Step-opened {w = w} (sends_audio alloc) h =
    if_intro (λ (s : World × List Output). IsOpen s.0) (has_playing_clients w.clients) (λ _. h)
      (λ _. h)
Step-opened {w = w} (sends_video alloc encoded) h = video_send_timer-opened alloc encoded w h
