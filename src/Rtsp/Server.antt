-- ===== src/Rtsp/Server.antt =====
-- The connections, the timers and the life of the server in rtsp_server.c.
pub mod Leaving
pub mod Latency
pub mod Delivery
use smart_lock_intercom.Base.{
  ℕ, zero, suc, ◌+◌, ◌-◌, ◌*◌, ◌%◌, ◌^◌, Bool, true, false, ◌&&◌, ◌||◌, not, Option, some, none,
  List, [], ◌∷◌, ◌++◌, Bytes, length, ltb, ◌==◌, if◌then◌else◌, min,
}
use smart_lock_intercom.Base.Int.{ℤ}
use smart_lock_intercom.CString.{codes}
use smart_lock_intercom.Status.{Status}
use smart_lock_intercom.Camera
use smart_lock_intercom.Camera.{Encoded, CameraFrame, camera_get_frame, camera_request_keyframe}
use smart_lock_intercom.AudioIn.{AudioIn, audio_in_read, audio_in_available, audio_in_close}
use smart_lock_intercom.AudioOut.{audio_out_close}
use smart_lock_intercom.Rtp.{Stream, advance_ts}
use smart_lock_intercom.Rtsp.Media.{
  audio_samples, video_ticks, maybe_stop_media, client_destructor, send_nalus, next_samples,
  pcmu_of, send_audio_packet,
}
use smart_lock_intercom.Rtsp.State.{
  RtspClient, RtspState, idle, World, Output, is_playing, has_playing_clients, store,
}

abbrev no_stream : Stream
no_stream = record { seq = 0; ts = 0; ssrc = 0 }

-- A client of a new connection: zeroed memory and the two channels that no frame has yet.
abbrev pub new_client : ℕ → Bool → RtspClient
new_client id loopback = record {
  id = id;
  loopback = loopback;
  rbuf = [];
  state = idle;
  session_id = none;
  interleaved = false;
  rtp_video = false;
  video_dest = 0;
  video_srv_port = 0;
  video_interleaved = 0;
  video_interleaved_rtcp = 0;
  video = no_stream;
  rtp_audio = false;
  audio_dest = 0;
  audio_srv_port = 0;
  audio_interleaved = 0;
  audio_interleaved_rtcp = 0;
  audio = no_stream;
  video_setup = false;
  audio_setup = false;
  backchannel_setup = false;
  backchannel_interleaved = 0xFF;
  backchannel_interleaved_rtcp = 0xFF;
  audio_out_opened = false;
  tmr_timeout = true;
}

abbrev pub append_client : RtspClient → World → World
append_client c w = record w { clients = w.clients ++ (c ∷ []) }

-- `allocs` is `mem_zalloc`, `accepts` is `tcp_accept`; the client that fails to be accepted is
-- in no list yet.
unfoldable pub rtsp_conn_handler : Bool → Bool → ℕ → Bool → World → World
rtsp_conn_handler allocs accepts id loopback w =
    if allocs && accepts then append_client (new_client id loopback) w else w

-- A connection that the relay client hands over.
unfoldable pub rtsp_accept_relay_conn : Bool → ℕ → Bool → World → World
rtsp_accept_relay_conn allocs id loopback w =
    if allocs then append_client (new_client id loopback) w else w

-- A client that plays is idle first, and the media may stop.
abbrev pub leave_playing : RtspClient → World → World
leave_playing c w =
    if is_playing c.state
    then maybe_stop_media (record w { clients = store (record c { state = idle }) w.clients })
    else w

unfoldable pub rtsp_close_handler : RtspClient → World → World
rtsp_close_handler c w = client_destructor c (leave_playing c w)

unfoldable pub session_timeout_handler : RtspClient → World → World
session_timeout_handler c w = client_destructor c (leave_playing c w)

-- The loop that throws old samples away, `skip` of them at most.
unfoldable pub drain : ℕ → ℕ → AudioIn → AudioIn
drain zero skip mic = mic
drain (suc fuel) skip mic =
    let r = audio_in_read (min skip audio_samples) mic in
    let rest = drain fuel (skip - length r.0) r.1 in
    if skip == 0 || length r.0 == 0 then mic else rest

unfoldable pub drain_excess : AudioIn → AudioIn
drain_excess mic =
    let avail = audio_in_available mic in
    let skip = avail - audio_samples in
    if ltb (audio_samples * 2) avail then drain skip skip mic else mic

-- The loop over the clients of the audio timer; `alloc k` is the buffer of the k-th client.
unfoldable pub send_audio_to : (ℕ → Bool) → Bytes → List RtspClient → List RtspClient × List Output
send_audio_to alloc pcmu [] = ([], [])
send_audio_to alloc pcmu (c ∷ cs) =
    let more = send_audio_to (λ k. alloc (suc k)) pcmu cs in
    let sent = send_audio_packet (alloc 0) pcmu c in
    if is_playing c.state && c.audio_setup
    then (sent.0 ∷ more.0, sent.1 ++ more.1)
    else (c ∷ more.0, more.1)

unfoldable pub audio_send_timer : (ℤ → ℕ) → (ℕ → Bool) → World → World × List Output
audio_send_timer pcm2ulaw alloc w =
    let started = record w { tmr_audio = true } in
    let drained = if w.mic_opened then drain_excess w.mic else w.mic in
    let pcm = next_samples w.mic_opened drained in
    let sent = send_audio_to alloc (pcmu_of pcm2ulaw pcm.0) w.clients in
    let served = record w { tmr_audio = true; mic = pcm.1; clients = sent.0 } in
    if has_playing_clients w.clients then (served, sent.1) else (started, [])

-- The loop over the clients of the video timer.
unfoldable pub send_video_to :
    (ℕ → ℕ → ℕ → Bool) → List Bytes → List RtspClient → List RtspClient × List Output
send_video_to alloc nalus [] = ([], [])
send_video_to alloc nalus (c ∷ cs) =
    let more = send_video_to (λ k. alloc (suc k)) nalus cs in
    let sent = send_nalus (alloc 0) nalus c in
    let d = sent.0 in
    if is_playing c.state && c.video_setup
    then (record d { video = advance_ts video_ticks d.video } ∷ more.0, sent.1 ++ more.1)
    else (c ∷ more.0, more.1)

abbrev pub send_video_frame : (ℕ → ℕ → ℕ → Bool) → Option CameraFrame → World → World × List Output
send_video_frame alloc none w = (w, [])
send_video_frame alloc (some f) w =
    let sent = send_video_to alloc f.nalus w.clients in
    (record w { clients = sent.0; video_frame_count = (w.video_frame_count + 1) % 2 ^ 32 }, sent.1)

-- An intra frame is asked for every thirtieth frame.
abbrev pub needs_idr : ℕ → Bool
needs_idr count = ltb 0 count && count % 30 == 0

unfoldable pub video_send_timer : (ℕ → ℕ → ℕ → Bool) → Encoded → World → World × List Output
video_send_timer alloc encoded w =
    let started = record w { tmr_video = true } in
    let cam =
      if needs_idr w.video_frame_count then camera_request_keyframe w.camera else w.camera in
    let r = camera_get_frame encoded cam in
    if has_playing_clients w.clients
    then send_video_frame alloc r.2 (record started { camera = r.0 })
    else (started, [])

-- `listens` is `tcp_listen`'s port, `source` our address as `%j` prints it; the modules that the
-- server drives are left as they are.
unfoldable pub rtsp_server_init : Option ℕ → Option Bytes → World → World × Bool
rtsp_server_init listens source w =
    let cleared_w = record w {
      clients = [];
      tmr_audio = false;
      tmr_video = false;
      camera_opened = false;
      video_frame_count = 0;
      mic_opened = false;
      local_ip = [];
      port = 0;
    } in
    elim listens [
      | none ↦ (cleared_w, false)
      | some p ↦ (
        record cleared_w {
          port = p;
          local_ip = elim source [ none ↦ codes "0.0.0.0" | some ip ↦ ip ];
        },
        true,
      )
    ]

-- `list_flush`: each client's destructor.
unfoldable pub flush : List RtspClient → World → World
flush [] w = w
flush (c ∷ cs) w = flush cs (client_destructor c w)

unfoldable pub rtsp_server_close : World → World
rtsp_server_close w =
    let stopped = flush w.clients (record w { tmr_audio = false; tmr_video = false }) in
    record stopped {
      camera = if w.camera_opened then Camera.camera_close w.camera else w.camera;
      camera_opened = false;
      mic = if w.mic_opened then audio_in_close w.mic else w.mic;
      mic_opened = false;
    }
