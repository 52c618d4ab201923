-- ===== src/Rtsp/Handlers/Play.antt =====
-- `handle_play` and `handle_teardown` of rtsp_server.c.
use smart_lock_intercom.Base.{
  ℕ, ◌+◌, ◌%◌, ◌^◌, ◌&&◌, not, Option, some, none, List, [], ◌∷◌, ◌++◌, Bytes, ◌==◌, if◌then◌else◌,
}
use smart_lock_intercom.Base.Int.{ℤ}
use smart_lock_intercom.Camera.{CameraFrame, camera_request_keyframe, camera_get_frame}
use smart_lock_intercom.AudioOut.{audio_out_open}
use smart_lock_intercom.Rtp.{advance_ts}
use smart_lock_intercom.Rtsp.Media.{
  video_ticks, ensure_media_started, maybe_stop_media, client_destructor, send_nalus, next_samples,
  pcmu_of, send_audio_packet,
}
use smart_lock_intercom.Rtsp.Request.{RtspReq}
use smart_lock_intercom.Rtsp.State.{
  RtspClient, idle, playing, World, Answers, Output, no_headers, rtp_info, no_body, rtsp_reply,
  is_idle, store,
}

abbrev cons_uri : ℕ → Bytes → Bytes
cons_uri c [] = if c == b'/' then [] else c ∷ []
cons_uri c (d ∷ s) = c ∷ d ∷ s

-- `while (uri_len > 0 && base_uri[uri_len - 1] == '/') base_uri[--uri_len] = '\0'`.
unfoldable pub strip_slashes : Bytes → Bytes
strip_slashes [] = []
strip_slashes (c ∷ s) = cons_uri c (strip_slashes s)

-- World, client and what is sent.
pub record Served : Type 0 where
  pub world : World
  pub client : RtspClient
  pub outputs : List Output

-- The speaker for the backchannel.
unfoldable pub open_speaker : Answers → RtspClient → World → World × RtspClient
open_speaker ans c w =
    let r = audio_out_open ans.speaker_opens 8000 1 w.speaker in
    if c.backchannel_setup && not c.audio_out_opened
    then (record w { speaker = r.0 }, record c { audio_out_opened = r.1 })
    else (w, c)

abbrev count_frame : World → World
count_frame w = record w { video_frame_count = (w.video_frame_count + 1) % 2 ^ 32 }

abbrev pub send_frame : Answers → Option CameraFrame → World → RtspClient → Served
send_frame ans none w c = record { world = w; client = c; outputs = [] }
send_frame ans (some f) w c =
    let r = send_nalus ans.video_alloc f.nalus c in
    let d = r.0 in
    record {
      world = count_frame w;
      client = record d { video = advance_ts video_ticks d.video };
      outputs = r.1;
    }

-- The first frame, sent at once and whatever tracks are set up.
unfoldable pub first_frame : Answers → World → RtspClient → Served
first_frame ans w c =
    let r = camera_get_frame ans.encoded w.camera in
    send_frame ans r.2 (record w { camera = r.0 }) c

unfoldable pub first_audio : (ℤ → ℕ) → Answers → World → RtspClient → Served
first_audio pcm2ulaw ans w c =
    let pcm = next_samples w.mic_opened w.mic in
    let sent = send_audio_packet ans.audio_alloc (pcmu_of pcm2ulaw pcm.0) c in
    if c.audio_setup
    then record { world = record w { mic = pcm.1 }; client = sent.0; outputs = sent.1 }
    else record { world = w; client = c; outputs = [] }

unfoldable pub start_playing : (ℤ → ℕ) → Answers → RtspReq → World → RtspClient → Served
start_playing pcm2ulaw ans req w c =
    let started = ensure_media_started ans w in
    let asked = record started { camera = camera_request_keyframe started.camera } in
    let opened = open_speaker ans (record c { state = playing }) asked in
    let d = opened.1 in
    let info = rtp_info (strip_slashes req.uri) d.video d.audio d.backchannel_setup in
    let reply = rtsp_reply ans d req.cseq 200 info no_body in
    let video = first_frame ans opened.0 d in
    let audio = first_audio pcm2ulaw ans video.world video.client in
    record {
      world = audio.world;
      client = audio.client;
      outputs = reply ++ (video.outputs ++ audio.outputs);
    }

unfoldable pub handle_play : (ℤ → ℕ) → Answers → RtspReq → World → RtspClient → Served
handle_play pcm2ulaw ans req w c =
    let started = start_playing pcm2ulaw ans req w c in
    if is_idle c.state
    then record {
      world = w;
      client = c;
      outputs = rtsp_reply ans c req.cseq 455 no_headers no_body;
    }
    else started

-- The client is gone behind it.
unfoldable pub handle_teardown : Answers → RtspReq → World → RtspClient → World × List Output
handle_teardown ans req w c =
    let c' = record c { state = idle } in
    let stopped = maybe_stop_media (record w { clients = store c' w.clients }) in
    (client_destructor c' stopped, rtsp_reply ans c req.cseq 200 no_headers no_body)
