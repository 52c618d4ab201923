-- ===== src/Rtsp/Invariant/Opened/Handlers.antt =====
-- No handler of rtsp_server.c closes a camera that is open.
use smart_lock_intercom.Base.{ℕ, ◌≡◌, ◌∙◌, true, ◌&&◌, not, Option, some, none, if_intro}
use smart_lock_intercom.Base.Int.{ℤ}
use smart_lock_intercom.Status.{Status}
use smart_lock_intercom.Camera.{
  Camera, CameraFrame, Setup, camera_open, camera_get_frame, camera_get_sps_pps,
  camera_request_keyframe,
}
use smart_lock_intercom.Camera.Opened.{opened-camera_get_frame}
use smart_lock_intercom.Rtsp.State.{RtspClient, World, Answers, is_idle, has_playing_clients}
use smart_lock_intercom.Rtsp.Request.{RtspReq}
use smart_lock_intercom.Rtsp.Media.{
  camera_failed, ensure_media_started, maybe_stop_media, client_destructor,
}
use smart_lock_intercom.Rtsp.Handlers.Describe.{learn_params, params_known, handle_describe}
use smart_lock_intercom.Rtsp.Handlers.Play.{
  Served, open_speaker, first_frame, first_audio, start_playing, handle_play, handle_teardown,
  send_frame,
}

abbrev pub IsOpen : World → Type 0
IsOpen w = w.camera.opened ≡ true

pub camera_open-opened :
    (o : Setup) (width height fps : ℕ) (cam : Camera)
    → cam.opened ≡ true
    → (camera_open o width height fps cam).0.opened ≡ true
unfolding camera_open
camera_open-opened o width height fps cam h =
    if_intro (λ (r : Camera × Status). r.0.opened ≡ true) cam.opened (λ _. h) (λ e. cc)

pub ensure_media_started-opened :
    (ans : Answers) (w : World) → IsOpen w → IsOpen (ensure_media_started ans w)
unfolding ensure_media_started
ensure_media_started-opened ans w h =
    let opens = camera_open-opened ans.camera_setup 320 240 15 w.camera h in
    let r = camera_open ans.camera_setup 320 240 15 w.camera in
    if_intro IsOpen w.camera_opened (λ _. if_intro IsOpen w.mic_opened (λ _. h) (λ _. h))
      (λ _.
        if_intro IsOpen (camera_failed r.1) (λ _. opens)
          (λ _. if_intro IsOpen w.mic_opened (λ _. opens) (λ _. opens)))

pub maybe_stop_media-opened : (w : World) → IsOpen w → IsOpen (maybe_stop_media w)
unfolding maybe_stop_media
maybe_stop_media-opened w h =
    if_intro IsOpen (not (has_playing_clients w.clients)) (λ _. h) (λ _. h)

pub handle_describe-opened :
    (ans : Answers) (req : RtspReq) (c : RtspClient) (w : World)
    → IsOpen w
    → IsOpen (handle_describe ans req c w).0
unfolding handle_describe learn_params
handle_describe-opened ans req c w h =
    let opens = camera_open-opened ans.camera_setup 320 240 15 w.camera h in
    let r = camera_open ans.camera_setup 320 240 15 w.camera in
    if_intro IsOpen (params_known (camera_get_sps_pps w.camera)) (λ _. h)
      (λ _.
        if_intro (λ (cam : Camera). cam.opened ≡ true) (camera_failed r.1) (λ _. opens)
          (λ _. opened-camera_get_frame ans.encoded (camera_request_keyframe r.0) ∙ opens))

pub send_frame-opened :
    (ans : Answers) (f : Option CameraFrame) (w : World) (c : RtspClient)
    → IsOpen w
    → IsOpen (send_frame ans f w c).world
send_frame-opened ans none w c h = h
send_frame-opened ans (some f) w c h = h

pub first_audio-opened :
    (pcm2ulaw : ℤ → ℕ) (ans : Answers) (w : World) (c : RtspClient)
    → IsOpen w
    → IsOpen (first_audio pcm2ulaw ans w c).world
unfolding first_audio
first_audio-opened pcm2ulaw ans w c h =
    if_intro (λ (s : Served). IsOpen s.world) c.audio_setup (λ _. h) (λ _. h)

pub first_frame-opened :
    (ans : Answers) (w : World) (c : RtspClient) → IsOpen w → IsOpen (first_frame ans w c).world
unfolding first_frame
first_frame-opened ans w c h =
    let r = camera_get_frame ans.encoded w.camera in
    send_frame-opened ans r.2 (record w { camera = r.0 }) c
      (opened-camera_get_frame ans.encoded w.camera ∙ h)

pub open_speaker-opened :
    (ans : Answers) (c : RtspClient) (w : World) → IsOpen w → IsOpen (open_speaker ans c w).0
unfolding open_speaker
open_speaker-opened ans c w h =
    if_intro (λ (r : World × RtspClient). IsOpen r.0)
      (c.backchannel_setup && not c.audio_out_opened) (λ _. h) (λ _. h)

pub handle_play-opened :
    (pcm2ulaw : ℤ → ℕ) (ans : Answers) (req : RtspReq) (w : World) (c : RtspClient)
    → IsOpen w
    → IsOpen (handle_play pcm2ulaw ans req w c).world
unfolding handle_play start_playing camera_request_keyframe
handle_play-opened pcm2ulaw ans req w c h =
    if_intro (λ (s : Served). IsOpen s.world) (is_idle c.state) (λ _. h)
      (λ _. first_audio-opened pcm2ulaw ans _ _ (
        first_frame-opened ans _ _
          (open_speaker-opened ans _ _ (ensure_media_started-opened ans w h))))

pub handle_teardown-opened :
    (ans : Answers) (req : RtspReq) (w : World) (c : RtspClient)
    → IsOpen w
    → IsOpen (handle_teardown ans req w c).0
unfolding handle_teardown client_destructor
handle_teardown-opened ans req w c h = maybe_stop_media-opened _ h
