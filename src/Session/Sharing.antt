-- ===== src/Session/Sharing.antt =====
-- The camera and the speaker under the calls of session.c and under rtsp_server.c.
use smart_lock_intercom.Base.{
  ℕ, ◌≡◌, ◌≢◌, refl, ap, ◌∙◌, inl, inr, ◌⊎◌, Bool, true, false, not, Option, some, none, List, [],
  if_intro, if◌then◌else◌,
}
use smart_lock_intercom.Status.{Status, success, ealready, is_ok, ok-success, not_ok-ne}
use smart_lock_intercom.Camera.{
  Camera, CameraFrame, Encoded, Setup, camera_request_keyframe, camera_open, camera_close,
  camera_get_frame,
}
use smart_lock_intercom.AudioOut.{AudioOut, audio_out_open, audio_out_close}
use smart_lock_intercom.Session.{
  Peer, Session, Devices, SessionAnswers, session_destructor, fresh_session, session_alloc,
}
use smart_lock_intercom.Rtsp.State.{World, Answers, Output, has_playing_clients}
use smart_lock_intercom.Rtsp.Media.{ensure_media_started}
use smart_lock_intercom.Rtsp.Server.{needs_idr, video_send_timer}

camera_close-opened : (cam : Camera) → (camera_close cam).opened ≡ false
unfolding camera_close
camera_close-opened cam =
    if_intro (λ (c : Camera). c.opened ≡ false) cam.opened (λ h. refl) (λ h. h)

audio_out_close-opened : (a : AudioOut) → (audio_out_close a).opened ≡ false
unfolding audio_out_close
audio_out_close-opened a =
    if_intro (λ (c : AudioOut). c.opened ≡ false) a.opened (λ h. refl) (λ h. h)

-- A camera that `camera_open` opens was closed before.
camera_open-success :
    (o : Setup) (w h fps : ℕ) (cam : Camera)
    → let r = camera_open o w h fps cam in
      r.1 ≡ success → (cam.opened ≡ false) × (r.0.opened ≡ true)
unfolding camera_open
camera_open-success o w h fps cam =
    let P = λ (r : Camera × Status). r.1 ≡ success → (cam.opened ≡ false) × (r.0.opened ≡ true) in
    if_intro P cam.opened (λ _ e. cc)
      (λ closed.
        if_intro P (not o.creates) (λ _ e. cc)
          (λ _.
            if_intro P (not o.initializes) (λ _ e. cc)
              (λ _. if_intro P (not o.allocates) (λ _ e. cc) (λ _ e. (closed, refl)))))

camera_open-busy :
    (o : Setup) (w h fps : ℕ) (cam : Camera)
    → cam.opened ≡ true
    → (camera_open o w h fps cam).1 ≡ ealready
unfolding camera_open
camera_open-busy o w h fps cam e =
    if_intro (λ (r : Camera × Status). r.1 ≡ ealready) cam.opened (λ _. refl) (λ h. cc)

abbrev pub Closed : Devices → Type 0
Closed d = (d.camera.opened ≡ false) × (d.speaker.opened ≡ false)

pub session_destructor-Closed : (d : Devices) → Closed (session_destructor d)
unfolding session_destructor
session_destructor-Closed d = (camera_close-opened d.camera, audio_out_close-opened d.speaker)

-- What the result of `session_alloc` says of the devices after it.
abbrev pub Outcome : SessionAnswers → Peer → Devices → Devices × Status × Option Session → Type 0
Outcome a peer d (d', status, some s) =
    (status ≡ success)
    × (d.camera.opened ≡ false)
    × (d'.camera.opened ≡ true)
    × (s ≡ fresh_session a peer)
Outcome a peer d (d', status, none) =
    (status ≢ success) × ((d' ≡ d) ⊎ ((d'.camera.opened ≡ false) × (d'.speaker.opened ≡ false)))

-- A call either starts, with the camera opened by it, its timers running and its numbers at 0, or
-- it reports an error. Then it leaves both devices as they were or both closed.
pub session_alloc-Outcome :
    (a : SessionAnswers) (peer : Peer) (d : Devices) → Outcome a peer d (session_alloc a peer d)
unfolding session_alloc
session_alloc-Outcome a peer d =
    let cam = camera_open a.camera_setup 320 240 15 d.camera in
    let out = audio_out_open a.speaker_opens 8000 1 d.speaker in
    let P = Outcome a peer d in
    if_intro P (not a.allocates) (λ _. (λ e. cc, inl refl))
      (λ _.
        if_intro P (not (is_ok cam.1))
          (λ bad. (
            not_ok-ne cam.1 bad,
            inr (session_destructor-Closed (record { camera = cam.0; speaker = d.speaker })),
          ))
          (λ good.
            if_intro P (not (is_ok a.listen))
              (λ bad. (
                not_ok-ne a.listen bad,
                inr (session_destructor-Closed (record { camera = cam.0; speaker = out.0 })),
              ))
              (λ _.
                let opened =
                  camera_open-success a.camera_setup 320 240 15 d.camera (ok-success cam.1 good) in
                (refl, opened.0, opened.1, refl))))

camera_get_frame-closed :
    (e : Encoded) (cam : Camera) → cam.opened ≡ false → (camera_get_frame e cam).2 ≡ none
unfolding camera_get_frame
camera_get_frame-closed e cam h =
    if_intro (λ (r : Camera × Status × Option CameraFrame). r.2 ≡ none) (not cam.opened) (λ _. refl)
      (λ k. cc)

camera-ensure_media_started :
    (ans : Answers) (w : World)
    → w.camera_opened ≡ true
    → (ensure_media_started ans w).camera ≡ w.camera
unfolding ensure_media_started
camera-ensure_media_started ans w h =
    if_intro (λ (v : World). v.camera ≡ w.camera) w.camera_opened
      (λ _. if_intro (λ (v : World). v.camera ≡ w.camera) w.mic_opened (λ _. refl) (λ _. refl))
      (λ k. cc)

video_send_timer_silent :
    (alloc : ℕ → ℕ → ℕ → Bool) (encoded : Encoded) (w : World)
    → w.camera.opened ≡ false
    → (video_send_timer alloc encoded w).1 ≡ []
unfolding video_send_timer
video_send_timer_silent alloc encoded w h =
    let cam =
      if needs_idr w.video_frame_count then camera_request_keyframe w.camera else w.camera in
    let closed : cam.opened ≡ false =
      if_intro (λ (c : Camera). c.opened ≡ false) (needs_idr w.video_frame_count) (λ _. h)
        (λ _. h) in
    if_intro (λ (r : World × List Output). r.1 ≡ []) (has_playing_clients w.clients)
      (λ _. rw (camera_get_frame-closed encoded cam closed) refl) (λ _. refl)

session_alloc-Closed :
    (a : SessionAnswers) (peer : Peer) (d : Devices)
    → a.allocates ≡ true
    → d.camera.opened ≡ true
    → let r = session_alloc a peer d in (r.1 ≡ ealready) × Closed r.0
unfolding session_alloc
session_alloc-Closed a peer d allocs opened =
    let cam = camera_open a.camera_setup 320 240 15 d.camera in
    let busy : cam.1 ≡ ealready = camera_open-busy a.camera_setup 320 240 15 d.camera opened in
    let P = λ (r : Devices × Status × Option Session). (r.1 ≡ ealready) × Closed r.0 in
    if_intro P (not a.allocates) (λ h. cc)
      (λ _.
        if_intro P (not (is_ok cam.1))
          (λ _. (busy, session_destructor-Closed (record { camera = cam.0; speaker = d.speaker })))
          (λ good. let e = ok-success cam.1 good in cc))

-- A call that is made while the RTSP server has the camera open, and whose session can be
-- allocated, fails with EALREADY, and it closes the camera and the speaker behind the server's
-- back. At the next run of its video timer the server sends nothing to any client, and starting its
-- media, as a PLAY does, does not open the camera. Nothing is said of a DESCRIBE in between.
pub session_alloc-busy :
    (a : SessionAnswers) (peer : Peer) (w : World) (ans : Answers) (alloc : ℕ → ℕ → ℕ → Bool)
    (encoded : Encoded)
    → a.allocates ≡ true
    → w.camera_opened ≡ true
    → w.camera.opened ≡ true
    → let r = session_alloc a peer (record { camera = w.camera; speaker = w.speaker }) in
      let left = record w { camera = r.0.camera; speaker = r.0.speaker } in
      (r.1 ≡ ealready)
      × (left.speaker.opened ≡ false)
      × ((ensure_media_started ans left).camera.opened ≡ false)
      × ((video_send_timer alloc encoded left).1 ≡ [])
session_alloc-busy a peer w ans alloc encoded allocs mine opened =
    let d : Devices = record { camera = w.camera; speaker = w.speaker } in
    let r = session_alloc a peer d in
    let left = record w { camera = r.0.camera; speaker = r.0.speaker } in
    let closed = session_alloc-Closed a peer d allocs opened in
    (
      closed.0,
      closed.1.1,
      ap (λ (c : Camera). c.opened) (camera-ensure_media_started ans left mine) ∙ closed.1.0,
      video_send_timer_silent alloc encoded left closed.1.0,
    )
