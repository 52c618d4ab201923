-- ===== src/Session/Life.antt =====
-- A call of session.c over its events.
use smart_lock_intercom.Base.{
  ℕ, ◌≡◌, refl, sym, subst, ◌∙◌, Bool, true, not, Option, some, none, List, Bytes, ltb, length,
  ◌==◌, if_intro,
}
use smart_lock_intercom.Base.Int.{ℤ}
use smart_lock_intercom.Status.{Status}
use smart_lock_intercom.Camera.{CameraFrame, Encoded, camera_get_frame}
use smart_lock_intercom.Camera.Opened.{opened-camera_get_frame}
use smart_lock_intercom.Rtp.{Packet, pt_pcmu}
use smart_lock_intercom.Session.{
  Peer, Session, Devices, SessionAnswers, Decoded, session_alloc, send_captured, play_decoded,
  audio_send_timer, video_send_timer, udp_recv_handler,
}
use smart_lock_intercom.Session.Sharing.{Outcome, session_alloc-Outcome}

-- A call that is stored is active, both its timers run, and the camera is open.
abbrev pub Live : Option Session → Devices → Type 0
Live none d = Unit
Live (some s) d =
    (s.active ≡ true) × (s.tmr_audio ≡ true) × (s.tmr_video ≡ true) × (d.camera.opened ≡ true)

Outcome-Live :
    (a : SessionAnswers) (peer : Peer) (d d' : Devices) (st : Status) (s : Option Session)
    → Outcome a peer d (d', st, s)
    → Live s d'
Outcome-Live a peer d d' st none o = tt
Outcome-Live a peer d d' st (some s) (_, _, opened, e) =
    subst (λ (t : Session). Live (some t) d') (sym e) (refl, refl, refl, opened)

pub session_alloc-Live :
    (a : SessionAnswers) (peer : Peer) (d : Devices)
    → let r = session_alloc a peer d in Live r.2 r.0
session_alloc-Live a peer d =
    let r = session_alloc a peer d in
    Outcome-Live a peer d r.0 r.1 r.2 (session_alloc-Outcome a peer d)

pub audio_send_timer-Live :
    (pcm2ulaw : ℤ → ℕ) (tone : ℕ → ℤ) (alloc : Bool) (phase : ℕ) (s : Session) (d : Devices)
    → Live (some s) d
    → Live (some (audio_send_timer pcm2ulaw tone alloc phase s).1) d
unfolding audio_send_timer
audio_send_timer-Live pcm2ulaw tone alloc phase s d (active, _, video, opened) =
    let P = λ (r : ℕ × Session × List Packet). Live (some r.1) d in
    if_intro P (not s.active) (λ h. cc)
      (λ _.
        if_intro P (not s.peer_addr.is_set) (λ _. (active, refl, video, opened))
          (λ _.
            if_intro P (not alloc) (λ _. (active, refl, video, opened))
              (λ _. (active, refl, video, opened))))

send_captured-Live :
    (alloc : ℕ → ℕ → Bool) (f : Option CameraFrame) (s : Session) (d : Devices)
    → Live (some s) d
    → Live (some (send_captured alloc f s).0) d
send_captured-Live alloc none s d h = h
send_captured-Live alloc (some f) s d h = h

pub video_send_timer-Live :
    (alloc : ℕ → ℕ → Bool) (encoded : Encoded) (s : Session) (d : Devices)
    → Live (some s) d
    → let r = video_send_timer alloc encoded s d in Live (some r.1) r.0
unfolding video_send_timer
video_send_timer-Live alloc encoded s d (active, audio, _, opened) =
    let P = λ (r : Devices × Session × List Packet). Live (some r.1) r.0 in
    let r = camera_get_frame encoded d.camera in
    let still = opened-camera_get_frame encoded d.camera ∙ opened in
    if_intro P (not s.active) (λ h. cc)
      (λ _.
        if_intro P (not s.peer_addr.is_set) (λ _. (active, audio, refl, opened))
          (λ _.
            send_captured-Live alloc r.2 (record s { tmr_video = true }) (record d { camera = r.0 })
              (active, audio, refl, still)))

camera-play_decoded : (h : Option Decoded) (d : Devices) → (play_decoded h d).0.camera ≡ d.camera
unfolding play_decoded
camera-play_decoded none d = refl
camera-play_decoded (some h) d =
    let P = λ (r : Devices × Option (List ℤ)). r.0.camera ≡ d.camera in
    if_intro P (not (h.ver == 2)) (λ _. refl)
      (λ _. if_intro P (h.pt == pt_pcmu) (λ _. refl) (λ _. refl))

pub camera-udp_recv_handler :
    (rtp_hdr_decode : Bytes → Option Decoded) (mb : Bytes) (s : Session) (d : Devices)
    → (udp_recv_handler rtp_hdr_decode mb s d).0.camera ≡ d.camera
unfolding udp_recv_handler
camera-udp_recv_handler rtp_hdr_decode mb s d =
    let P = λ (r : Devices × Option (List ℤ)). r.0.camera ≡ d.camera in
    if_intro P (not s.active) (λ _. refl)
      (λ _.
        if_intro P (ltb (length mb) 12) (λ _. refl)
          (λ _. camera-play_decoded (rtp_hdr_decode mb) d))
