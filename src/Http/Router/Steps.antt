-- ===== src/Http/Router/Steps.antt =====
-- The events of a call under http_server.c as steps, and what holds of the call between them.
use smart_lock_intercom.Base.{
  ℕ, ◌≡◌, sym, ap, subst, ◌∙◌, Bool, true, Option, some, none, Bytes, if_intro,
}
use smart_lock_intercom.Base.Int.{ℤ}
use smart_lock_intercom.CString.{codes, str_eq_nocase}
use smart_lock_intercom.Camera.{Camera, Encoded}
use smart_lock_intercom.Rtsp.State.{World}
use smart_lock_intercom.Rtsp.Invariant.Steps as Rtsp
use smart_lock_intercom.Rtsp.Invariant.Opened.{Step-opened}
use smart_lock_intercom.Session.{
  Session, Devices, Decoded, audio_send_timer, video_send_timer, udp_recv_handler,
}
use smart_lock_intercom.Session.Life.{
  Live, audio_send_timer-Live, video_send_timer-Live, camera-udp_recv_handler,
}
use smart_lock_intercom.Http.{HttpReply}
use smart_lock_intercom.Http.Calls.Answers.{handle_call_create-Live}
use smart_lock_intercom.Http.Calls.{handle_call_delete}
use smart_lock_intercom.Http.Router.{Intercom, HttpMsg, HttpEnv, asks, http_req_handler}

-- The devices that the RTSP server drives.
abbrev pub devices_of : World → Devices
devices_of w = record { camera = w.camera; speaker = w.speaker }

-- The events: a request, the two timers of the call, a datagram for it, and an event of the RTSP
-- server, in whatever state but with the same devices.
pub data Step : Intercom → Intercom → Type 0 where
  request : (env : HttpEnv) (msg : HttpMsg) (i : Intercom) → Step i (http_req_handler env msg i).0
  audio :
      (pcm2ulaw : ℤ → ℕ) (tone : ℕ → ℤ) (alloc : Bool) (phase : ℕ) (i : Intercom) (s : Session)
      → i.sess ≡ some s
      → s.tmr_audio ≡ true
      → Step i (record i { sess = some (audio_send_timer pcm2ulaw tone alloc phase s).1 })
  video :
      (alloc : ℕ → ℕ → Bool) (encoded : Encoded) (i : Intercom) (s : Session)
      → i.sess ≡ some s
      → s.tmr_video ≡ true
      → Step i (record i {
        sess = some (video_send_timer alloc encoded s i.devices).1;
        devices = (video_send_timer alloc encoded s i.devices).0;
      })
  receives :
      (rtp_hdr_decode : Bytes → Option Decoded) (mb : Bytes) (i : Intercom) (s : Session)
      → i.sess ≡ some s
      → Step i (record i { devices = (udp_recv_handler rtp_hdr_decode mb s i.devices).0 })
  streams :
      {md5 : Bytes → Bytes} {pcm2ulaw : ℤ → ℕ} {w v : World} (i : Intercom)
      → i.devices ≡ devices_of w
      → Rtsp.Step md5 pcm2ulaw w v
      → Step i (record i { devices = devices_of v })

-- From a server without a call.
pub data Reachable : Intercom → Type 0 where
  here : (i : Intercom) → i.sess ≡ none → Reachable i
  next : {i j : Intercom} → Reachable i → Step i j → Reachable j

Live-keep :
    (s : Option Session) (d e : Devices)
    → (d.camera.opened ≡ true → e.camera.opened ≡ true)
    → Live s d
    → Live s e
Live-keep none d e k h = tt
Live-keep (some s) d e k (on, a, v, opened) = (on, a, v, k opened)

request-Live :
    (env : HttpEnv) (msg : HttpMsg) (i : Intercom)
    → Live i.sess i.devices
    → let j = (http_req_handler env msg i).0 in Live j.sess j.devices
unfolding http_req_handler handle_call_delete
request-Live env msg i h =
    let P = λ (r : Intercom × HttpReply). Live r.0.sess r.0.devices in
    if_intro P (str_eq_nocase msg.met (codes "OPTIONS")) (λ _. h)
      (λ _.
        if_intro P (asks msg (codes "POST") (codes "/api/call"))
          (λ _.
            handle_call_create-Live env.sa_decode env.session msg.body msg.stale i.sess i.devices)
          (λ _.
            if_intro P (asks msg (codes "GET") (codes "/api/status")) (λ _. h)
              (λ _.
                if_intro P (asks msg (codes "DELETE") (codes "/api/call")) (λ _. tt)
                  (λ _.
                    if_intro P (asks msg (codes "POST") (codes "/api/doorbell")) (λ _. h)
                      (λ _.
                        if_intro P (asks msg (codes "GET") (codes "/api/doorbell/status")) (λ _. h)
                          (λ _.
                            if_intro P (asks msg (codes "GET") (codes "/api/nat")) (λ _. h)
                              (λ _.
                                if_intro P (str_eq_nocase msg.met (codes "GET")) (λ _. h)
                                  (λ _. h))))))))

Step-Live : {i j : Intercom} → Step i j → Live i.sess i.devices → Live j.sess j.devices
Step-Live (request env msg i) h = request-Live env msg i h
Step-Live (audio pcm2ulaw tone alloc phase i s e _) h =
    audio_send_timer-Live pcm2ulaw tone alloc phase s i.devices
      (subst (λ (t : Option Session). Live t i.devices) e h)
Step-Live (video alloc encoded i s e _) h =
    video_send_timer-Live alloc encoded s i.devices
      (subst (λ (t : Option Session). Live t i.devices) e h)
Step-Live (receives rtp_hdr_decode mb i s e) h =
    Live-keep i.sess i.devices (udp_recv_handler rtp_hdr_decode mb s i.devices).0
      (λ o.
        ap (λ (c : Camera). c.opened) (camera-udp_recv_handler rtp_hdr_decode mb s i.devices) ∙ o)
      h
Step-Live (streams {v = v} i e st) h =
    Live-keep i.sess i.devices (devices_of v)
      (λ o. Step-opened st (sym (ap (λ (d : Devices). d.camera.opened) e) ∙ o)) h

-- Whatever is requested, whatever comes in, however the timers run and whatever happens in the RTSP
-- server, which uses the same devices, a call that the server has is active, both its timers run
-- and the camera is open.
pub Reachable-Live : {i : Intercom} → Reachable i → Live i.sess i.devices
Reachable-Live (here i e) = subst (λ (t : Option Session). Live t i.devices) (sym e) tt
Reachable-Live (next r st) = Step-Live st (Reachable-Live r)
