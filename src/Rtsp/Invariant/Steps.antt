-- ===== src/Rtsp/Invariant/Steps.antt =====
-- The events of rtsp_server.c as steps of its state, and the states that they lead to.
use mathlib.Core.List.{Memᴰ}
use mathlib.Core.List.Memᴰ
use smart_lock_intercom.Base.{
  ℕ, suc, sym, subst, Bool, true, ◌&&◌, Option, some, none, List, [], ◌∷◌, ◌++◌, Bytes, if_intro,
  if◌then◌else◌, Bool-cases, inl, inr, All,
}
use smart_lock_intercom.Base.Int.{ℤ}
use smart_lock_intercom.Camera.{Encoded, CameraFrame, camera_get_frame, camera_request_keyframe}
use smart_lock_intercom.Rtsp.State.{
  RtspClient, idle, World, Answers, is_playing, has_playing_clients,
}
use smart_lock_intercom.Rtsp.Media.{client_destructor}
use smart_lock_intercom.Rtsp.Receive.{rtsp_recv_handler}
use smart_lock_intercom.Rtsp.Server.{
  new_client, rtsp_conn_handler, rtsp_accept_relay_conn, rtsp_close_handler,
  session_timeout_handler, audio_send_timer, video_send_timer, send_audio_to, send_video_to,
  rtsp_server_init, needs_idr, leave_playing, send_video_frame,
}
use smart_lock_intercom.Rtsp.Invariant.{IsSound, IsValid}
use smart_lock_intercom.Rtsp.Invariant.Play.{control-send_nalus, control-send_audio_packet}
use smart_lock_intercom.Rtsp.Invariant.Receive.{rtsp_recv_handler-clients}
use smart_lock_intercom.Rtsp.Invariant.Request.{
  All-store, All-unlink, clients-maybe_stop_media, idle-IsValid,
}

-- One event of the server's loop.
pub data Step (md5 : Bytes → Bytes) (pcm2ulaw : ℤ → ℕ) : World → World → Type 0 where
  connects :
      (allocs accepts : Bool) (id : ℕ) (loopback : Bool) {w : World}
      → Step md5 pcm2ulaw w (rtsp_conn_handler allocs accepts id loopback w)
  is_relayed :
      (allocs : Bool) (id : ℕ) (loopback : Bool) {w : World}
      → Step md5 pcm2ulaw w (rtsp_accept_relay_conn allocs id loopback w)
  receives :
      (ans : ℕ → Answers) (received : Bytes) {w : World} {c : RtspClient}
      → Memᴰ c w.clients
      → Step md5 pcm2ulaw w (rtsp_recv_handler md5 pcm2ulaw ans received w c).world
  closes :
      {w : World} {c : RtspClient} → Memᴰ c w.clients → Step md5 pcm2ulaw w (rtsp_close_handler c w)
  times_out :
      {w : World} {c : RtspClient}
      → Memᴰ c w.clients
      → Step md5 pcm2ulaw w (session_timeout_handler c w)
  sends_audio :
      (alloc : ℕ → Bool) {w : World} → Step md5 pcm2ulaw w (audio_send_timer pcm2ulaw alloc w).0
  sends_video :
      (alloc : ℕ → ℕ → ℕ → Bool) (encoded : Encoded) {w : World}
      → Step md5 pcm2ulaw w (video_send_timer alloc encoded w).0

-- The states that the server gets to from its start.
pub data Reachable (md5 : Bytes → Bytes) (pcm2ulaw : ℤ → ℕ) : World → Type 0 where
  starts :
      (port : ℕ) (source : Option Bytes) (w : World)
      → Reachable md5 pcm2ulaw (rtsp_server_init (some port) source w).0
  steps :
      {w w' : World} → Reachable md5 pcm2ulaw w → Step md5 pcm2ulaw w w' → Reachable md5 pcm2ulaw w'

new_client-IsValid : (id : ℕ) (loopback : Bool) → IsValid (new_client id loopback)
new_client-IsValid id loopback = record {
  transport = record {
    video = λ h. cc h;
    audio = λ h. cc h;
    backchannel = λ h. cc h;
    speaker = λ h. cc h;
  };
  session = λ h. cc h;
  track = λ h. cc h;
}

All-append_one :
    (c : RtspClient) (cs : List RtspClient)
    → IsValid c
    → All IsValid cs
    → All IsValid (cs ++ (c ∷ []))
All-append_one c [] v vs = (v, tt)
All-append_one c (d ∷ ds) v vs = (vs.0, All-append_one c ds v vs.1)

pub All-Mem : {c : RtspClient} (cs : List RtspClient) → All IsValid cs → Memᴰ c cs → IsValid c
All-Mem [] vs m = absurd (Memᴰ.not-nil m)
All-Mem (d ∷ ds) vs (Memᴰ.head e) = subst IsValid (sym e) vs.0
All-Mem (d ∷ ds) vs (Memᴰ.tail m) = All-Mem ds vs.1 m

leave_playing-clients :
    (c : RtspClient) (w : World)
    → IsValid c
    → All IsValid w.clients
    → All IsValid (leave_playing c w).clients
leave_playing-clients c w v ws =
    let P : World → Type 0 = λ u. All IsValid u.clients in
    if_intro P (is_playing c.state)
      (λ h.
        subst (All IsValid) (sym (clients-maybe_stop_media _))
          (All-store (record c { state = idle }) w.clients (idle-IsValid c v) ws))
      (λ h. ws)

send_audio_to-clients :
    (alloc : ℕ → Bool) (pcmu : Bytes) (cs : List RtspClient)
    → All IsValid cs
    → All IsValid (send_audio_to alloc pcmu cs).0
unfolding send_audio_to
send_audio_to-clients alloc pcmu [] vs = tt
send_audio_to-clients alloc pcmu (c ∷ cs) vs =
    let ih = send_audio_to-clients (λ k. alloc (suc k)) pcmu cs vs.1 in
    elim (Bool-cases (is_playing c.state && c.audio_setup)) [
      | inl sends ↦
          rw (sends, send_audio_to)
            (subst IsSound (sym (control-send_audio_packet (alloc 0) pcmu c)) vs.0, ih)
      | inr passed ↦ rw (passed, send_audio_to) (vs.0, ih)
    ]

send_video_to-clients :
    (alloc : ℕ → ℕ → ℕ → Bool) (nalus : List Bytes) (cs : List RtspClient)
    → All IsValid cs
    → All IsValid (send_video_to alloc nalus cs).0
unfolding send_video_to
send_video_to-clients alloc nalus [] vs = tt
send_video_to-clients alloc nalus (c ∷ cs) vs =
    let ih = send_video_to-clients (λ k. alloc (suc k)) nalus cs vs.1 in
    elim (Bool-cases (is_playing c.state && c.video_setup)) [
      | inl sends ↦
          rw (sends, send_video_to)
            (subst IsSound (sym (control-send_nalus (alloc 0) nalus c)) vs.0, ih)
      | inr passed ↦ rw (passed, send_video_to) (vs.0, ih)
    ]

send_video_frame-clients :
    (alloc : ℕ → ℕ → ℕ → Bool) (f : Option CameraFrame) (w : World)
    → All IsValid w.clients
    → All IsValid (send_video_frame alloc f w).0.clients
send_video_frame-clients alloc none w vs = vs
send_video_frame-clients alloc (some f) w vs = send_video_to-clients alloc f.nalus w.clients vs

module _ (md5 : Bytes → Bytes) (pcm2ulaw : ℤ → ℕ) where
  pub Step-clients :
      {w w' : World} → Step md5 pcm2ulaw w w' → All IsValid w.clients → All IsValid w'.clients
  unfolding rtsp_conn_handler rtsp_accept_relay_conn rtsp_close_handler session_timeout_handler
      client_destructor audio_send_timer video_send_timer
  Step-clients {w} (connects allocs accepts id loopback) ws =
      let P : World → Type 0 = λ u. All IsValid u.clients in
      if_intro P (allocs && accepts)
        (λ h. All-append_one _ w.clients (new_client-IsValid id loopback) ws) (λ h. ws)
  Step-clients {w} (is_relayed allocs id loopback) ws =
      let P : World → Type 0 = λ u. All IsValid u.clients in
      if_intro P allocs (λ h. All-append_one _ w.clients (new_client-IsValid id loopback) ws)
        (λ h. ws)
  Step-clients {w} (receives ans received {c = c} m) ws =
      rtsp_recv_handler-clients md5 pcm2ulaw ans received w c ws (All-Mem w.clients ws m)
  Step-clients {w} (closes {c = c} m) ws =
      All-unlink c.id _ (leave_playing-clients c w (All-Mem w.clients ws m) ws)
  Step-clients {w} (times_out {c = c} m) ws =
      All-unlink c.id _ (leave_playing-clients c w (All-Mem w.clients ws m) ws)
  Step-clients {w} (sends_audio alloc) ws = elim (Bool-cases (has_playing_clients w.clients)) [
    | inl some_play ↦ rw (some_play) (send_audio_to-clients alloc _ w.clients ws)
    | inr none_play ↦ rw (none_play) ws
  ]
  Step-clients {w} (sends_video alloc encoded) ws =
      elim (Bool-cases (has_playing_clients w.clients)) [
        | inl some_play ↦ rw (some_play) (
            send_video_frame-clients alloc
              (camera_get_frame encoded (
                if needs_idr w.video_frame_count
                then camera_request_keyframe w.camera
                else w.camera)).2
              (record w { tmr_video = true; camera = _ }) ws)
        | inr none_play ↦ rw (none_play) ws
      ]

  -- In every state that the server gets to, each client is well formed: each track that is set up
  -- has a transport to send on, the backchannel is interleaved, the speaker is open for a client
  -- with a backchannel only, and a client that is ready or plays has a session and a track.
  pub Reachable-IsValid : {w : World} → Reachable md5 pcm2ulaw w → All IsValid w.clients
  unfolding rtsp_server_init
  Reachable-IsValid (starts port source w) = tt
  Reachable-IsValid (steps r s) = Step-clients s (Reachable-IsValid r)
