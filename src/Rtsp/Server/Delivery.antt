-- ===== src/Rtsp/Server/Delivery.antt =====
-- What the video timer of rtsp_server.c sends to one of its clients.
pub mod Addressed
use smart_lock_intercom.Base.{
  ℕ, suc, ◌≡◌, ◌≢◌, ◌⊎◌, refl, ap, ◌∙◌, inl, inr, Bool, true, false, ◌&&◌, ◌||◌, some, List, [],
  ◌∷◌, ◌++◌, append-nil, Bytes, All, length, ==_iff, ne→false, ◌==◌, if_intro, if◌then◌else◌,
}
use smart_lock_intercom.Status.{success}
use smart_lock_intercom.Camera.{Camera, Encoded, camera_get_frame, camera_request_keyframe}
use smart_lock_intercom.Rtp.{Packet, is_nil, nalu_packets}
use smart_lock_intercom.Rtp.Depacketize.{payloads}
use smart_lock_intercom.Session.{send_frame, send_h264_nalu_rtp}
use smart_lock_intercom.Session.Frame.{IsUnit, all_buffers, receive_frame, send_frame-received}
use smart_lock_intercom.Rtsp.State.{
  RtspClient, World, Output, replies, frames, datagram, plays, is_playing, has_playing_clients,
}
use smart_lock_intercom.Rtsp.Media.{send_video, send_all, send_h264_nalu_to_client, send_nalus}
use smart_lock_intercom.Rtsp.Server.{needs_idr, send_video_to, video_send_timer}
use smart_lock_intercom.Rtsp.Server.Delivery.Addressed.{
  addressed, HasTransport, addressed-append, addressed-send_nalus, addressed-send_nalus_other,
}

or_true : (b : Bool) → (b || true) ≡ true
or_true true = refl
or_true false = refl

abbrev Sent : Type 0
Sent = List RtspClient × List Output

-- The loop over the clients, from where the others are.
addressed-send_video_to_others :
    (id : ℕ) (alloc : ℕ → ℕ → ℕ → Bool) (ns : List Bytes) (cs : List RtspClient)
    → All (λ d. d.id ≢ id) cs
    → addressed id (send_video_to alloc ns cs).1 ≡ []
unfolding send_video_to addressed
addressed-send_video_to_others id alloc ns [] h = refl
addressed-send_video_to_others id alloc ns (d ∷ cs) h =
    let more = send_video_to (λ k. alloc (suc k)) ns cs in
    let ih = addressed-send_video_to_others id (λ k. alloc (suc k)) ns cs h.1 in
    let sent = send_nalus (alloc 0) ns d in
    if_intro (λ (r : Sent). addressed id r.1 ≡ []) (is_playing d.state && d.video_setup)
      (λ _.
        addressed-append id sent.1 more.1
        ∙ ap (λ (qs : List Packet). qs ++ addressed id more.1)
            (addressed-send_nalus_other id (alloc 0) ns d h.0)
        ∙ ih)
      (λ _. ih)

addressed-send_video_to :
    (alloc : ℕ → ℕ → ℕ → Bool) (ns : List Bytes) (before after : List RtspClient) (c : RtspClient)
    → All (λ d. d.id ≢ c.id) before
    → All (λ d. d.id ≢ c.id) after
    → (is_playing c.state && c.video_setup) ≡ true
    → HasTransport c
    → addressed c.id (send_video_to alloc ns (before ++ (c ∷ after))).1
      ≡ (send_frame (alloc (length before)) ns c.video).0
unfolding send_video_to
addressed-send_video_to alloc ns [] after c u v on h =
    let more = send_video_to (λ k. alloc (suc k)) ns after in
    let sent = send_nalus (alloc 0) ns c in
    let frame = (send_frame (alloc 0) ns c.video).0 in
    if_intro (λ (r : Sent). addressed c.id r.1 ≡ frame) (is_playing c.state && c.video_setup)
      (λ _.
        addressed-append c.id sent.1 more.1
        ∙ ap (λ (qs : List Packet). addressed c.id sent.1 ++ qs)
            (addressed-send_video_to_others c.id (λ k. alloc (suc k)) ns after v)
        ∙ append-nil (addressed c.id sent.1)
        ∙ addressed-send_nalus (alloc 0) ns c h)
      (λ off. cc)
addressed-send_video_to alloc ns (d ∷ before) after c u v on h =
    let more = send_video_to (λ k. alloc (suc k)) ns (before ++ (c ∷ after)) in
    let sent = send_nalus (alloc 0) ns d in
    let frame = (send_frame (alloc (suc (length before))) ns c.video).0 in
    let ih = addressed-send_video_to (λ k. alloc (suc k)) ns before after c u.1 v on h in
    if_intro (λ (r : Sent). addressed c.id r.1 ≡ frame) (is_playing d.state && d.video_setup)
      (λ _.
        addressed-append c.id sent.1 more.1
        ∙ ap (λ (qs : List Packet). qs ++ addressed c.id more.1)
            (addressed-send_nalus_other c.id (alloc 0) ns d u.0)
        ∙ ih)
      (λ _. ih)

has_playing_clients-append :
    (before after : List RtspClient) (c : RtspClient)
    → is_playing c.state ≡ true
    → has_playing_clients (before ++ (c ∷ after)) ≡ true
unfolding has_playing_clients
has_playing_clients-append [] after c h = rw h refl
has_playing_clients-append (d ∷ before) after c h =
    rw (has_playing_clients-append before after c h) (or_true (is_playing d.state))

-- The camera as the timer asks it: for an intra frame now and then.
abbrev pub asked : World → Camera
asked w = if needs_idr w.video_frame_count then camera_request_keyframe w.camera else w.camera

-- When the camera gives a frame, every client that plays, has set its video up and has a transport
-- gets it: a receiver of the packets that the timer sends to this client, among all that it sends,
-- gets back the frame's NAL units, byte for byte and in order. No two clients have the same id, all
-- packet buffers can be allocated, and no unit has the type 28 of a fragment.
pub video_send_timer-addressed :
    (encoded : Encoded) (w : World) (before after : List RtspClient) (c : RtspClient) (cam : Camera)
    (ns : List Bytes) (key : Bool)
    → w.clients ≡ before ++ (c ∷ after)
    → All (λ d. d.id ≢ c.id) before
    → All (λ d. d.id ≢ c.id) after
    → is_playing c.state ≡ true
    → c.video_setup ≡ true
    → HasTransport c
    → camera_get_frame encoded (asked w)
      ≡ (cam, success, some (record { nalus = ns; is_keyframe = key }))
    → All IsUnit ns
    → receive_frame (payloads (addressed c.id (video_send_timer (λ k. all_buffers) encoded w).1))
      ≡ some ns
unfolding video_send_timer
video_send_timer-addressed encoded w before after c cam ns key e u v plays_ set_up h got units =
    let frame = (send_frame all_buffers ns c.video).0 in
    let on : (is_playing c.state && c.video_setup) ≡ true = rw (plays_, set_up) refl in
    let sent = addressed-send_video_to (λ k. all_buffers) ns before after c u v on h in
    let someone = ap has_playing_clients e ∙ has_playing_clients-append before after c plays_ in
    let P = λ (r : World × List Output). addressed c.id r.1 ≡ frame in
    let all : P (video_send_timer (λ k. all_buffers) encoded w) =
      if_intro P (has_playing_clients w.clients)
        (λ _. rw got (
          ap (λ (cs : List RtspClient). addressed c.id (send_video_to (λ k. all_buffers) ns cs).1) e
          ∙ sent))
        (λ off. cc) in
    ap (λ (ps : List Packet). receive_frame (payloads ps)) all
    ∙ send_frame-received ns c.video units
