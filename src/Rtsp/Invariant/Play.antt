-- ===== src/Rtsp/Invariant/Play.antt =====
-- The clients of rtsp_server.c over `handle_play` and sending.
use smart_lock_intercom.Base.{
  ℕ, suc, ◌≡◌, refl, sym, subst, ◌∙◌, inl, inr, Bool, true, false, ◌&&◌, not, Option, some, none,
  List, [], ◌∷◌, Bytes, Bool-cases, if_intro,
}
use smart_lock_intercom.Base.Int.{ℤ}
use smart_lock_intercom.Camera.{CameraFrame, camera_open, camera_get_frame, camera_request_keyframe}
use smart_lock_intercom.Rtsp.Request.{RtspReq}
use smart_lock_intercom.Rtsp.Media.{
  ensure_media_started, send_nalus, send_h264_nalu_to_client, send_audio_packet, camera_failed,
}
use smart_lock_intercom.Rtsp.State.{RtspClient, World, Answers, is_idle, playing}
use smart_lock_intercom.Rtsp.Handlers.Play.{
  Served, open_speaker, first_frame, first_audio, start_playing, handle_play, send_frame,
}
use smart_lock_intercom.Rtsp.Invariant.{control, IsSound, IsValid}

pub control-send_nalus :
    (alloc : ℕ → ℕ → Bool) (nalus : List Bytes) (c : RtspClient)
    → control (send_nalus alloc nalus c).0 ≡ control c
unfolding send_nalus send_h264_nalu_to_client
control-send_nalus alloc [] c = refl
control-send_nalus alloc (n ∷ ns) c = control-send_nalus (λ i. alloc (suc i)) ns _

pub control-send_audio_packet :
    (alloc : Bool) (pcmu : Bytes) (c : RtspClient)
    → control (send_audio_packet alloc pcmu c).0 ≡ control c
unfolding send_audio_packet
control-send_audio_packet true pcmu c = refl
control-send_audio_packet false pcmu c = refl

-- The media do not touch the list of clients.
pub clients-ensure_media_started :
    (ans : Answers) (w : World) → (ensure_media_started ans w).clients ≡ w.clients
unfolding ensure_media_started
clients-ensure_media_started ans w = elim (Bool-cases w.camera_opened) [
  | inl opened ↦
      rw (opened, ensure_media_started)
        (elim (Bool-cases w.mic_opened) [ inl mic ↦ rw mic refl | inr no_mic ↦ rw no_mic refl ])
  | inr closed ↦
      let r = camera_open ans.camera_setup 320 240 15 w.camera in
      elim (Bool-cases (camera_failed r.1)) [
        | inl failed ↦ rw (closed, failed, ensure_media_started) refl
        | inr works ↦
            rw (closed, works, ensure_media_started)
              (elim (Bool-cases w.mic_opened) [
                | inl mic ↦ rw mic refl
                | inr no_mic ↦ rw no_mic refl
              ])
      ]
]

-- A step of PLAY keeps the clients of the world and what the guards read of its own.
record Keeps (w : World) (c : RtspClient) (s : Served) : Type 0 where
  clients : s.world.clients ≡ w.clients
  client : control s.client ≡ control c

module _ (pcm2ulaw : ℤ → ℕ) (ans : Answers) where
  first_frame-Keeps : (w : World) (c : RtspClient) → Keeps w c (first_frame ans w c)
  unfolding first_frame
  first_frame-Keeps w c =
      let r = camera_get_frame ans.encoded w.camera in
      let k = sent r.2 (record w { camera = r.0 }) in
      record { clients = k.clients; client = k.client }
    where
      sent : (f : Option CameraFrame) (v : World) → Keeps v c (send_frame ans f v c)
      sent none v = record { clients = refl; client = refl }
      sent (some f) v = record {
        clients = refl;
        client = control-send_nalus ans.video_alloc f.nalus c;
      }

  first_audio-Keeps : (w : World) (c : RtspClient) → Keeps w c (first_audio pcm2ulaw ans w c)
  unfolding first_audio
  first_audio-Keeps w c =
      if_intro (Keeps w c) c.audio_setup
        (λ h. record { clients = refl; client = control-send_audio_packet ans.audio_alloc _ c })
        (λ h. record { clients = refl; client = refl })

  open_speaker-clients : (w : World) (c : RtspClient) → (open_speaker ans c w).0.clients ≡ w.clients
  unfolding open_speaker
  open_speaker-clients w c =
      let P : World × RtspClient → Type 0 = λ r. r.0.clients ≡ w.clients in
      if_intro P (c.backchannel_setup && not c.audio_out_opened) (λ h. refl) (λ h. refl)

  open_speaker-IsValid : (w : World) (c : RtspClient) → IsValid c → IsValid (open_speaker ans c w).1
  unfolding open_speaker
  open_speaker-IsValid w c v =
      let P : World × RtspClient → Type 0 = λ r. IsValid r.1 in
      if_intro P (c.backchannel_setup && not c.audio_out_opened)
        (λ h. record {
          transport = record {
            video = v.transport.video;
            audio = v.transport.audio;
            backchannel = v.transport.backchannel;
            speaker = λ o. and_left _ _ h;
          };
          session = v.session;
          track = v.track;
        })
        (λ h. v)
    where
      and_left : (a b : Bool) → (a && b) ≡ true → a ≡ true
      and_left true b h = refl
      and_left false b h = h

  -- What is sent keeps the client well formed and the clients as they were.
  start_playing-IsValid :
      (req : RtspReq) (w : World) (c : RtspClient)
      → IsValid c
      → is_idle c.state ≡ false
      → IsValid (start_playing pcm2ulaw ans req w c).client
  unfolding start_playing
  start_playing-IsValid req w c v active =
      let d : RtspClient = record c { state = playing } in
      let dv : IsValid d = record {
        transport = record {
          video = v.transport.video;
          audio = v.transport.audio;
          backchannel = v.transport.backchannel;
          speaker = v.transport.speaker;
        };
        session = λ h. v.session active;
        track = λ h. v.track active;
      } in
      let started = ensure_media_started ans w in
      let asked : World = record started { camera = camera_request_keyframe started.camera } in
      let o = open_speaker ans d asked in
      let video = first_frame ans o.0 o.1 in
      let audio = first_audio-Keeps video.world video.client in
      let same = audio.client ∙ (first_frame-Keeps o.0 o.1).client in
      subst IsSound (sym same) (open_speaker-IsValid asked d dv)

  start_playing-clients :
      (req : RtspReq) (w : World) (c : RtspClient)
      → (start_playing pcm2ulaw ans req w c).world.clients ≡ w.clients
  unfolding start_playing
  start_playing-clients req w c =
      let d : RtspClient = record c { state = playing } in
      let started = ensure_media_started ans w in
      let asked : World = record started { camera = camera_request_keyframe started.camera } in
      let o = open_speaker ans d asked in
      let video = first_frame ans o.0 o.1 in
      (first_audio-Keeps video.world video.client).clients
      ∙ (first_frame-Keeps o.0 o.1).clients
      ∙ open_speaker-clients asked d
      ∙ clients-ensure_media_started ans w

  pub handle_play-IsValid :
      (req : RtspReq) (w : World) (c : RtspClient)
      → IsValid c
      → IsValid (handle_play pcm2ulaw ans req w c).client
  unfolding handle_play
  handle_play-IsValid req w c v =
      let P : Served → Type 0 = λ s. IsValid s.client in
      if_intro P (is_idle c.state) (λ h. v) (λ h. start_playing-IsValid req w c v h)

  pub handle_play-clients :
      (req : RtspReq) (w : World) (c : RtspClient)
      → (handle_play pcm2ulaw ans req w c).world.clients ≡ w.clients
  unfolding handle_play
  handle_play-clients req w c =
      let P : Served → Type 0 = λ s. s.world.clients ≡ w.clients in
      if_intro P (is_idle c.state) (λ h. refl) (λ h. start_playing-clients req w c)
