-- ===== src/Rtsp/Media.antt =====
-- Starting and stopping the media in rtsp_server.c, and sending one NAL unit or one audio packet to
-- a client. `pcm2ulaw` is libre's `g711_pcm2ulaw`.
use smart_lock_intercom.Base.{
  ℕ, suc, ◌-◌, Bool, true, false, not, List, [], ◌∷◌, ◌++◌, Bytes, map, length, replicate,
  if◌then◌else◌,
}
use smart_lock_intercom.Base.Int.{ℤ, pos}
use smart_lock_intercom.Status.{Status, success, ealready}
use smart_lock_intercom.Camera.{camera_open}
use smart_lock_intercom.AudioIn.{AudioIn, audio_in_open, audio_in_read}
use smart_lock_intercom.AudioOut.{audio_out_close}
use smart_lock_intercom.Rtp.{Packet, pt_pcmu, is_nil, header_of, next_seq, advance_ts, nalu_packets}
use smart_lock_intercom.Rtsp.State.{
  RtspClient, World, Answers, Output, frames, datagram, has_playing_clients, unlink,
}

abbrev pub audio_samples : ℕ
audio_samples = 160

-- VIDEO_CLOCK / VIDEO_FPS.
abbrev pub video_ticks : ℕ
video_ticks = 6000

-- `err && err != EALREADY`.
abbrev pub camera_failed : Status → Bool
camera_failed success = false
camera_failed ealready = false
camera_failed _ = true

abbrev start_mic : Answers → World → World
start_mic ans w =
    let r = audio_in_open ans.mic_opens ans.mic_starts audio_samples w.mic in
    if w.mic_opened then w else record w { mic = r.0; mic_opened = r.1 }

abbrev start_timers : World → World
start_timers w = record w { tmr_video = true; tmr_audio = true }

unfoldable pub ensure_media_started : Answers → World → World
ensure_media_started ans w =
    let r = camera_open ans.camera_setup 320 240 15 w.camera in
    let opened = record w { camera = r.0; camera_opened = true } in
    if w.camera_opened
    then start_timers (start_mic ans w)
    else if camera_failed r.1
    then record w { camera = r.0 }
    else start_timers (start_mic ans opened)

unfoldable pub maybe_stop_media : World → World
maybe_stop_media w =
    if not (has_playing_clients w.clients)
    then record w { tmr_video = false; tmr_audio = false; video_frame_count = 0 }
    else w

-- `mem_deref` of a client: its destructor.
unfoldable pub client_destructor : RtspClient → World → World
client_destructor c w = record w {
  clients = unlink c.id w.clients;
  speaker = if c.audio_out_opened then audio_out_close w.speaker else w.speaker;
}

-- One packet on the client's transport. `udp_send` refuses a socket that is NULL.
abbrev pub send_video : RtspClient → Packet → List Output
send_video c p =
    if c.interleaved
    then frames c.id c.video_interleaved p ∷ []
    else if c.rtp_video
    then datagram c.id c.video_dest p ∷ []
    else []

abbrev pub send_audio : RtspClient → Packet → List Output
send_audio c p =
    if c.interleaved
    then frames c.id c.audio_interleaved p ∷ []
    else if c.rtp_audio
    then datagram c.id c.audio_dest p ∷ []
    else []

unfoldable pub send_all : RtspClient → List Packet → List Output
send_all c [] = []
send_all c (p ∷ ps) = send_video c p ++ send_all c ps

-- The client after it, and what is sent.
unfoldable pub send_h264_nalu_to_client :
    (ℕ → Bool) → Bytes → Bool → RtspClient → RtspClient × List Output
send_h264_nalu_to_client alloc nalu is_last_nalu c =
    let r = nalu_packets alloc nalu is_last_nalu c.video in
    (record c { video = r.1 }, send_all c r.0)

-- The loop over the NAL units of a frame; the last one is marked.
unfoldable pub send_nalus : (ℕ → ℕ → Bool) → List Bytes → RtspClient → RtspClient × List Output
send_nalus alloc [] c = (c, [])
send_nalus alloc (n ∷ ns) c =
    let r = send_h264_nalu_to_client (alloc 0) n (is_nil ns) c in
    let more = send_nalus (λ i. alloc (suc i)) ns r.0 in (more.0, r.1 ++ more.1)

-- The samples of one packet: what the microphone has, and silence behind it.
abbrev pub next_samples : Bool → AudioIn → List ℤ × AudioIn
next_samples mic_opened mic =
    let r : List ℤ × AudioIn = if mic_opened then audio_in_read audio_samples mic else ([], mic) in
    (r.0 ++ replicate (audio_samples - length r.0) (pos 0), r.1)

abbrev pub pcmu_of : (ℤ → ℕ) → List ℤ → Bytes
pcmu_of pcm2ulaw pcm = map pcm2ulaw pcm

-- One audio packet to a client. When no buffer can be allocated nothing changes.
unfoldable pub send_audio_packet : Bool → Bytes → RtspClient → RtspClient × List Output
send_audio_packet alloc pcmu c =
    let p : Packet = record { header = header_of c.audio pt_pcmu false; payload = pcmu } in
    let sent = record c { audio = advance_ts audio_samples (next_seq c.audio) } in
    if alloc then (sent, send_audio c p) else (c, [])
