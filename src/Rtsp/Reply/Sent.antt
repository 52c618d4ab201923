-- ===== src/Rtsp/Reply/Sent.antt =====
-- What clients read of the replies that `handle_describe` and `handle_play` of rtsp_server.c send.
use smart_lock_intercom.Base.{
  append-nil, ltb, ltb→lt, ℕ, ◌^◌, ◌≤◌, ◌≡◌, refl, ap, ◌∙◌, true, false, ◌&&◌, not, Option, some,
  none, List, [], ◌∷◌, ◌++◌, Bytes, arith, if_intro, if◌then◌else◌,
}
use smart_lock_intercom.Base.Int.{ℤ, pos}
use smart_lock_intercom.Libre.Whole.{total}
use smart_lock_intercom.Libre.Digits.{magnitude}
use smart_lock_intercom.AudioOut.{audio_out_open}
use smart_lock_intercom.Camera.{camera_request_keyframe}
use smart_lock_intercom.Rtsp.Media.{ensure_media_started}
use smart_lock_intercom.Rtsp.Request.{RtspReq}
use smart_lock_intercom.Rtsp.Request.Line.{Without}
use smart_lock_intercom.Rtsp.State.{
  RtspClient, playing, World, Answers, Reply, Output, replies, rtp_info, no_body, rtsp_reply,
  is_idle,
}
use smart_lock_intercom.Rtsp.Handlers.Play.{
  strip_slashes, Served, open_speaker, first_frame, first_audio, start_playing, handle_play,
}
use smart_lock_intercom.Rtsp.Reply.{reply_text, body_text, info_pieces}
use smart_lock_intercom.Rtsp.Reply.Reader.{Response, read_response}
use smart_lock_intercom.Rtsp.Reply.RoundTrip.{session_value, read_response-reply_text}
use smart_lock_intercom.Rtsp.Reply.Cut.{read_response-cut}

-- The first thing sent to the client is a reply that it reads as `result`, with `rest` behind it.
abbrev pub Reads : (Bytes → Bytes) → ℕ → List Output → Bytes → Option (Response × Bytes) → Type 0
Reads base64 id os rest result =
    (r : Reply) × (more : List Output) × (os ≡ replies id r ∷ more)
    × (read_response (reply_text base64 r ++ rest) ≡ result)

abbrev pub ok_response : ℤ → RtspClient → Bytes → Response
ok_response cseq c body = record {
  code = some (pos 200);
  cseq = some cseq;
  session = session_value c.session_id;
  body = body;
}

-- The reply to a PLAY, with the media of the client that it names.
abbrev pub play_response : Bytes → ℤ → RtspClient → Option (Response × Bytes)
play_response base cseq c =
    if ltb 511 (total (info_pieces base c.video c.audio c.backchannel_setup))
    then none
    else some (ok_response cseq c [], [])

play_reply-read :
    (base64 : Bytes → Bytes) (ans : Answers) (cseq : ℤ) (base : Bytes) (c : RtspClient)
    (os : List Output)
    → ans.reply_ok ≡ true
    → magnitude cseq ≤ 2 ^ 31
    → Without 13 base
    → let info = rtp_info base c.video c.audio c.backchannel_setup in
      Reads base64 c.id
        (rtsp_reply ans c cseq 200 info no_body ++ os)
        []
        (play_response base cseq c)
unfolding rtsp_reply body_text
play_reply-read base64 ans cseq base c os ok small cr =
    let ps = info_pieces base c.video c.audio c.backchannel_setup in
    let r : Reply = record {
      cseq = cseq;
      code = 200;
      session = c.session_id;
      headers = rtp_info base c.video c.audio c.backchannel_setup;
      body = no_body;
    } in
    let read : read_response (reply_text base64 r ++ []) ≡ play_response base cseq c =
      if_intro (λ (t : Option (Response × Bytes)). read_response (reply_text base64 r ++ []) ≡ t)
        (ltb 511 (total ps))
        (λ cut.
          ap read_response (append-nil (reply_text base64 r))
          ∙ read_response-cut base64 r base c.video c.audio c.backchannel_setup refl refl cr
              (ltb→lt 511 (total ps) cut))
        (λ fits.
          read_response-reply_text base64 r [] (omega arith) (omega (arith, small))
            (cr, ground (arith, fits))) in
    (r, os, rw ok refl, read)

-- A client that may play and sends a PLAY reads a reply of code 200 with the CSeq of its request
-- and its session, exactly if RTP-Info fits the 512 bytes of its array; if not, it has read all of
-- the reply and still waits for its end. The reply can be allocated, the URI without the slashes at
-- its end has no CR, and the CSeq is an `int`.
pub handle_play-read :
    (base64 : Bytes → Bytes) (pcm2ulaw : ℤ → ℕ) (ans : Answers) (req : RtspReq) (w : World)
    (c : RtspClient)
    → is_idle c.state ≡ false
    → ans.reply_ok ≡ true
    → magnitude req.cseq ≤ 2 ^ 31
    → Without 13 (strip_slashes req.uri)
    → Reads base64 c.id
        (handle_play pcm2ulaw ans req w c).outputs
        []
        (play_response (strip_slashes req.uri) req.cseq c)
unfolding handle_play start_playing open_speaker
handle_play-read base64 pcm2ulaw ans req w c ready ok small cr =
    let base = strip_slashes req.uri in
    let result = play_response base req.cseq c in
    let P = λ (s : Served). Reads base64 c.id s.outputs [] result in
    let started = ensure_media_started ans w in
    let asked = record started { camera = camera_request_keyframe started.camera } in
    let d = record c { state = playing } in
    let speaker = audio_out_open ans.speaker_opens 8000 1 asked.speaker in
    let sent = λ (p : World × RtspClient).
      let video = first_frame ans p.0 p.1 in
      video.outputs ++ (first_audio pcm2ulaw ans video.world video.client).outputs in
    let info = λ (e : RtspClient). rtp_info base e.video e.audio e.backchannel_setup in
    let Q = λ (p : World × RtspClient).
      Reads base64 c.id (rtsp_reply ans p.1 req.cseq 200 (info p.1) no_body ++ sent p) [] result in
    let at : (p : World × RtspClient)
        → Reads base64 p.1.id (rtsp_reply ans p.1 req.cseq 200 (info p.1) no_body ++ sent p) []
            (play_response base req.cseq p.1) =
      λ p. play_reply-read base64 ans req.cseq base p.1 (sent p) ok small cr in
    if_intro P (is_idle c.state) (λ off. cc)
      (λ _.
        if_intro Q (d.backchannel_setup && not d.audio_out_opened)
          (λ _.
            at (record asked { speaker = speaker.0 }, record d { audio_out_opened = speaker.1 }))
          (λ _. at (asked, d)))
