-- ===== src/Rtsp/Reply.antt =====
-- The text of the replies: `rtsp_reply` of rtsp_server.c, and the headers and the SDP that the
-- handlers print for it.
pub mod Reader
pub mod Lines
pub mod HeaderLines
pub mod TextLines
pub mod Cut
pub mod Sdp
pub mod Sent
pub mod RoundTrip
use smart_lock_intercom.Base.{
  ℕ, suc, ◌+◌, Bool, true, false, Option, some, none, List, [], ◌∷◌, ◌++◌, Bytes, ltb, ◌==◌,
  if◌then◌else◌, length,
}
use smart_lock_intercom.CString.{codes}
use smart_lock_intercom.Libre.{concat, snprintf, decimal, decimal_int, hex8}
use smart_lock_intercom.Rtp.{Stream, pt_h264, pt_pcmu}
use smart_lock_intercom.Rtsp.Request.{crlf}
use smart_lock_intercom.Rtsp.State.{
  Headers, no_headers, public_methods, content_base, tcp_transport, udp_transport, rtp_info,
  challenge, Body, no_body, sdp, Reply,
}

abbrev pub audio_ptime : ℕ
audio_ptime = 20

-- The reason that the callers give with each code.
abbrev pub reason : ℕ → Bytes
reason code =
    if code == 200
    then codes "OK"
    else if code == 401
    then codes "Unauthorized"
    else if code == 405
    then codes "Method Not Allowed"
    else if code == 455
    then codes "Method Not Valid in This State"
    else if code == 461
    then codes "Unsupported Transport"
    else codes "Internal Error"

abbrev ssrc_pieces : Option ℕ → List Bytes
ssrc_pieces none = codes "\r\n" ∷ []
ssrc_pieces (some ssrc) = codes ";ssrc=" ∷ hex8 b'A' ssrc ∷ codes "\r\n" ∷ []

abbrev pub tcp_pieces : ℕ → ℕ → Option ℕ → List Bytes
tcp_pieces rtp rtcp ssrc =
    codes "Transport: RTP/AVP/TCP;unicast;interleaved="
    ∷ decimal rtp
    ∷ codes "-"
    ∷ decimal rtcp
    ∷ ssrc_pieces ssrc

abbrev pub udp_pieces : ℕ → ℕ → ℕ → ℕ → List Bytes
udp_pieces rtp rtcp server ssrc =
    codes "Transport: RTP/AVP;unicast;client_port="
    ∷ decimal rtp
    ∷ codes "-"
    ∷ decimal rtcp
    ∷ codes ";server_port="
    ∷ decimal server
    ∷ codes "-"
    ∷ decimal (server + 1)
    ∷ codes ";ssrc="
    ∷ hex8 b'A' ssrc
    ∷ codes "\r\n"
    ∷ []

abbrev pub backchannel_pieces : Bytes → Bool → List Bytes
backchannel_pieces base true = codes ",url=" ∷ base ∷ codes "/trackID=2;seq=0;rtptime=0\r\n" ∷ []
backchannel_pieces base false = codes "\r\n" ∷ []

-- The format of `handle_play`, with the text between two conversions as one piece.
abbrev pub info_pieces : Bytes → Stream → Stream → Bool → List Bytes
info_pieces base video audio back =
    codes "Range: npt=0.000-\r\nRTP-Info: url="
    ∷ base
    ∷ codes "/trackID=0;seq="
    ∷ decimal video.seq
    ∷ codes ";rtptime="
    ∷ decimal video.ts
    ∷ codes ",url="
    ∷ base
    ∷ codes "/trackID=1;seq="
    ∷ decimal audio.seq
    ∷ codes ";rtptime="
    ∷ decimal audio.ts
    ∷ backchannel_pieces base back

abbrev pub describe_pieces : Bytes → List Bytes
describe_pieces uri =
    codes "Content-Type: application/sdp\r\nContent-Base: " ∷ uri ∷ codes "/\r\n" ∷ []

-- The `extra_hdrs` of a reply, printed by its handler into an array of its own: `desc_hdrs`,
-- `transport_resp`, `rtp_info` or `challenge`.
unfoldable pub headers_text : Headers → Bytes
headers_text no_headers = []
headers_text public_methods =
    codes "Public: OPTIONS, DESCRIBE, SETUP, PLAY, TEARDOWN, GET_PARAMETER\r\n"
headers_text (content_base uri) = snprintf 512 (describe_pieces uri)
headers_text (tcp_transport rtp rtcp ssrc) = snprintf 256 (tcp_pieces rtp rtcp ssrc)
headers_text (udp_transport rtp rtcp server ssrc) = snprintf 256 (udp_pieces rtp rtcp server ssrc)
headers_text (rtp_info base video audio back) = snprintf 512 (info_pieces base video audio back)
headers_text (challenge text) = text

abbrev pub status_line : Reply → Bytes
status_line r = concat (codes "RTSP/1.0 " ∷ decimal r.code ∷ codes " " ∷ reason r.code ∷ [])

abbrev pub session_text : Option ℕ → Bytes
session_text none = []
session_text (some n) = codes "Session: " ++ (hex8 b'a' n ++ codes ";timeout=60\r\n")

abbrev pub with_length : Bytes → Bytes
with_length body =
    if ltb 0 (length body)
    then codes "Content-Length: " ++ (decimal (length body) ++ (crlf ++ (crlf ++ body)))
    else crlf

module _ (base64 : Bytes → Bytes) where
  -- `sprop`, which is empty as long as SPS and PPS are not known.
  unfoldable pub sprop : Option (Bytes × Bytes) → Bytes
  sprop none = []
  sprop (some (sps, pps)) =
      snprintf 256 (codes ";sprop-parameter-sets=" ∷ base64 sps ∷ codes "," ∷ base64 pps ∷ [])

  abbrev pub sdp_pieces : Bytes → Option (Bytes × Bytes) → List Bytes
  sdp_pieces local_ip params =
      codes "v=0\r\no=- 0 0 IN IP4 "
      ∷ local_ip
      ∷ codes "\r\ns=Smart Lock Intercom\r\nc=IN IP4 0.0.0.0\r\nt=0 0\r\nm=video 0 RTP/AVP "
      ∷ decimal pt_h264
      ∷ codes "\r\na=rtpmap:"
      ∷ decimal pt_h264
      ∷ codes " H264/90000\r\na=fmtp:"
      ∷ decimal pt_h264
      ∷ codes " profile-level-id=42e01f;packetization-mode=1"
      ∷ sprop params
      ∷ codes "\r\na=control:trackID=0\r\nm=audio 0 RTP/AVP "
      ∷ decimal pt_pcmu
      ∷ codes "\r\na=rtpmap:"
      ∷ decimal pt_pcmu
      ∷ codes " PCMU/8000\r\na=ptime:"
      ∷ decimal audio_ptime
      ∷ codes "\r\na=control:trackID=1\r\nm=audio 0 RTP/AVP "
      ∷ decimal pt_pcmu
      ∷ codes "\r\na=rtpmap:"
      ∷ decimal pt_pcmu
      ∷ codes " PCMU/8000\r\na=ptime:"
      ∷ decimal audio_ptime
      ∷ codes "\r\na=sendonly\r\na=control:trackID=2\r\n"
      ∷ []

  -- The body of a reply. What `re_snprintf` returns is its length, since the SDP fits.
  unfoldable pub body_text : Body → Bytes
  body_text no_body = []
  body_text (sdp local_ip params) = snprintf 2048 (sdp_pieces local_ip params)

  -- What is sent on the connection.
  unfoldable pub reply_text : Reply → Bytes
  reply_text r =
      status_line r
      ++ (crlf
          ++ (codes "CSeq: "
              ++ (decimal_int r.cseq
                  ++ (crlf
                      ++ (session_text r.session
                          ++ (headers_text r.headers ++ with_length (body_text r.body)))))))
