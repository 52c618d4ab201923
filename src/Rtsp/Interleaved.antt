-- ===== src/Rtsp/Interleaved.antt =====
-- Binary frames on the RTSP connection (RFC 2326, section 10.12): `tcp_interleaved_send` and the
-- frame branch of `rtsp_recv_handler` in rtsp_server.c.
pub mod RoundTrip
use smart_lock_intercom.Base.{
  ℕ, zero, suc, ◌+◌, ◌-◌, ◌*◌, ◌/◌, ◌%◌, ◌^◌, bit_and, Bool, true, false, ◌&&◌, not, Option, some,
  none, List, [], ◌∷◌, ◌++◌, Bytes, ltb, leb, ◌==◌, if◌then◌else◌, length, take, drop, get_or,
}

-- The bytes handed to `tcp_send`; `none` is `ENOMEM`. The length is written in two bytes.
unfoldable pub tcp_interleaved_send : Bool → ℕ → Bytes → Option Bytes
tcp_interleaved_send alloc channel rtp =
    let rtp_len = length rtp in
    if alloc
    then some (b'$' ∷ channel ∷ (rtp_len / 2 ^ 8) % 2 ^ 8 ∷ rtp_len % 2 ^ 8 ∷ rtp)
    else none

-- What stands at the front of the receive buffer, behind its `$`.
pub data Framing : Type 0 where
  more_needed : Framing
  framed : ℕ → Bytes → Bytes → Framing

-- `data[2] << 8 | data[3]` on bytes.
abbrev pub be16 : ℕ → ℕ → ℕ
be16 hi lo = (hi * 2 ^ 8 + lo) % 2 ^ 16

-- The buffer behind the `$`: the channel, the frame and what follows it.
unfoldable pub read_frame : Bytes → Framing
read_frame (channel ∷ hi ∷ lo ∷ rest) =
    let frame_len = be16 hi lo in
    if ltb (length rest) frame_len
    then more_needed
    else framed channel (take frame_len rest) (drop frame_len rest)
read_frame _ = more_needed

-- The length of the RTP header at `rtp`, with its CSRCs and its extension, if that fits the frame.
unfoldable pub rtp_header_len : Bytes → ℕ
rtp_header_len rtp =
    let first = get_or rtp 0 0 in
    let hdr_len = 12 + bit_and first 0x0F * 4 in
    let ext = bit_and (first / 2 ^ 4) 0x01 == 1 in
    let ext_len = be16 (get_or rtp (hdr_len + 2) 0) (get_or rtp (hdr_len + 3) 0) in
    if ext && leb (hdr_len + 4) (length rtp) then hdr_len + (4 + ext_len * 4) else hdr_len

-- What is played of a frame on the backchannel.
unfoldable pub backchannel_payload : Bytes → Option Bytes
backchannel_payload rtp =
    let hdr_len = rtp_header_len rtp in
    if leb 12 (length rtp) && ltb hdr_len (length rtp) then some (drop hdr_len rtp) else none
