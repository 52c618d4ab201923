-- ===== src/Rtp.antt =====
-- RTP packets and the H.264 packetiser of intercom_test/src/rtsp_server.c and
-- intercom_test/src/session.c (RFC 6184: single NAL unit packets and FU-A fragments).
-- A packet is its header and its payload; `rtp_hdr_encode` is libre's.
pub mod FuHeader
pub mod Depacketize
pub mod Sequence
use smart_lock_intercom.Base.{
  ℕ, zero, suc, ◌+◌, ◌-◌, ◌%◌, ◌^◌, bit_and, bit_or, Bool, true, false, ◌&&◌, List, [], ◌∷◌, Bytes,
  length, take, drop, ltb, leb, if◌then◌else◌,
}

abbrev pub pt_pcmu : ℕ
pt_pcmu = 0

abbrev pub pt_h264 : ℕ
pt_h264 = 107

-- The largest payload of one packet.
abbrev pub rtp_mtu : ℕ
rtp_mtu = 1200

-- The fields of `struct rtp_header` that the code sets; `memset` makes the others 0.
pub record RtpHeader : Type 0 where
  pub ver : ℕ
  pub m : ℕ
  pub pt : ℕ
  pub seq : ℕ
  pub ts : ℕ
  pub ssrc : ℕ

pub record Packet : Type 0 where
  pub header : RtpHeader
  pub payload : Bytes

-- The send state of one medium: `video_seq`, `video_ts`, `video_ssrc`, or those of the audio.
pub record Stream : Type 0 where
  pub seq : ℕ
  pub ts : ℕ
  pub ssrc : ℕ

-- `seq++` on a `uint16_t`.
abbrev pub next_seq : Stream → Stream
next_seq s = record s { seq = (s.seq + 1) % 2 ^ 16 }

-- `ts += d` on a `uint32_t`.
abbrev pub advance_ts : ℕ → Stream → Stream
advance_ts d s = record s { ts = (s.ts + d) % 2 ^ 32 }

-- The header of the next packet of the stream.
abbrev pub header_of : Stream → ℕ → Bool → RtpHeader
header_of s pt marker = record {
  ver = 2;
  m = if marker then 1 else 0;
  pt = pt;
  seq = s.seq;
  ts = s.ts;
  ssrc = s.ssrc;
}

-- The size of the next fragment, of what is left of the payload.
unfoldable pub fu_chunk : ℕ → ℕ
fu_chunk left = if ltb (rtp_mtu - 2) left then rtp_mtu - 2 else left

unfoldable pub fu_indicator : ℕ → ℕ
fu_indicator nal_header = bit_or (bit_and nal_header 0xE0) 28

unfoldable pub fu_header : ℕ → Bool → Bool → ℕ
fu_header nal_type first last_frag =
    let base = bit_and nal_type 0x1F in
    let started = if first then bit_or base 0x80 else base in
    if last_frag then bit_or started 0x40 else started

-- The packet of the next fragment of `rest`.
abbrev pub fu_packet : ℕ → Bool → Bool → Bytes → Stream → Packet
fu_packet nal_header is_last_nalu first rest s =
    let chunk = fu_chunk (length rest) in
    let last_frag = leb (length rest) chunk in
    let fu = fu_header (bit_and nal_header 0x1F) first last_frag in
    record {
      header = header_of s pt_h264 (last_frag && is_last_nalu);
      payload = fu_indicator nal_header ∷ fu ∷ take chunk rest;
    }

-- The FU-A loop. `rest` is `payload + offset` up to the end of the payload, so `offset <
-- payload_len` is `rest ≢ []`. `alloc k` says whether the k-th `mbuf_alloc` of the call succeeds;
-- the code returns when one fails. Fuel: `length payload` rounds are enough, each takes a byte.
pub fu_loop : (ℕ → Bool) → ℕ → ℕ → ℕ → Bool → Bool → Bytes → Stream → List Packet × Stream
fu_loop alloc zero k nal_header is_last_nalu first rest s = ([], s)
fu_loop alloc (suc fuel) k nal_header is_last_nalu first [] s = ([], s)
fu_loop alloc (suc fuel) k nal_header is_last_nalu first (b ∷ bs) s =
    let rest = b ∷ bs in
    let after = drop (fu_chunk (length rest)) rest in
    let more = fu_loop alloc fuel (suc k) nal_header is_last_nalu false after (next_seq s) in
    if alloc k then (fu_packet nal_header is_last_nalu first rest s ∷ more.0, more.1) else ([], s)

-- A NAL unit that fits one packet goes as it is.
pub single_nalu : (ℕ → Bool) → Bytes → Bool → Stream → List Packet × Stream
single_nalu alloc nalu is_last_nalu s =
    if alloc 0
    then (record { header = header_of s pt_h264 is_last_nalu; payload = nalu } ∷ [], next_seq s)
    else ([], s)

-- The packets for one NAL unit, and the stream after them.
unfoldable pub nalu_packets : (ℕ → Bool) → Bytes → Bool → Stream → List Packet × Stream
unfolding single_nalu
nalu_packets alloc [] is_last_nalu s = ([], s)
nalu_packets alloc (nal_header ∷ payload) is_last_nalu s =
    if leb (length (nal_header ∷ payload)) rtp_mtu
    then single_nalu alloc (nal_header ∷ payload) is_last_nalu s
    else fu_loop alloc (length payload) 0 nal_header is_last_nalu true payload s

-- Whether the NAL unit before these is the last one of its frame.
abbrev pub is_nil : List Bytes → Bool
is_nil [] = true
is_nil (n ∷ ns) = false
