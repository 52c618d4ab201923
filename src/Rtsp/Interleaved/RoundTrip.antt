-- ===== src/Rtsp/Interleaved/RoundTrip.antt =====
-- The sender and a receiver of the stream of frames of rtsp_server.c, put together.
use smart_lock_intercom.Base.{
  ℕ, ◌/◌, ◌%◌, ◌^◌, ◌<◌, ◌≡◌, refl, true, false, some, ◌∷◌, ◌++◌, Bytes, arith, ltb, length,
  length-append, take-append, drop-append, le→ltb, lt→ltb,
}
use smart_lock_intercom.Rtsp.Interleaved.{
  tcp_interleaved_send, more_needed, framed, be16, read_frame,
}

-- A frame of less than 2 ^ 16 bytes that has been sent on a channel is read back with its channel
-- and its bytes, whatever follows it on the connection, and what follows is left as it is.
pub read_frame-tcp_interleaved_send :
    (channel : ℕ) (rtp rest : Bytes)
    → length rtp < 2 ^ 16
    → (sent : Bytes) × (tcp_interleaved_send true channel rtp ≡ some (b'$' ∷ sent))
      × (read_frame (sent ++ rest) ≡ framed channel rtp rest)
unfolding tcp_interleaved_send read_frame
read_frame-tcp_interleaved_send channel rtp rest lt =
    let n = length rtp in
    let size : be16 (n / 2 ^ 8 % 2 ^ 8) (n % 2 ^ 8) ≡ n = omega arith in
    let enough : ltb (length (rtp ++ rest)) n ≡ false =
      le→ltb _ _ (omega (arith, length-append rtp rest)) in
    (
      channel ∷ (n / 2 ^ 8) % 2 ^ 8 ∷ n % 2 ^ 8 ∷ rtp,
      refl,
      rw (size, enough, take-append rtp rest, drop-append rtp rest) refl,
    )

-- A frame that has not come whole is not read: of every shorter piece of what was sent, the
-- receiver waits for more.
pub read_frame_waits :
    (channel n : ℕ) (part : Bytes)
    → length part < n
    → n < 2 ^ 16
    → read_frame (channel ∷ n / 2 ^ 8 % 2 ^ 8 ∷ n % 2 ^ 8 ∷ part) ≡ more_needed
unfolding read_frame
read_frame_waits channel n part lt small =
    let size : be16 (n / 2 ^ 8 % 2 ^ 8) (n % 2 ^ 8) ≡ n = omega arith in
    rw (size, lt→ltb _ _ lt) refl
