-- ===== src/Rtsp/Receive/Drain.antt =====
-- The loop of `rtsp_recv_handler` of rtsp_server.c as a whole: what it leaves in the buffer.
use smart_lock_intercom.Base.{
  ℕ, zero, suc, ◌+◌, ◌<◌, ◌≤◌, ◌≡◌, ◌⊎◌, refl, ap, inl, inr, Option, some, none, Bytes, length,
  arith, Option-cases,
}
use smart_lock_intercom.Base.Int.{ℤ}
use smart_lock_intercom.CString.{c_str}
use smart_lock_intercom.Rtsp.State.{RtspClient, World, Answers}
use smart_lock_intercom.Rtsp.Dispatch.{dispatch_rtsp}
use smart_lock_intercom.Rtsp.Receive.{
  Message, incomplete, frame, request, next_message, recv_frame, recv_loop, with_outputs,
}
use smart_lock_intercom.Rtsp.Receive.Split.{next_message-shrinks}

-- Which message the buffer begins with.
pub Message-cases :
    (m : Message)
    → (m ≡ incomplete)
      ⊎ ((ch : ℕ) × (rtp : Bytes) × (rest : Bytes) × (m ≡ frame ch rtp rest))
      ⊎ ((before : Bytes) × (rest : Bytes) × (m ≡ request before rest))
Message-cases incomplete = inl refl
Message-cases (frame ch rtp rest) = inr (inl (ch, rtp, rest, refl))
Message-cases (request before rest) = inr (inr (before, rest, refl))

-- The client is gone, or its buffer has no complete message.
abbrev pub Drained : Option RtspClient → Type 0
Drained none = Unit
Drained (some c) = next_message c.rbuf ≡ incomplete

none-Drained : (o : Option RtspClient) → o ≡ none → Drained o
none-Drained none e = tt
none-Drained (some c) e = cc

frame-shrinks :
    (buf : Bytes) {ch : ℕ} {rtp rest : Bytes}
    → next_message buf ≡ frame ch rtp rest
    → length rest < length buf
frame-shrinks buf e = elim (next_message-shrinks buf) [ inl waits ↦ cc | inr less ↦ rw e at less ]

request-shrinks :
    (buf : Bytes) {before rest : Bytes}
    → next_message buf ≡ request before rest
    → length rest < length buf
request-shrinks buf e = elim (next_message-shrinks buf) [ inl waits ↦ cc | inr less ↦ rw e at less ]

module _ (md5 : Bytes → Bytes) (pcm2ulaw : ℤ → ℕ) where
  -- The loop stops only when the client is gone or its buffer has no complete message left, on any
  -- fuel of at least the number of bytes in the buffer, whatever the requests do.
  pub recv_loop-Drained :
      (fuel : ℕ) (ans : ℕ → Answers) (w : World) (c : RtspClient)
      → length c.rbuf ≤ fuel
      → Drained (recv_loop md5 pcm2ulaw fuel ans w c).client
  unfolding recv_loop
  recv_loop-Drained zero ans w c le = elim (next_message-shrinks c.rbuf) [
    | inl waits ↦ waits
    | inr less ↦ absurd (omega arith)
  ]
  recv_loop-Drained (suc fuel) ans w c le = elim (Message-cases (next_message c.rbuf)) [
    | inl waits ↦ rw (waits, recv_loop) waits
    | inr (inl (ch, rtp, rest, e)) ↦
        rw (e, recv_loop)
          (recv_loop-Drained fuel ans (recv_frame ch rtp w c).0 (record c { rbuf = rest })
            (omega (arith, frame-shrinks c.rbuf e)))
    | inr (inr (before, rest, e)) ↦
        let d = dispatch_rtsp md5 pcm2ulaw (ans 0) (c_str c.rbuf) (length before + 4) w c in
        elim (Option-cases d.client) [
          | inl gone ↦ rw (e, gone, recv_loop) (none-Drained d.client gone)
          | inr (c', stays) ↦
              rw (e, stays, recv_loop)
                (recv_loop-Drained fuel (λ k. ans (suc k)) d.world (record c' { rbuf = rest })
                  (omega (arith, request-shrinks c.rbuf e)))
        ]
  ]

  -- The loop gives the same result on any fuel of at least the number of bytes in the buffer.
  pub recv_loop-fuel :
      (fuel more : ℕ) (ans : ℕ → Answers) (w : World) (c : RtspClient)
      → length c.rbuf ≤ fuel
      → recv_loop md5 pcm2ulaw (fuel + more) ans w c ≡ recv_loop md5 pcm2ulaw fuel ans w c
  unfolding recv_loop
  recv_loop-fuel zero zero ans w c le = refl
  recv_loop-fuel zero (suc more) ans w c le =
      let s : zero + suc more ≡ suc more = omega arith in
      elim (next_message-shrinks c.rbuf) [
        | inl waits ↦ rw (s, waits, recv_loop) refl
        | inr less ↦ absurd (omega arith)
      ]
  recv_loop-fuel (suc fuel) more ans w c le =
      let s : suc fuel + more ≡ suc (fuel + more) = omega arith in
      rw s (elim (Message-cases (next_message c.rbuf)) [
        | inl waits ↦ rw (waits, recv_loop) refl
        | inr (inl (ch, rtp, rest, e)) ↦
            rw (e, recv_loop)
              (ap (with_outputs (recv_frame ch rtp w c).1) (
                recv_loop-fuel fuel more ans (recv_frame ch rtp w c).0 (record c { rbuf = rest })
                  (omega (arith, frame-shrinks c.rbuf e))))
        | inr (inr (before, rest, e)) ↦
            let d = dispatch_rtsp md5 pcm2ulaw (ans 0) (c_str c.rbuf) (length before + 4) w c in
            elim (Option-cases d.client) [
              | inl gone ↦ rw (e, gone, recv_loop) refl
              | inr (c', stays) ↦
                  rw (e, stays, recv_loop)
                    (ap (with_outputs d.outputs) (
                      recv_loop-fuel fuel more (λ k. ans (suc k)) d.world
                        (record c' { rbuf = rest }) (omega (arith, request-shrinks c.rbuf e))))
            ]
      ])
