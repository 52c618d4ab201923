-- ===== src/Rtsp/Invariant/Receive.antt =====
-- The clients of rtsp_server.c over `rtsp_recv_handler`.
use smart_lock_intercom.Base.{
  ℕ, zero, suc, ◌+◌, ◌≡◌, refl, sym, subst, ◌++◌, ◌&&◌, Bytes, length, if_intro, Option-cases,
  Bool-cases, inl, inr, ltb, ◌==◌, All,
}
use smart_lock_intercom.Base.Int.{ℤ}
use smart_lock_intercom.CString.{c_str}
use smart_lock_intercom.Rtsp.State.{RtspClient, World, Answers}
use smart_lock_intercom.Rtsp.Interleaved.{backchannel_payload}
use smart_lock_intercom.Rtsp.Media.{client_destructor}
use smart_lock_intercom.Rtsp.Dispatch.{Dispatched, dispatch_rtsp}
use smart_lock_intercom.Rtsp.Receive.{
  next_message, recv_frame, recv_loop, rtsp_recv_handler, rbuf_limit, keep_client,
}
use smart_lock_intercom.Rtsp.Receive.Drain.{Message-cases}
use smart_lock_intercom.Rtsp.Invariant.{IsValid}
use smart_lock_intercom.Rtsp.Invariant.Request.{
  All-store, All-unlink, IsValid?, AllValid, Good, dispatch_rtsp-AllValid,
}

module _ (md5 : Bytes → Bytes) (pcm2ulaw : ℤ → ℕ) where
  recv_frame-clients :
      (ch : ℕ) (rtp : Bytes) (w : World) (c : RtspClient)
      → (recv_frame ch rtp w c).0.clients ≡ w.clients
  unfolding recv_frame
  recv_frame-clients ch rtp w c =
      elim (Bool-cases
        (c.backchannel_setup && ch == c.backchannel_interleaved && c.audio_out_opened)) [
          | inr other ↦ rw (other, recv_frame) refl
          | inl back ↦ elim (Option-cases (backchannel_payload rtp)) [
            | inl nothing ↦ rw (back, nothing, recv_frame) refl
            | inr (pcmu, sound) ↦ rw (back, sound, recv_frame) refl
          ]
        ]

  recv_loop-AllValid :
      (fuel : ℕ) (ans : ℕ → Answers) (w : World) (c : RtspClient)
      → Good w c
      → AllValid (recv_loop md5 pcm2ulaw fuel ans w c)
  unfolding recv_loop
  recv_loop-AllValid zero ans w c g = record { clients = g.clients; client = g.client }
  recv_loop-AllValid (suc fuel) ans w c g = elim (Message-cases (next_message c.rbuf)) [
    | inl waits ↦ rw (waits, recv_loop) (record { clients = g.clients; client = g.client })
    | inr (inl (ch, rtp, rest, e)) ↦
        let r = recv_frame ch rtp w c in
        let clients = subst (All IsValid) (sym (recv_frame-clients ch rtp w c)) g.clients in
        let ih =
          recv_loop-AllValid fuel ans r.0 (record c { rbuf = rest })
            (record { clients = clients; client = again c rest g.client }) in
        rw (e, recv_loop) (record { clients = ih.clients; client = ih.client })
    | inr (inr (before, rest, e)) ↦
        let d = dispatch_rtsp md5 pcm2ulaw (ans 0) (c_str c.rbuf) (length before + 4) w c in
        let dv =
          dispatch_rtsp-AllValid md5 pcm2ulaw (ans 0) (c_str c.rbuf) (length before + 4) w c g in
        elim (Option-cases d.client) [
          | inl gone ↦ rw (e, gone, recv_loop) dv
          | inr (c', stays) ↦
              let c'v : IsValid c' = subst IsValid? stays dv.client in
              let ih =
                recv_loop-AllValid fuel (λ k. ans (suc k)) d.world (record c' { rbuf = rest })
                  (record { clients = dv.clients; client = again c' rest c'v }) in
              rw (e, stays, recv_loop) (record { clients = ih.clients; client = ih.client })
        ]
  ]
    where
      again : (c : RtspClient) (rest : Bytes) → IsValid c → IsValid (record c { rbuf = rest })
      again c rest v = record { transport = v.transport; session = v.session; track = v.track }

  pub rtsp_recv_handler-clients :
      (ans : ℕ → Answers) (received : Bytes) (w : World) (c : RtspClient)
      → All IsValid w.clients
      → IsValid c
      → All IsValid (rtsp_recv_handler md5 pcm2ulaw ans received w c).world.clients
  unfolding rtsp_recv_handler client_destructor
  rtsp_recv_handler-clients ans received w c ws v =
      let P : Dispatched → Type 0 = λ d. All IsValid d.world.clients in
      if_intro P (ltb rbuf_limit (length (c.rbuf ++ received))) (λ h. All-unlink c.id w.clients ws)
        (λ h. kept _ (
          recv_loop-AllValid _ ans w (record c { rbuf = c.rbuf ++ received })
            (record {
              clients = ws;
              client = record { transport = v.transport; session = v.session; track = v.track };
            })))
    where
      kept : (d : Dispatched) → AllValid d → All IsValid (keep_client d.client d.world).clients
      kept d a = elim (Option-cases d.client) [
        | inl gone ↦ rw gone a.clients
        | inr (c', stays) ↦
            rw stays (All-store c' d.world.clients (subst IsValid? stays a.client) a.clients)
      ]
