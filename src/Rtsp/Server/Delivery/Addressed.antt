-- ===== src/Rtsp/Server/Delivery/Addressed.antt =====
-- Which packets the senders of rtsp_server.c address to a client.
use smart_lock_intercom.Base.{
  ℕ, suc, ◌≡◌, ◌≢◌, ◌⊎◌, refl, ap, ◌∙◌, inl, inr, Bool, true, false, List, [], ◌∷◌, ◌++◌, Bytes,
  ==_iff, ne→false, ◌==◌, if_intro, if◌then◌else◌,
}
use smart_lock_intercom.Rtp.{Packet, is_nil, nalu_packets}
use smart_lock_intercom.Session.{send_frame, send_h264_nalu_rtp}
use smart_lock_intercom.Rtsp.State.{RtspClient, Output, replies, frames, datagram, plays}
use smart_lock_intercom.Rtsp.Media.{send_video, send_all, send_h264_nalu_to_client, send_nalus}

abbrev keep_if : Bool → Packet → List Packet → List Packet
keep_if b p ps = if b then p ∷ ps else ps

-- The packets for client `id`, in order, on whatever transport.
unfoldable pub addressed : ℕ → List Output → List Packet
addressed id [] = []
addressed id (frames to channel p ∷ os) = keep_if (to == id) p (addressed id os)
addressed id (datagram to port p ∷ os) = keep_if (to == id) p (addressed id os)
addressed id (replies to r ∷ os) = addressed id os
addressed id (plays pcm ∷ os) = addressed id os

keep_if-append :
    (b : Bool) (p : Packet) (ps qs : List Packet) → keep_if b p (ps ++ qs) ≡ keep_if b p ps ++ qs
keep_if-append true p ps qs = refl
keep_if-append false p ps qs = refl

pub addressed-append :
    (id : ℕ) (os qs : List Output) → addressed id (os ++ qs) ≡ addressed id os ++ addressed id qs
unfolding addressed
addressed-append id [] qs = refl
addressed-append id (frames to channel p ∷ os) qs =
    ap (keep_if (to == id) p) (addressed-append id os qs)
    ∙ keep_if-append (to == id) p (addressed id os) (addressed id qs)
addressed-append id (datagram to port p ∷ os) qs =
    ap (keep_if (to == id) p) (addressed-append id os qs)
    ∙ keep_if-append (to == id) p (addressed id os) (addressed id qs)
addressed-append id (replies to r ∷ os) qs = addressed-append id os qs
addressed-append id (plays pcm ∷ os) qs = addressed-append id os qs

-- The client has a transport for its video.
abbrev pub HasTransport : RtspClient → Type 0
HasTransport c = (c.interleaved ≡ true) ⊎ (c.rtp_video ≡ true)

addressed-send_video :
    (c : RtspClient) (p : Packet) → HasTransport c → addressed c.id (send_video c p) ≡ p ∷ []
unfolding addressed
addressed-send_video c p h =
    let P = λ (os : List Output). addressed c.id os ≡ p ∷ [] in
    let same = (==_iff c.id c.id).1 refl in
    if_intro P c.interleaved (λ _. ap (λ (b : Bool). keep_if b p []) same)
      (λ off.
        if_intro P c.rtp_video (λ _. ap (λ (b : Bool). keep_if b p []) same)
          (λ off'. elim h [ inl e ↦ cc | inr e ↦ cc ]))

addressed-send_video_other :
    (id : ℕ) (c : RtspClient) (p : Packet) → c.id ≢ id → addressed id (send_video c p) ≡ []
unfolding addressed
addressed-send_video_other id c p h =
    let P = λ (os : List Output). addressed id os ≡ [] in
    let other = ne→false c.id id h in
    if_intro P c.interleaved (λ _. ap (λ (b : Bool). keep_if b p []) other)
      (λ _. if_intro P c.rtp_video (λ _. ap (λ (b : Bool). keep_if b p []) other) (λ _. refl))

addressed-send_all :
    (c : RtspClient) (ps : List Packet) → HasTransport c → addressed c.id (send_all c ps) ≡ ps
unfolding send_all addressed
addressed-send_all c [] h = refl
addressed-send_all c (p ∷ ps) h =
    addressed-append c.id (send_video c p) (send_all c ps)
    ∙ ap (λ (qs : List Packet). qs ++ addressed c.id (send_all c ps)) (addressed-send_video c p h)
    ∙ ap (◌∷◌ p) (addressed-send_all c ps h)

addressed-send_all_other :
    (id : ℕ) (c : RtspClient) (ps : List Packet) → c.id ≢ id → addressed id (send_all c ps) ≡ []
unfolding send_all addressed
addressed-send_all_other id c [] h = refl
addressed-send_all_other id c (p ∷ ps) h =
    addressed-append id (send_video c p) (send_all c ps)
    ∙ ap (λ (qs : List Packet). qs ++ addressed id (send_all c ps))
        (addressed-send_video_other id c p h)
    ∙ addressed-send_all_other id c ps h

-- To the client itself go the packets of the frame, and to another client none.
pub addressed-send_nalus :
    (alloc : ℕ → ℕ → Bool) (ns : List Bytes) (c : RtspClient)
    → HasTransport c
    → addressed c.id (send_nalus alloc ns c).1 ≡ (send_frame alloc ns c.video).0
unfolding send_nalus send_h264_nalu_to_client send_frame send_h264_nalu_rtp addressed
addressed-send_nalus alloc [] c h = refl
addressed-send_nalus alloc (n ∷ ns) c h =
    let r = nalu_packets (alloc 0) n (is_nil ns) c.video in
    let d = record c { video = r.1 } in
    let more = send_nalus (λ i. alloc (suc i)) ns d in
    addressed-append c.id (send_all c r.0) more.1
    ∙ ap (λ (qs : List Packet). qs ++ addressed c.id more.1) (addressed-send_all c r.0 h)
    ∙ ap (λ (qs : List Packet). r.0 ++ qs) (addressed-send_nalus (λ i. alloc (suc i)) ns d h)

pub addressed-send_nalus_other :
    (id : ℕ) (alloc : ℕ → ℕ → Bool) (ns : List Bytes) (c : RtspClient)
    → c.id ≢ id
    → addressed id (send_nalus alloc ns c).1 ≡ []
unfolding send_nalus send_h264_nalu_to_client addressed
addressed-send_nalus_other id alloc [] c h = refl
addressed-send_nalus_other id alloc (n ∷ ns) c h =
    let r = nalu_packets (alloc 0) n (is_nil ns) c.video in
    let d = record c { video = r.1 } in
    let more = send_nalus (λ i. alloc (suc i)) ns d in
    addressed-append id (send_all c r.0) more.1
    ∙ ap (λ (qs : List Packet). qs ++ addressed id more.1) (addressed-send_all_other id c r.0 h)
    ∙ addressed-send_nalus_other id (λ i. alloc (suc i)) ns d h
