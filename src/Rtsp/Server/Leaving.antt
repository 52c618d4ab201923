-- ===== src/Rtsp/Server/Leaving.antt =====
-- What is left behind when a client of rtsp_server.c goes.
use smart_lock_intercom.Base.{
  ◌≡◌, refl, sym, ap, ◌∙◌, true, false, ◌||◌, List, [], ◌∷◌, ◌==◌, if◌then◌else◌, ==_iff,
  Bool-cases, inl, inr,
}
use smart_lock_intercom.Rtsp.Request.{RtspReq}
use smart_lock_intercom.Rtsp.State.{
  RtspClient, idle, World, Answers, is_playing, has_playing_clients, store, unlink, rtsp_reply,
  no_headers, no_body,
}
use smart_lock_intercom.Rtsp.Media.{maybe_stop_media, client_destructor}
use smart_lock_intercom.Rtsp.Handlers.Play.{handle_teardown}
use smart_lock_intercom.Rtsp.Server.{rtsp_close_handler, session_timeout_handler, leave_playing}

-- A client that became idle counts as little as one that is gone.
has_playing_clients-store :
    (c : RtspClient) (cs : List RtspClient)
    → has_playing_clients (store (record c { state = idle }) cs)
      ≡ has_playing_clients (unlink c.id cs)
unfolding has_playing_clients store unlink
has_playing_clients-store c [] = refl
has_playing_clients-store c (d ∷ ds) = elim (Bool-cases (d.id == c.id)) [
  | inl it ↦ rw (it, store, unlink, has_playing_clients) refl
  | inr other ↦
      rw (other, store, unlink, has_playing_clients)
        (ap (◌||◌ (is_playing d.state)) (has_playing_clients-store c ds))
]

-- The others and the media when `c` has gone from `before`.
pub record Left (c : RtspClient) (before after : World) : Type 0 where
  pub clients : after.clients ≡ unlink c.id before.clients
  pub video :
      after.tmr_video ≡ (if has_playing_clients after.clients then before.tmr_video else false)
  pub audio :
      after.tmr_audio ≡ (if has_playing_clients after.clients then before.tmr_audio else false)

module _ (c d : RtspClient) (ds : List RtspClient) where
  store-hit : (d.id == c.id) ≡ true → store c (d ∷ ds) ≡ c ∷ ds
  unfolding store
  store-hit e = rw e refl

  store-miss : (d.id == c.id) ≡ false → store c (d ∷ ds) ≡ d ∷ store c ds
  unfolding store
  store-miss e = rw e refl

  unlink-hit : (d.id == c.id) ≡ true → unlink c.id (d ∷ ds) ≡ ds
  unfolding unlink
  unlink-hit e = rw e refl

  unlink-miss : (d.id == c.id) ≡ false → unlink c.id (d ∷ ds) ≡ d ∷ unlink c.id ds
  unfolding unlink
  unlink-miss e = rw e refl

unlink-store_nil :
    (c : RtspClient) → unlink c.id (store (record c { state = idle }) []) ≡ unlink c.id []
unfolding store unlink
unlink-store_nil c = refl

unlink-store :
    (c : RtspClient) (cs : List RtspClient)
    → unlink c.id (store (record c { state = idle }) cs) ≡ unlink c.id cs
unlink-store c [] = unlink-store_nil c
unlink-store c (d ∷ ds) =
    let c' : RtspClient = record c { state = idle } in
    elim (Bool-cases (d.id == c.id)) [
      | inl it ↦
          ap (unlink c.id) (store-hit c' d ds it)
          ∙ unlink-hit c c' ds ((==_iff _ _).1 refl)
          ∙ sym (unlink-hit c d ds it)
      | inr other ↦
          ap (unlink c.id) (store-miss c' d ds other)
          ∙ unlink-miss c d (store c' ds) other
          ∙ ap (◌∷◌ d) (unlink-store c ds)
          ∙ sym (unlink-miss c d ds other)
    ]

-- A client is made idle, the media stop if need be, and its destructor runs.
goes-Left :
    (c : RtspClient) (w : World)
    → Left c w (
        client_destructor c
          (maybe_stop_media (record w { clients = store (record c { state = idle }) w.clients })))
unfolding maybe_stop_media client_destructor
goes-Left c w =
    let c' : RtspClient = record c { state = idle } in
    let cs = store c' w.clients in
    let kept = has_playing_clients-store c w.clients in
    let same = unlink-store c w.clients in
    elim (Bool-cases (has_playing_clients cs)) [
      | inl others ↦
          let h : has_playing_clients (unlink c.id cs) ≡ true =
            ap has_playing_clients same ∙ sym kept ∙ others in
          rw others (record { clients = same; video = rw h refl; audio = rw h refl })
      | inr nobody ↦
          let h : has_playing_clients (unlink c.id cs) ≡ false =
            ap has_playing_clients same ∙ sym kept ∙ nobody in
          rw nobody (record { clients = same; video = rw h refl; audio = rw h refl })
    ]

playing-Left :
    (c : RtspClient) (w : World)
    → is_playing c.state ≡ true
    → Left c w (client_destructor c (leave_playing c w))
playing-Left c w plays = rw plays (goes-Left c w)

-- When a client that plays is lost, by the end of its connection or by its timeout, it is taken
-- off the list, and the two media timers stop if no client plays any more; otherwise they are left
-- as they were.
pub rtsp_close_handler-Left :
    (c : RtspClient) (w : World)
    → is_playing c.state ≡ true
    → Left c w (rtsp_close_handler c w) × Left c w (session_timeout_handler c w)
unfolding rtsp_close_handler session_timeout_handler
rtsp_close_handler-Left c w plays = (playing-Left c w plays, playing-Left c w plays)

-- TEARDOWN takes a client in any state off the list and is answered by 200; the two media timers
-- stop if no client plays any more, and otherwise they are left as they were.
pub handle_teardown-Left :
    (ans : Answers) (req : RtspReq) (w : World) (c : RtspClient)
    → Left c w (handle_teardown ans req w c).0
      × ((handle_teardown ans req w c).1 ≡ rtsp_reply ans c req.cseq 200 no_headers no_body)
unfolding handle_teardown client_destructor
handle_teardown-Left ans req w c = (goes-Left c w, refl)
