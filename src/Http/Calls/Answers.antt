-- ===== src/Http/Calls/Answers.antt =====
-- The answers of http_server.c to requests for a call, and the call after them.
use smart_lock_intercom.Base.{
  ℕ, Bool, false, ◌&&◌, not, arith, sym, subst, ◌∙◌, ◌≡◌, ◌⊎◌, refl, ap, inl, inr, true, Option,
  some, none, Bytes, if_intro,
}
use smart_lock_intercom.Status.{Status, success, is_ok}
use smart_lock_intercom.Camera.{Camera, Setup, camera_open}
use smart_lock_intercom.Session.{
  Peer, Session, Devices, SessionAnswers, session_alloc, fresh_session,
}
use smart_lock_intercom.Session.Sharing.{
  Closed, session_destructor-Closed, Outcome, session_alloc-Outcome,
}
use smart_lock_intercom.Session.Life.{Live, session_alloc-Live}
use smart_lock_intercom.Http.{HttpReply, ereply, created, invalid_peer}
use smart_lock_intercom.Http.Calls.{handle_call_create, start_call, end_call, peer_str}

abbrev Call : Type 0
Call = Option Session × Devices × HttpReply

start_call-Live :
    (a : SessionAnswers) (text : Bytes) (peer : Option Peer) (d : Devices)
    → let r = start_call a text peer d in Live r.0 r.1
unfolding start_call
start_call-Live a text none d = tt
start_call-Live a text (some peer) d =
    if_intro (λ (r : Call). Live r.0 r.1) (is_ok (session_alloc a peer d).1)
      (λ _. session_alloc-Live a peer d) (λ _. tt)

pub handle_call_create-Live :
    (sa_decode : Bytes → Option Peer) (a : SessionAnswers) (body stale : Bytes)
    (g_sess : Option Session) (d : Devices)
    → let r = handle_call_create sa_decode a body stale g_sess d in Live r.0 r.1
unfolding handle_call_create
handle_call_create-Live sa_decode a body stale g_sess d =
    start_call-Live a (peer_str body stale) (sa_decode (peer_str body stale)) (end_call g_sess d)

-- A camera that is closed opens if the encoder does.
abbrev pub camera_opens : Setup → Bool → Bool
camera_opens o is_open = not is_open && (o.creates && (o.initializes && o.allocates))

is_ok-camera_open :
    (o : Setup) (width height fps : ℕ) (cam : Camera)
    → is_ok (camera_open o width height fps cam).1 ≡ camera_opens o cam.opened
unfolding camera_open
is_ok-camera_open o width height fps cam =
    let P = λ (r : Camera × Status). is_ok r.1 ≡ camera_opens o cam.opened in
    if_intro P cam.opened (λ h. ground (arith, h))
      (λ h.
        if_intro P (not o.creates) (λ k. ground (arith, h, k))
          (λ k.
            if_intro P (not o.initializes) (λ l. ground (arith, h, k, l))
              (λ l.
                if_intro P (not o.allocates) (λ m. ground (arith, h, k, l, m))
                  (λ m. ground (arith, h, k, l, m)))))

-- What a new call takes: memory, the camera and a socket.
abbrev pub call_starts : SessionAnswers → Bool → Bool
call_starts a is_open = a.allocates && (camera_opens a.camera_setup is_open && is_ok a.listen)

is_ok-session_alloc :
    (a : SessionAnswers) (peer : Peer) (d : Devices)
    → is_ok (session_alloc a peer d).1 ≡ call_starts a d.camera.opened
unfolding session_alloc
is_ok-session_alloc a peer d =
    let cam = camera_open a.camera_setup 320 240 15 d.camera in
    let e = is_ok-camera_open a.camera_setup 320 240 15 d.camera in
    let P = λ (r : Devices × Status × Option Session).
      is_ok r.1 ≡ (a.allocates && (is_ok cam.1 && is_ok a.listen)) in
    if_intro P (not a.allocates) (λ h. ground (arith, h))
      (λ h.
        if_intro P (not (is_ok cam.1)) (λ k. ground (arith, h, k))
          (λ k.
            if_intro P (not (is_ok a.listen)) (λ l. ground (arith, h, k, l))
              (λ l. ground (arith, h, k, l))))
    ∙ ap (λ b. a.allocates && (b && is_ok a.listen)) e

abbrev pub has_call : Option Session → Bool
has_call none = false
has_call (some s) = true

-- The devices are closed, if there was a call to end.
abbrev pub Ended : Option Session → Devices → Type 0
Ended none d = Unit
Ended (some s) d = Closed d

camera-end_call :
    (g_sess : Option Session) (d : Devices)
    → (end_call g_sess d).camera.opened ≡ (not (has_call g_sess) && d.camera.opened)
unfolding end_call
camera-end_call none d = refl
camera-end_call (some s) d = (session_destructor-Closed d).0

end_call-Ended : (g_sess : Option Session) (d : Devices) → Ended g_sess (end_call g_sess d)
unfolding end_call
end_call-Ended none d = tt
end_call-Ended (some s) d = session_destructor-Closed d

-- Whether a request can have its call: the camera is free if the call before it had it.
abbrev pub can_start : SessionAnswers → Option Session → Devices → Bool
can_start a g_sess d = call_starts a (not (has_call g_sess) && d.camera.opened)

-- How a request for a call of the peer `text` ends.
abbrev pub Answered :
    (Bytes → Option Peer) → SessionAnswers → Bytes → Option Session → Devices → Call → Type 0
Answered sa_decode a text g_sess d r =
    ((peer : Peer) × (sa_decode text ≡ some peer)
      × (can_start a g_sess d ≡ true)
      × (r.0 ≡ some (fresh_session a peer))
      × (r.2 ≡ created a.bound_port text)
      × (r.1.camera.opened ≡ true))
    ⊎ ((r.0 ≡ none)
        × Ended g_sess r.1
        × (((peer : Peer) × (sa_decode text ≡ some peer)
              × (can_start a g_sess d ≡ false)
              × (r.2 ≡ ereply 500))
            ⊎ ((sa_decode text ≡ none) × (r.2 ≡ invalid_peer))))

session_alloc-started :
    (a : SessionAnswers) (peer : Peer) (d d' : Devices) (st : Status) (s : Option Session)
    → Outcome a peer d (d', st, s)
    → is_ok st ≡ true
    → (s ≡ some (fresh_session a peer)) × (d'.camera.opened ≡ true)
session_alloc-started a peer d d' st (some s) (_, _, opened, e) h = (ap some e, opened)
session_alloc-started a peer d d' success none (ne, _) h = absurd (ne refl)
session_alloc-started a peer d d' _ none (ne, _) h = cc

-- A call that does not start leaves devices closed that were closed.
session_alloc-Ended :
    (a : SessionAnswers) (peer : Peer) (g_sess : Option Session) (d d' : Devices) (st : Status)
    (s : Option Session)
    → Outcome a peer d (d', st, s)
    → is_ok st ≡ false
    → Ended g_sess d
    → Ended g_sess d'
session_alloc-Ended a peer none d d' st s o h e = tt
session_alloc-Ended a peer (some g) d d' st (some s) (ok, _, _, _) h e =
    let no_ : true ≡ false = ap is_ok (sym ok) ∙ h in cc no_
session_alloc-Ended a peer (some g) d d' st none (_, inl same) h e = subst Closed (sym same) e
session_alloc-Ended a peer (some g) d d' st none (_, inr closed) h e = closed

start_call-Answered :
    (sa_decode : Bytes → Option Peer) (a : SessionAnswers) (text : Bytes) (peer : Option Peer)
    (g_sess : Option Session) (d : Devices)
    → sa_decode text ≡ peer
    → Answered sa_decode a text g_sess d (start_call a text peer (end_call g_sess d))
unfolding start_call
start_call-Answered sa_decode a text none g_sess d e =
    inr (refl, end_call-Ended g_sess d, inr (e, refl))
start_call-Answered sa_decode a text (some peer) g_sess d e =
    let d' = end_call g_sess d in
    let r = session_alloc a peer d' in
    let o = session_alloc-Outcome a peer d' in
    let exact : is_ok r.1 ≡ can_start a g_sess d =
      is_ok-session_alloc a peer d' ∙ ap (call_starts a) (camera-end_call g_sess d) in
    if_intro (Answered sa_decode a text g_sess d) (is_ok r.1)
      (λ good.
        let (new, opened) = session_alloc-started a peer d' r.0 r.1 r.2 o good in
        inl (peer, e, sym exact ∙ good, new, refl, opened))
      (λ bad.
        let ended =
          session_alloc-Ended a peer g_sess d' r.0 r.1 r.2 o bad (end_call-Ended g_sess d) in
        inr (refl, ended, inl (peer, e, sym exact ∙ bad, refl)))

-- A request for a call is answered in one of three ways. With 201, the call's port and the peer,
-- and the call is there with the camera open, exactly if the peer that the request names is an
-- address, the session can be allocated, the camera can be opened and the socket bound; the camera
-- counts as closed if there was a call, which ends first, and otherwise if nobody has it open. With
-- 400 if what it names is no address, and with 500 if the call cannot start; then there is no call,
-- and if there was one, it has ended and both devices are closed.
pub handle_call_create-Answered :
    (sa_decode : Bytes → Option Peer) (a : SessionAnswers) (body stale : Bytes)
    (g_sess : Option Session) (d : Devices)
    → Answered sa_decode a
        (peer_str body stale)
        g_sess
        d
        (handle_call_create sa_decode a body stale g_sess d)
unfolding handle_call_create
handle_call_create-Answered sa_decode a body stale g_sess d =
    let text = peer_str body stale in
    start_call-Answered sa_decode a text (sa_decode text) g_sess d refl
