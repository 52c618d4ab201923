-- ===== src/Program/Life.antt =====
-- The program of main.c when its event loop starts, and when it has ended.
use smart_lock_intercom.Base.{
  ℕ, ◌≡◌, refl, ap, ◌∙◌, Bool, true, false, ◌&&◌, not, Option, some, none, List, [], ◌∷◌, Bytes,
  if_intro, ==_iff,
}
use smart_lock_intercom.Status.{is_ok}
use smart_lock_intercom.Auth.{AuthState, rtsp_auth_init}
use smart_lock_intercom.Rtsp.State.{RtspClient, World, unlink}
use smart_lock_intercom.Rtsp.Media.{client_destructor}
use smart_lock_intercom.Rtsp.Server.{rtsp_server_init, rtsp_server_close, flush}
use smart_lock_intercom.Stun.{stun_close}
use smart_lock_intercom.RelayClient.{relay_client_stop}
use smart_lock_intercom.Program.{
  Options, default_options, parse_args, Program, Startup, init_auth, discover, connect_relay,
  start_services, cleanup, serves_http, serves_rtsp, Started, running, exits, started_rtsp, start,
}

abbrev has_text : Bytes → Bool
has_text [] = false
has_text (c ∷ s) = true

-- Both a user and a password are given, and neither is empty.
abbrev pub protects : Option Bytes → Option Bytes → Bool
protects (some user) (some pass) = has_text user && has_text pass
protects _ _ = false

enabled-rtsp_auth_init :
    (rand : ℕ → ℕ) (user pass : Bytes) (a : AuthState)
    → (rtsp_auth_init rand (some user) (some pass) a).enabled ≡ (has_text user && has_text pass)
unfolding rtsp_auth_init
enabled-rtsp_auth_init rand [] pass a = refl
enabled-rtsp_auth_init rand (c ∷ user) [] a = refl
enabled-rtsp_auth_init rand (c ∷ user) (d ∷ pass) a = refl

enabled-init_auth :
    (env : Startup) (user pass : Option Bytes) (p : Program)
    → p.world.auth.enabled ≡ false
    → (init_auth env user pass p).world.auth.enabled ≡ protects user pass
unfolding init_auth
enabled-init_auth env (some user) (some pass) p h =
    enabled-rtsp_auth_init env.rand user pass p.world.auth
enabled-init_auth env (some user) none p h = h
enabled-init_auth env none pass p h = h

world-discover :
    (env : Startup) (server : Option Bytes) (p : Program) → (discover env server p).world ≡ p.world
unfolding discover
world-discover env none p = refl
world-discover env (some server) p = refl

world-connect_relay :
    (env : Startup) (o : Options) (host id : Option Bytes) (p : Program)
    → (connect_relay env o host id p).world ≡ p.world
unfolding connect_relay
world-connect_relay env o (some host) (some id) p = refl
world-connect_relay env o (some host) none p = refl
world-connect_relay env o none id p = refl

auth-rtsp_server_init :
    (listens : Option ℕ) (source : Option Bytes) (w : World)
    → (rtsp_server_init listens source w).0.auth ≡ w.auth
unfolding rtsp_server_init
auth-rtsp_server_init none source w = refl
auth-rtsp_server_init (some port) source w = refl

abbrev enabled : World → Bool
enabled w = w.auth.enabled

enabled-start_services :
    (env : Startup) (o : Options) (p : Program)
    → enabled p.world ≡ false
    → enabled (start_services env o p).world ≡ protects o.auth_user o.auth_pass
unfolding start_services
enabled-start_services env o p h =
    let q = init_auth env o.auth_user o.auth_pass p in
    let known = discover env o.stun_server q in
    ap enabled (world-connect_relay env o o.relay_host o.device_id known)
    ∙ ap enabled (world-discover env o.stun_server q)
    ∙ enabled-init_auth env o.auth_user o.auth_pass p h

abbrev Protected : Options → Started → Type 0
Protected o (running q) = enabled q.world ≡ protects o.auth_user o.auth_pass
Protected o (exits q e) = Unit

started_rtsp-Protected :
    (env : Startup) (o : Options) (p : Program) (b : Bool)
    → enabled (serves_rtsp env p).world ≡ false
    → Protected o (started_rtsp env o p b)
unfolding started_rtsp
started_rtsp-Protected env o p true h = enabled-start_services env o (serves_rtsp env p) h
started_rtsp-Protected env o p false h = tt

start-Protected :
    (env : Startup) (argv : List Bytes) (p : Program)
    → enabled p.world ≡ false
    → Protected (parse_args argv default_options) (start env argv p)
unfolding start
start-Protected env argv p h =
    let o = parse_args argv default_options in
    let q = serves_http env p in
    let P = Protected o in
    if_intro P (not (is_ok env.libre)) (λ _. tt)
      (λ _.
        if_intro P (not (is_ok env.http)) (λ _. tt)
          (λ _. started_rtsp-Protected env o q (rtsp_server_init env.rtsp env.source q.world).1 (
            ap (λ (a : AuthState). a.enabled) (auth-rtsp_server_init env.rtsp env.source q.world)
            ∙ h)))

-- When the event loop starts, RTSP clients have to authenticate if and only if the arguments give
-- both a user and a password and neither is empty. The authentication is off before.
pub start-protects :
    (env : Startup) (argv : List Bytes) (p : Program) {q : Program}
    → p.world.auth.enabled ≡ false
    → start env argv p ≡ running q
    → let o = parse_args argv default_options in
      q.world.auth.enabled ≡ protects o.auth_user o.auth_pass
start-protects env argv p h e = rw e at (start-Protected env argv p h)

unlink-head : (c : RtspClient) (cs : List RtspClient) → unlink c.id (c ∷ cs) ≡ cs
unfolding unlink
unlink-head c cs = rw ((==_iff c.id c.id).1 refl) refl

clients-flush : (cs : List RtspClient) (w : World) → w.clients ≡ cs → (flush cs w).clients ≡ []
unfolding flush client_destructor
clients-flush [] w h = h
clients-flush (c ∷ cs) w h =
    clients-flush cs (client_destructor c w) (ap (unlink c.id) h ∙ unlink-head c cs)

timers-flush :
    (cs : List RtspClient) (w : World)
    → ((flush cs w).tmr_audio ≡ w.tmr_audio) × ((flush cs w).tmr_video ≡ w.tmr_video)
unfolding flush client_destructor
timers-flush [] w = (refl, refl)
timers-flush (c ∷ cs) w = timers-flush cs (client_destructor c w)

-- When the program has ended, no RTSP client is left and no media timer runs, the relay client has
-- neither a connection nor a timer, and no STUN request, instance or socket is held. But a call of
-- the HTTP server is left as it was, with its timers.
pub cleanup_lem :
    (p : Program)
    → let q = cleanup p in
      (q.world.clients ≡ [])
      × (q.world.tmr_audio ≡ false)
      × (q.world.tmr_video ≡ false)
      × (q.relay.tc ≡ none)
      × (q.relay.tmr_reconnect ≡ none)
      × (q.stun.ct ≡ false)
      × (q.stun.stun ≡ false)
      × (q.stun.us ≡ false)
      × (q.intercom.sess ≡ p.intercom.sess)
unfolding cleanup rtsp_server_close relay_client_stop stun_close
cleanup_lem p =
    let stopped = record p.world { tmr_audio = false; tmr_video = false } in
    let timers = timers-flush p.world.clients stopped in
    (
      clients-flush p.world.clients stopped refl,
      timers.0,
      timers.1,
      refl,
      refl,
      refl,
      refl,
      refl,
      refl,
    )
