-- ===== src/Http/Router.antt =====
-- `http_req_handler` of http_server.c, and the start and the end of the server.
pub mod Steps
pub mod Safe
use smart_lock_intercom.Base.{
  ℕ, Bool, true, false, ◌&&◌, ◌||◌, Option, some, none, List, [], ◌∷◌, Bytes, if◌then◌else◌,
}
use smart_lock_intercom.CString.{codes, str_eq, str_eq_nocase, str_ncpy}
use smart_lock_intercom.Status.{Status}
use smart_lock_intercom.Session.{Peer, Session, Devices, SessionAnswers}
use smart_lock_intercom.Stun.{Stun}
use smart_lock_intercom.RelayClient.{Relay}
use smart_lock_intercom.Http.{HttpReply, not_found, preflight}
use smart_lock_intercom.Http.Files.{OpenFile, get_static}
use smart_lock_intercom.Http.Doorbell.{Doorbell, handle_doorbell_trigger, handle_doorbell_status}
use smart_lock_intercom.Http.Calls.{handle_call_create, handle_call_delete, handle_status}
use smart_lock_intercom.Http.Nat.{handle_nat_info}

-- The server's statics: `g_sess`, `g_doorbell` and `g_www_path`, with the devices of the calls.
pub record Intercom : Type 0 where
  pub sess : Option Session
  pub bell : Doorbell
  pub www_path : Bytes
  pub devices : Devices

-- A request as the handler reads it, with the bytes behind its body in memory.
pub record HttpMsg : Type 0 where
  pub met : Bytes
  pub path : Bytes
  pub body : Bytes
  pub stale : Bytes

-- What the system and the other modules answer while a request is served.
pub record HttpEnv : Type 0 where
  pub sa_decode : Bytes → Option Peer
  pub session : SessionAnswers
  pub fopen : Bytes → Option OpenFile
  pub sent : Status
  pub now : ℕ
  pub stun : Stun
  pub relay : Relay

-- `pl_strcasecmp(&msg->met, met) == 0 && pl_strcmp(&msg->path, path) == 0`.
abbrev pub asks : HttpMsg → Bytes → Bytes → Bool
asks msg met path = str_eq_nocase msg.met met && str_eq msg.path path

abbrev with_call : Intercom → Option Session × Devices × HttpReply → Intercom × HttpReply
with_call i r = (record i { sess = r.0; devices = r.1 }, r.2)

abbrev with_bell : Intercom → Doorbell × HttpReply → Intercom × HttpReply
with_bell i r = (record i { bell = r.0 }, r.1)

-- The connection is closed after each reply.
unfoldable pub http_req_handler : HttpEnv → HttpMsg → Intercom → Intercom × HttpReply
http_req_handler env msg i =
    if str_eq_nocase msg.met (codes "OPTIONS")
    then (i, preflight)
    else if asks msg (codes "POST") (codes "/api/call")
    then with_call i
        (handle_call_create env.sa_decode env.session msg.body msg.stale i.sess i.devices)
    else if asks msg (codes "GET") (codes "/api/status")
    then (i, handle_status i.sess)
    else if asks msg (codes "DELETE") (codes "/api/call")
    then with_call i (handle_call_delete i.sess i.devices)
    else if asks msg (codes "POST") (codes "/api/doorbell")
    then with_bell i (handle_doorbell_trigger env.now i.bell)
    else if asks msg (codes "GET") (codes "/api/doorbell/status")
    then with_bell i (handle_doorbell_status i.bell)
    else if asks msg (codes "GET") (codes "/api/nat")
    then (i, handle_nat_info env.stun env.relay)
    else if str_eq_nocase msg.met (codes "GET")
    then (i, get_static i.www_path env.fopen env.sent msg.path)
    else (i, not_found)

-- `listens` is what `http_listen` returns.
unfoldable pub http_sig_init : Status → Bytes → Intercom → Intercom × Status
http_sig_init listens www_path i = (record i { www_path = str_ncpy 256 www_path }, listens)

unfoldable pub http_sig_set_session : Option Session → Intercom → Intercom
http_sig_set_session sess i = record i { sess = sess }
