-- ===== src/Program.antt =====
-- intercom_test/src/main.c: the arguments, the path of the pages, and the start and the end of the
-- program, with the state of all its modules.
pub mod Arguments
pub mod WwwPath
pub mod Life
use smart_lock_intercom.Base.{
  ℕ, ◌-◌, Bool, true, false, ◌&&◌, not, Option, some, none, List, [], ◌∷◌, Bytes, length, take,
  if◌then◌else◌,
}
use smart_lock_intercom.Base.Int.{ℤ, to_word}
use smart_lock_intercom.CString.{codes, c_str, str_eq, strrchr, atoi}
use smart_lock_intercom.Libre.{snprintf}
use smart_lock_intercom.Status.{Status, success, is_ok}
use smart_lock_intercom.Auth.{rtsp_auth_init}
use smart_lock_intercom.Rtsp.State.{World}
use smart_lock_intercom.Rtsp.Server.{rtsp_server_init, rtsp_server_close}
use smart_lock_intercom.Stun.{Stun, StunAnswers, stun_discover, stun_close}
use smart_lock_intercom.RelayClient.{Relay, relay_client_start, relay_client_stop}
use smart_lock_intercom.Http.Router.{Intercom, http_sig_init}

-- What the arguments set. A `char *` that may be NULL is an `Option`.
pub record Options : Type 0 where
  pub auth_user : Option Bytes
  pub auth_pass : Option Bytes
  pub relay_host : Option Bytes
  pub relay_port : ℕ
  pub device_id : Option Bytes
  pub relay_token : Bytes
  pub stun_server : Option Bytes

abbrev pub default_options : Options
default_options = record {
  auth_user = none;
  auth_pass = none;
  relay_host = none;
  relay_port = 443;
  device_id = none;
  relay_token = codes "smartlock2026";
  stun_server = none;
}

-- An argument that has its value behind it.
unfoldable pub set_option : Bytes → Bytes → Options → Option Options
unfolding str_eq atoi
set_option flag value o =
    if str_eq flag (codes "--user")
    then some (record o { auth_user = some value })
    else if str_eq flag (codes "--pass")
    then some (record o { auth_pass = some value })
    else if str_eq flag (codes "--relay")
    then some (record o { relay_host = some value })
    else if str_eq flag (codes "--relay-port")
    then some (record o { relay_port = to_word 16 (atoi value) })
    else if str_eq flag (codes "--device-id")
    then some (record o { device_id = some value })
    else if str_eq flag (codes "--relay-token")
    then some (record o { relay_token = value })
    else if str_eq flag (codes "--stun")
    then some (record o { stun_server = some value })
    else none

-- The loop over `argv` from `argv[1]` on.
unfoldable pub parse_args : List Bytes → Options → Options
parse_args [] o = o
parse_args (flag ∷ []) o = o
parse_args (flag ∷ value ∷ rest) o = elim (set_option flag value o) [
  | some o' ↦ parse_args rest o'
  | none ↦ parse_args (value ∷ rest) o
]

-- The path up to the last separator: a backslash, or a slash if there is none.
abbrev before_at : Bytes → Option Bytes → Bytes
before_at path none = path
before_at path (some at) = take (length path - length at) path

last_separator : Bytes → Option Bytes → Option Bytes
last_separator path none = strrchr path b'/'
last_separator path (some at) = some at

unfoldable pub parent_dir : Bytes → Bytes
unfolding last_separator
parent_dir path = before_at path (last_separator path (strrchr path b'\\'))

-- `readlink` gives the path of the program, of 511 bytes at most, or
-- fails.
unfoldable pub resolve_www_path : Option Bytes → ℕ → Bytes
resolve_www_path readlink sz =
    let exepath : Bytes = elim readlink [ none ↦ codes "." | some path ↦ c_str (take 511 path) ] in
    snprintf sz (parent_dir (parent_dir exepath) ∷ codes "/www" ∷ [])

-- The state of the program's modules.
pub record Program : Type 0 where
  pub intercom : Intercom
  pub world : World
  pub stun : Stun
  pub relay : Relay

-- What the system answers while the program starts.
pub record Startup : Type 0 where
  pub libre : Status
  pub readlink : Option Bytes
  pub http : Status
  -- The port that `tcp_listen` binds for RTSP, our address, and the error if there is no port.
  pub rtsp : Option ℕ
  pub source : Option Bytes
  pub rtsp_error : Status
  pub rand : ℕ → ℕ
  pub stun : StunAnswers
  pub resolves : Bool
  pub connects : Option ℕ

pub init_auth : Startup → Option Bytes → Option Bytes → Program → Program
init_auth env (some user) (some pass) p = record p {
  world = record p.world { auth = rtsp_auth_init env.rand (some user) (some pass) p.world.auth };
}
init_auth env _ _ p = p

-- Errors of the discovery are only logged.
pub discover : Startup → Option Bytes → Program → Program
discover env none p = p
discover env (some server) p = record p { stun = (stun_discover env.stun false p.stun).0 }

pub connect_relay : Startup → Options → Option Bytes → Option Bytes → Program → Program
connect_relay env o (some host) (some id) p = record p {
  relay = relay_client_start env.resolves env.connects host o.relay_port id o.relay_token p.relay;
}
connect_relay env o _ _ p = p

unfoldable pub start_services : Startup → Options → Program → Program
unfolding init_auth discover connect_relay
start_services env o p =
    let known = discover env o.stun_server (init_auth env o.auth_user o.auth_pass p) in
    connect_relay env o o.relay_host o.device_id known

-- The part behind `out`. `g_session` of main.c is never set; the HTTP server has its own.
unfoldable pub cleanup : Program → Program
cleanup p = record p {
  relay = relay_client_stop p.relay;
  stun = stun_close p.stun;
  world = rtsp_server_close p.world;
}

abbrev pub serves_http : Startup → Program → Program
serves_http env p = record p {
  intercom = (http_sig_init env.http (resolve_www_path env.readlink 512) p.intercom).0;
}

abbrev pub serves_rtsp : Startup → Program → Program
serves_rtsp env p = record p { world = (rtsp_server_init env.rtsp env.source p.world).0 }

-- `main` up to `re_main`: the program that its event loop runs, or the one that is left and the
-- exit code.
pub data Started : Type 0 where
  running : Program → Started
  exits : Program → Status → Started

pub started_rtsp : Startup → Options → Program → Bool → Started
started_rtsp env o p true = running (start_services env o (serves_rtsp env p))
started_rtsp env o p false = exits (cleanup (serves_rtsp env p)) env.rtsp_error

unfoldable pub start : Startup → List Bytes → Program → Started
unfolding started_rtsp
start env argv p =
    let o = parse_args argv default_options in
    let q = serves_http env p in
    if not (is_ok env.libre)
    then exits p env.libre
    else if not (is_ok env.http)
    then exits (cleanup q) env.http
    else started_rtsp env o q (rtsp_server_init env.rtsp env.source q.world).1

-- The end of `main` when the event loop has ended.
abbrev pub finish : Program → Program
finish p = cleanup p
