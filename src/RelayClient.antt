-- ===== src/RelayClient.antt =====
-- intercom_test/src/relay_client.c: the lock's connection to the relay.
pub mod Liveness
pub mod Lines
pub mod Steps
pub mod Greeting
use smart_lock_intercom.Base.{
  ℕ, zero, suc, ◌+◌, ◌*◌, ◌%◌, ◌^◌, Bool, true, false, ◌&&◌, not, Option, some, none, List, [], ◌∷◌,
  ◌++◌, Bytes, ltb, ◌==◌, if◌then◌else◌, length, take, drop, min,
}
use smart_lock_intercom.CString.{codes, c_str, strchr, str_eq, str_ncpy}
use smart_lock_intercom.Libre.{snprintf, decimal}

-- `g_relay`. A connection is a number, and the timer is the delay that it was started with.
pub record Relay : Type 0 where
  pub tc : Option ℕ
  pub tmr_reconnect : Option ℕ
  pub rbuf : Option Bytes
  pub relay_host : Bytes
  pub relay_port : ℕ
  pub device_id : Bytes
  pub auth_token : Bytes
  pub relay_addr : Bytes
  pub registered : Bool
  pub running : Bool
  pub bridging : Bool
  pub backoff_count : ℕ

-- What the client does outside of its state: the text that it sends, and the connection that it
-- hands to the RTSP server.
pub data Action : Type 0 where
  sends : Bytes → Action
  bridges : Option ℕ → Action

-- A shift by at most 6 does not overflow.
unfoldable pub backoff_delay : ℕ → ℕ
backoff_delay count = min (5000 * 2 ^ min count 6) 300000

unfoldable pub schedule_reconnect : Relay → Relay
schedule_reconnect r = if not r.running then r else record r {
  tmr_reconnect = some (backoff_delay r.backoff_count);
  backoff_count = (r.backoff_count + 1) % 2 ^ 32;
}

abbrev pub disconnected : Relay → Relay
disconnected r = record r { tc = none; rbuf = none; registered = false }

unfoldable pub relay_close_handler : Relay → Relay
unfolding schedule_reconnect
relay_close_handler r =
    if r.running && not r.bridging then schedule_reconnect (disconnected r) else disconnected r

-- BRIDGE: the connection goes to the RTSP server, and a new one is made for the next client. The
-- bytes behind the line are dropped with the buffer.
abbrev pub start_bridge : Relay → Relay
start_bridge r = record r {
  tc = none;
  rbuf = none;
  registered = false;
  bridging = false;
  backoff_count = 0;
  tmr_reconnect = if r.running then some 5000 else r.tmr_reconnect;
}

abbrev drop_cr : Bytes → Bytes
drop_cr [] = []
drop_cr (c ∷ []) = if c == 13 then [] else c ∷ []
drop_cr (c ∷ d ∷ s) = c ∷ drop_cr (d ∷ s)

-- `line[MAX_LINE]` as the comparisons read it.
abbrev pub line_of : Bytes → Bytes
line_of s = c_str (str_ncpy 256 (drop_cr s))

abbrev pub note_ok : Bytes → Relay → Relay
note_ok line r =
    if str_eq line (codes "OK") && not r.registered then record r { registered = true } else r

-- The loop over the lines of the buffer. Fuel: each line has its line feed.
unfoldable pub process_lines : ℕ → Bytes → Relay → Relay × List Action
process_lines zero buf r = (record r { rbuf = some buf }, [])
process_lines (suc fuel) buf r = elim (strchr buf 10) [
  | none ↦ (record r { rbuf = some buf }, [])
  | some (text, nl) ↦
      let line = line_of text in
      if str_eq line (codes "BRIDGE")
      then (start_bridge r, bridges r.tc ∷ [])
      else process_lines fuel (drop 1 nl) (note_ok line r)
]

abbrev pub with_buffer : Bytes → Bytes → Relay → Relay × List Action
with_buffer buf received r =
    if ltb 8192 (length buf + length received)
    then (relay_close_handler (record r { rbuf = some buf }), [])
    else process_lines (length buf + length received) (buf ++ received)
        (record r { rbuf = some buf })

-- `allocs` is the `mbuf_alloc` of a missing buffer.
unfoldable pub relay_recv_handler : Bool → Bytes → Relay → Relay × List Action
relay_recv_handler allocs received r = elim r.rbuf [
  | none ↦ if allocs then with_buffer [] received r else (r, [])
  | some buf ↦ with_buffer buf received r
]

unfoldable pub reg_msg : Relay → Bytes
reg_msg r =
    snprintf 256 (codes "REGISTER " ∷ r.device_id ∷ codes " " ∷ r.auth_token ∷ codes "\r\n" ∷ [])

unfoldable pub relay_estab_handler : Bool → Relay → Relay × List Action
relay_estab_handler allocs r =
    (record r { backoff_count = 0 }, if allocs then sends (reg_msg r) ∷ [] else [])

-- `resolves` is `getaddrinfo`, and `connects` the connection that `tcp_connect` makes.
unfoldable pub relay_do_connect : Bool → Option ℕ → Relay → Relay
relay_do_connect resolves connects r =
    if not resolves
    then schedule_reconnect r
    else elim connects [ none ↦ schedule_reconnect r | some tc ↦ record r { tc = some tc } ]

-- The timer has run out.
unfoldable pub relay_reconnect : Bool → Option ℕ → Relay → Relay
relay_reconnect resolves connects r =
    let fired = record r { tmr_reconnect = none } in
    if not r.running then fired else relay_do_connect resolves connects (disconnected fired)

-- With all three texts given.
-- "%s:%u" in 256 bytes.
unfoldable pub relay_addr_of : Bytes → ℕ → Bytes
relay_addr_of relay_host port = snprintf 256 (relay_host ∷ codes ":" ∷ decimal port ∷ [])

abbrev port_or_default : ℕ → ℕ
port_or_default relay_port = if relay_port == 0 then 443 else relay_port

unfoldable pub relay_client_start : Bool → Option ℕ → Bytes → ℕ → Bytes → Bytes → Relay → Relay
relay_client_start resolves connects relay_host relay_port device_id auth_token r =
    relay_do_connect resolves connects (record r {
      relay_host = str_ncpy 128 relay_host;
      relay_port = port_or_default relay_port;
      device_id = str_ncpy 64 device_id;
      auth_token = str_ncpy 64 auth_token;
      relay_addr = relay_addr_of relay_host (port_or_default relay_port);
      running = true;
      bridging = false;
      tmr_reconnect = none;
    })

unfoldable pub relay_client_stop : Relay → Relay
relay_client_stop r = record r {
  running = false;
  tmr_reconnect = none;
  tc = none;
  rbuf = none;
  registered = false;
}

abbrev pub relay_client_is_connected : Relay → Bool
relay_client_is_connected r = r.registered

abbrev pub relay_client_get_server : Relay → Option Bytes
relay_client_get_server r = if not r.running then none else some r.relay_addr
