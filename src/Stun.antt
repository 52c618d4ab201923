-- ===== src/Stun.antt =====
-- intercom_test/src/stun_client.c: asking a STUN server for the lock's public address. libre's STUN
-- client, the sockets and the resolver are the system's: what they answer is an argument.
pub mod Steps
pub mod Discovery
use smart_lock_intercom.Base.{
  ℕ, Bool, true, false, not, Option, some, none, List, [], ◌∷◌, Bytes, ◌==◌, if◌then◌else◌,
}
use smart_lock_intercom.Libre.{snprintf}
use smart_lock_intercom.Status.{Status, success, enoent, is_ok}

-- `g_stun`. A pointer is whether it is set; `cb` is whether there is a callback.
pub record Stun : Type 0 where
  pub stun : Bool
  pub ct : Bool
  pub us : Bool
  pub public_addr : Bytes
  pub discovered : Bool
  pub cb : Bool

-- What the callback is called with: an address or NULL.
pub data Called : Type 0 where
  not_called : Called
  called : Option Bytes → Called

-- A response as the handler reads it: the error, the status code, and the pieces that `%J` prints
-- of XOR-MAPPED-ADDRESS and of MAPPED-ADDRESS.
pub record StunResponse : Type 0 where
  pub err : Status
  pub scode : ℕ
  pub xor_mapped : Option (List Bytes)
  pub mapped : Option (List Bytes)

abbrev call_back : Stun → Option Bytes → Called
call_back s result = if s.cb then called result else not_called

pub first_of : Option (List Bytes) → Option (List Bytes) → Option (List Bytes)
first_of none b = b
first_of (some sa) b = some sa

abbrev pub mapped_attr : StunResponse → Option (List Bytes)
mapped_attr m = first_of m.xor_mapped m.mapped

note_address : Option (List Bytes) → Stun → Stun × Called
note_address none s = (s, call_back s none)
note_address (some sa) s =
    let addr = snprintf 64 sa in
    (record s { public_addr = addr; discovered = true }, call_back s (some addr))

unfoldable pub stun_resp_handler : StunResponse → Stun → Stun × Called
unfolding note_address
stun_resp_handler m s =
    let over = record s { ct = false } in
    if not (is_ok m.err)
    then (over, call_back s none)
    else if not (m.scode == 0)
    then (over, call_back s none)
    else note_address (mapped_attr m) over

-- What `stun_discover` is told: whether the server's name is an address (`sa_set_str`), whether
-- `getaddrinfo` finds it, and what `udp_listen`, `stun_alloc` and `stun_request` return.
pub record StunAnswers : Type 0 where
  pub numeric : Bool
  pub resolves : Bool
  pub listen : Status
  pub alloc : Status
  pub request : Status

-- The part behind the resolution. A call that fails leaves its own pointer as it was.
send_request : StunAnswers → Stun → Stun × Status
send_request a s =
    if not (is_ok a.listen)
    then (s, a.listen)
    else if not (is_ok a.alloc)
    then (record s { us = false }, a.alloc)
    else if not (is_ok a.request)
    then (record s { us = false; stun = false }, a.request)
    else (record s { us = true; stun = true; ct = true }, success)

unfoldable pub stun_discover : StunAnswers → Bool → Stun → Stun × Status
unfolding send_request
stun_discover a cb s =
    let cleared = record s { cb = cb; discovered = false; public_addr = [] } in
    if a.numeric
    then send_request a cleared
    else if not a.resolves
    then (cleared, enoent)
    else send_request a cleared

unfoldable pub stun_get_public_addr : Stun → Option Bytes
stun_get_public_addr s = if not s.discovered then none else some s.public_addr

unfoldable pub stun_close : Stun → Stun
stun_close s = record s { ct = false; us = false; stun = false; discovered = false }
