-- ===== src/Http/Calls.antt =====
-- The calls of http_server.c: `handle_call_create`, `handle_call_delete` and `handle_status`. What
-- `sa_decode` makes of a text is an argument.
pub mod Peers
pub mod Answers
use smart_lock_intercom.Base.{
  ℕ, zero, suc, ◌+◌, ◌-◌, Bool, true, false, ◌||◌, Option, some, none, List, [], ◌∷◌, ◌++◌, Bytes,
  length, drop, ltb, ◌==◌, if◌then◌else◌,
}
use smart_lock_intercom.CString.{codes, c_str, strstr, strchr, str_ncpy}
use smart_lock_intercom.Status.{Status, is_ok}
use smart_lock_intercom.Session.{
  Peer, Session, Devices, SessionAnswers, session_alloc, session_close, session_destructor,
}
use smart_lock_intercom.Http.{HttpReply, ereply, accepted, invalid_peer, created, active, inactive}

abbrev pub peer_key : Bytes
peer_key = codes "\"peer\""

abbrev pub default_peer : Bytes
default_peer = codes "127.0.0.1:5006"

abbrev pub is_separator : ℕ → Bool
is_separator c = c == b' ' || (c == b':' || c == b'"')

-- The loop that moves `p` on, `left` bytes before the end of the body.
unfoldable pub skip_separators : ℕ → Bytes → Bytes
skip_separators zero p = p
skip_separators (suc left) [] = []
skip_separators (suc left) (c ∷ p) = if is_separator c then skip_separators left p else c ∷ p

abbrev fitting : Option (Bytes × Bytes) → Bytes
fitting none = []
fitting (some (addr, end)) = if ltb (length addr) 64 then addr else []

-- `p` is behind the key.
abbrev pub read_peer : ℕ → Bytes → Bytes
read_peer left p = fitting (strchr (skip_separators left p) b'"')

abbrev pub find_peer : Bytes → Bytes → Bytes
find_peer body text = elim (strstr text peer_key) [
  | none ↦ []
  | some (before, at) ↦
      read_peer (length body - (length before + length peer_key)) (drop (length peer_key) at)
]

abbrev pub or_default : Bytes → Bytes
or_default [] = default_peer
or_default (c ∷ s) = c ∷ s

-- `peer_str` for a body. The body has no NUL behind it: the searches read on in `stale`, which is
-- what follows it in memory.
unfoldable pub peer_str : Bytes → Bytes → Bytes
peer_str [] stale = default_peer
peer_str (c ∷ body) stale = or_default (find_peer (c ∷ body) (c_str ((c ∷ body) ++ stale)))

-- `session_close` and `mem_deref` of `g_sess`.
unfoldable pub end_call : Option Session → Devices → Devices
end_call none d = d
end_call (some s) d = session_destructor d

start_call : SessionAnswers → Bytes → Option Peer → Devices → Option Session × Devices × HttpReply
start_call a text none d = (none, d, invalid_peer)
start_call a text (some peer) d =
    let r = session_alloc a peer d in
    if is_ok r.1 then (r.2, r.0, created a.bound_port text) else (none, r.0, ereply 500)

-- The call that was there is ended first, whatever comes of the request.
unfoldable pub handle_call_create :
    (Bytes → Option Peer)
    → SessionAnswers
    → Bytes
    → Bytes
    → Option Session
    → Devices
    → Option Session × Devices × HttpReply
unfolding start_call
handle_call_create sa_decode a body stale g_sess d =
    let text = peer_str body stale in start_call a text (sa_decode text) (end_call g_sess d)

unfoldable pub handle_call_delete : Option Session → Devices → Option Session × Devices × HttpReply
handle_call_delete g_sess d = (none, end_call g_sess d, accepted)

unfoldable pub handle_status : Option Session → HttpReply
handle_status none = inactive
handle_status (some s) = if s.active then active s.local_port s.peer_addr.printed else inactive
