-- ===== src/Http/Nat.antt =====
-- `handle_nat_info` of http_server.c: what stun_client.c and relay_client.c know of the network.
pub mod Whole
use smart_lock_intercom.Base.{
  Bool, true, false, Option, some, none, List, [], ◌∷◌, Bytes, if◌then◌else◌,
}
use smart_lock_intercom.CString.{codes}
use smart_lock_intercom.Libre.{snprintf}
use smart_lock_intercom.Stun.{Stun, stun_get_public_addr}
use smart_lock_intercom.RelayClient.{Relay, relay_client_get_server, relay_client_is_connected}
use smart_lock_intercom.Http.{HttpReply, nat_info}

abbrev pub quote : Option Bytes → Bytes
quote none = []
quote (some s) = codes "\""

abbrev pub or_null : Option Bytes → Bytes
or_null none = codes "null"
or_null (some s) = s

-- The pieces of the format in order: its text between the conversions and what these print.
abbrev pub nat_pieces : Option Bytes → Option Bytes → Bool → List Bytes
nat_pieces public_addr relay_srv relay_ok =
    codes "{\"public_addr\":"
    ∷ quote public_addr
    ∷ or_null public_addr
    ∷ quote public_addr
    ∷ codes ",\"relay_server\":"
    ∷ quote relay_srv
    ∷ or_null relay_srv
    ∷ quote relay_srv
    ∷ codes ",\"relay_connected\":"
    ∷ (if relay_ok then codes "true" else codes "false")
    ∷ codes "}"
    ∷ []

unfoldable pub handle_nat_info : Stun → Relay → HttpReply
handle_nat_info stun relay = nat_info (
    snprintf 512 (
      nat_pieces (stun_get_public_addr stun) (relay_client_get_server relay)
        (relay_client_is_connected relay)))
