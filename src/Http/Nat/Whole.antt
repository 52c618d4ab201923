-- ===== src/Http/Nat/Whole.antt =====
-- The size of what `handle_nat_info` of http_server.c prints.
use smart_lock_intercom.Base.{
  ℕ, ◌+◌, ◌≤◌, ◌≡◌, ap, Bool, true, false, not, Option, some, none, Bytes, arith, length, if_intro,
}
use smart_lock_intercom.Libre.{concat}
use smart_lock_intercom.Libre.Whole.{total, length-concat, print_pieces-concat}
use smart_lock_intercom.Stun.{Stun, stun_get_public_addr}
use smart_lock_intercom.Stun.Steps.{Reachable, IsValid, Reachable-IsValid}
use smart_lock_intercom.RelayClient.{Relay, relay_client_get_server, relay_client_is_connected}
use smart_lock_intercom.Http.{nat_info}
use smart_lock_intercom.Http.Nat.{quote, or_null, nat_pieces, handle_nat_info}

abbrev AtMost : ℕ → Option Bytes → Type 0
AtMost n none = Unit
AtMost n (some s) = length s ≤ n

quoted-length :
    (n : ℕ) (s : Option Bytes)
    → 4 ≤ n
    → AtMost n s
    → length (quote s) + length (or_null s) + length (quote s) ≤ n + 2
quoted-length n none h k = omega arith
quoted-length n (some s) h k = omega arith

public_addr-AtMost : (s : Stun) → IsValid s → AtMost 63 (stun_get_public_addr s)
unfolding stun_get_public_addr
public_addr-AtMost s v = if_intro (AtMost 63) (not s.discovered) (λ _. tt) (λ _. v.fits)

server-AtMost : (r : Relay) → length r.relay_addr ≤ 255 → AtMost 255 (relay_client_get_server r)
server-AtMost r h = if_intro (AtMost 255) (not r.running) (λ _. tt) (λ _. h)

total-nat_pieces :
    (a b : Option Bytes) (ok : Bool) → AtMost 63 a → AtMost 255 b → total (nat_pieces a b ok) ≤ 511
total-nat_pieces a b true h k =
    omega (arith, quoted-length 63 a (omega arith) h, quoted-length 255 b (omega arith) k)
total-nat_pieces a b false h k =
    omega (arith, quoted-length 63 a (omega arith) h, quoted-length 255 b (omega arith) k)

-- In every state that the STUN client gets to, and with a relay's address that fits its array of
-- 256 bytes, the answer about the network is printed whole: no piece of it is lost at the end of
-- the 512 bytes, so it is the JSON text that the format describes.
pub handle_nat_info_whole :
    (stun : Stun) (relay : Relay)
    → Reachable stun
    → length relay.relay_addr ≤ 255
    → handle_nat_info stun relay
      ≡ nat_info (
          concat (
            nat_pieces
              (stun_get_public_addr stun)
              (relay_client_get_server relay)
              (relay_client_is_connected relay)))
unfolding handle_nat_info
handle_nat_info_whole stun relay reach h =
    let a = stun_get_public_addr stun in
    let b = relay_client_get_server relay in
    let ps = nat_pieces a b relay.registered in
    let small =
      total-nat_pieces a b relay.registered (public_addr-AtMost stun (Reachable-IsValid reach))
        (server-AtMost relay h) in
    ap nat_info (print_pieces-concat 511 ps (omega (arith, length-concat ps)))
