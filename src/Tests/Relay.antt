-- ===== src/Tests/Relay.antt =====
-- Runs of the relay server and of its client in the lock.
use smart_lock_intercom.Base.{
  ◌+◌, ◌≤◌, ◌≡◌, ◌↔◌, refl, Bool, true, false, some, none, List, [], ◌∷◌, ◌++◌, Bytes, arith,
  replicate,
}
use smart_lock_intercom.CString.{codes}
use smart_lock_intercom.RelayServer.Command.{
  registers, connects, max_line, readline, parse_command, valid_id,
}
use smart_lock_intercom.RelayServer.Command.Access.{register_line, parse_command_registers}
use smart_lock_intercom.RelayServer.Registry.{
  Slot, matches, find_device, alloc_device_slot, register_device, remove_device,
}
use smart_lock_intercom.RelayServer.Registry.Counting.{count}
use smart_lock_intercom.RelayServer.Registry.Discovery.{IsUnique, NoStale}
use smart_lock_intercom.RelayServer.Registry.Steps
use smart_lock_intercom.RelayServer.Registry.Stale.{register_device-hidden}
use smart_lock_intercom.RelayServer.Connection.{bridged, open_connection}
use smart_lock_intercom.RelayServer.Connection.Meeting.{open_connection-meets}
use smart_lock_intercom.RelayServer.Bridge.{bridge_one_dir}
use smart_lock_intercom.RelayServer.Bridge.Forwarding.{
  concat, bridge_one_dir-prefix, bridge_one_dir-whole,
}
use smart_lock_intercom.RelayClient.{
  relay_recv_handler, Relay, relay_close_handler, relay_client_start, reg_msg,
}
use smart_lock_intercom.RelayClient.Liveness.{IsAlive}
use smart_lock_intercom.RelayClient.Steps as Client
use smart_lock_intercom.RelayClient.Steps.{Reachable, zeroed, Reachable-IsAlive}
use smart_lock_intercom.RelayClient.Lines.{NoLine, relay_recv_handler-NoLine}
use smart_lock_intercom.RelayClient.Greeting.{reg_msg-registers}

parse_command_registers_example :
    (parse_command (codes "REGISTER a smartlock2026") ≡ registers (codes "a")) ↔ (
      (codes "REGISTER a smartlock2026" ≡ register_line (codes "a"))
      × (valid_id (codes "a") ≡ true))
parse_command_registers_example =
    parse_command_registers (codes "REGISTER a smartlock2026") (codes "a")

-- Two slots: one taken, one free.
abbrev taken : Slot
taken = record { in_use = true; bridging = false; device_id = codes "b"; sock = 4 }

abbrev empty : Slot
empty = record { in_use = false; bridging = false; device_id = []; sock = 0 }

abbrev table : List Slot
table = taken ∷ empty ∷ []

one-le : (b : Bool) → smart_lock_intercom.RelayServer.Registry.Counting.one b + 0 ≤ 1
one-le true = omega arith
one-le false = omega arith

table-IsUnique : IsUnique table
table-IsUnique id = one-le (matches id taken)

table-NoStale : NoStale table
table-NoStale = ((λ e. cc e), ((λ e. refl), tt))

given : (register_device (codes "a") 5 table).1 ≡ some 1
unfolding register_device smart_lock_intercom.RelayServer.Registry.drop_existing find_device
    alloc_device_slot smart_lock_intercom.CString.str_eq
given = refl

open_connection-meets_example :
    (open_connection (connects (codes "a")) 9 (open_connection (registers (codes "a")) 5 table).0).1
    ≡ bridged 1 5
open_connection-meets_example =
    open_connection-meets (codes "a") 5 9 table 1 (omega arith) table-IsUnique table-NoStale given

-- Two devices register with the same id.
abbrev first_table : List Slot
first_table = (register_device (codes "a") 5 (replicate Steps.max_devices Steps.zeroed)).0

Reachable-IsUnique_example : IsUnique (register_device (codes "a") 6 first_table).0
Reachable-IsUnique_example = Steps.Reachable-IsUnique (
    Steps.Reachable.steps
      (Steps.Reachable.steps Steps.Reachable.starts (Steps.registers (codes "a") 5 (omega arith)))
      (Steps.registers (codes "a") 6 (omega arith)))

-- The device of the first slot left while it was bridged.
abbrev stale : Slot
stale = record { in_use = false; bridging = true; device_id = codes "b"; sock = 4 }

stale_first : alloc_device_slot (stale ∷ []) ≡ some 0
unfolding alloc_device_slot
stale_first = refl

register_device-hidden_example :
    find_device (codes "a") (register_device (codes "a") 5 (stale ∷ [])).0 ≡ none
register_device-hidden_example =
    register_device-hidden (codes "a") 5 (stale ∷ []) 0 stale refl stale_first refl refl

bridge_one_dir-prefix_example :
    (lost : Bytes) × (bridge_one_dir (λ k. 2) ((1 ∷ 2 ∷ 3 ∷ []) ∷ []) ++ lost
      ≡ concat ((1 ∷ 2 ∷ 3 ∷ []) ∷ []))
bridge_one_dir-prefix_example = bridge_one_dir-prefix (λ k. 2) ((1 ∷ 2 ∷ 3 ∷ []) ∷ [])

bridge_one_dir-whole_example :
    bridge_one_dir (λ k. 2) ((1 ∷ 2 ∷ 3 ∷ []) ∷ []) ≡ concat ((1 ∷ 2 ∷ 3 ∷ []) ∷ [])
bridge_one_dir-whole_example =
    bridge_one_dir-whole (λ k. 2) ((1 ∷ 2 ∷ 3 ∷ []) ∷ []) (λ k. omega arith) (omega arith, tt)

-- A client that has connected and then lost its connection.
reached : Reachable (relay_close_handler (relay_client_start true (some 3) [] 0 [] [] zeroed))
unfolding relay_client_start smart_lock_intercom.RelayClient.relay_do_connect
reached =
    Reachable.steps (Reachable.steps Reachable.begins (Client.starts true (some 3) [] 0 [] []))
      (Client.closes refl)

Reachable-IsAlive_example :
    IsAlive (relay_close_handler (relay_client_start true (some 3) [] 0 [] [] zeroed))
Reachable-IsAlive_example = Reachable-IsAlive reached

abbrev lock : Relay
lock = record zeroed { device_id = codes "a-1"; auth_token = codes "smartlock2026" }

lock_valid : valid_id lock.device_id ≡ true
unfolding valid_id
lock_valid = refl

reg_msg-registers_example :
    (readline max_line (reg_msg lock ++ (7 ∷ [])) ≡ some (register_line (codes "a-1"), 7 ∷ []))
    × (parse_command (register_line (codes "a-1")) ≡ registers (codes "a-1"))
reg_msg-registers_example = reg_msg-registers lock (7 ∷ []) (omega arith) lock_valid refl

relay_recv_handler-NoLine_example :
    NoLine (relay_recv_handler true (codes "OK" ++ (13 ∷ 10 ∷ 7 ∷ [])) lock).0.rbuf
relay_recv_handler-NoLine_example =
    relay_recv_handler-NoLine true (codes "OK" ++ (13 ∷ 10 ∷ 7 ∷ [])) lock
