-- ===== src/RelayServer/Connection.antt =====
-- `handle_connection` of relay_server.c, up to where it waits for the device or bridges.
pub mod Meeting
use smart_lock_intercom.Base.{ℕ, Option, none, some, List, Bytes, get_elem?}
use smart_lock_intercom.CString.{codes}
use smart_lock_intercom.RelayServer.Command.{Command, registers, connects, fails}
use smart_lock_intercom.RelayServer.Registry.{Slot, register_device, take_device}

-- What becomes of the connection. A `closed` one gets the text first; a `registered` one gets OK
-- and waits in its slot; a `bridged` one gets OK, and the device's socket gets BRIDGE.
pub data Opened : Type 0 where
  closed : Bytes → Opened
  registered : ℕ → Opened
  bridged : ℕ → ℕ → Opened

abbrev pub sock_of : Option Slot → ℕ
sock_of none = 0
sock_of (some s) = s.sock

abbrev registered_or_full : Option ℕ → Opened
registered_or_full none = closed (codes "ERROR server_full\r\n")
registered_or_full (some slot) = registered slot

abbrev bridged_or_missing : List Slot → Option ℕ → Opened
bridged_or_missing slots none = closed (codes "ERROR device_not_found\r\n")
bridged_or_missing slots (some idx) = bridged idx (sock_of (get_elem? slots idx))

unfoldable pub open_connection : Command → ℕ → List Slot → List Slot × Opened
open_connection (registers id) sock slots =
    let r = register_device id sock slots in (r.0, registered_or_full r.1)
open_connection (connects id) sock slots =
    let r = take_device id slots in (r.0, bridged_or_missing slots r.1)
open_connection (fails text) sock slots = (slots, closed text)
