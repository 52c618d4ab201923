-- ===== src/RelayServer/Connection/Meeting.antt =====
-- A client of relay_server.c and the device that it names.
use smart_lock_intercom.Base.{
  ℕ, ◌≤◌, ◌≡◌, refl, sym, ap, ◌∙◌, inl, inr, some, List, [], ◌∷◌, Bytes, length, get_elem?,
  Bool-cases, Option-cases,
}
use smart_lock_intercom.RelayServer.Command.{registers, connects}
use smart_lock_intercom.RelayServer.Registry.{
  Slot, find_device, alloc_device_slot, at_slot, occupy, drop_existing, register_device,
  take_device,
}
use smart_lock_intercom.RelayServer.Registry.Counting.{later-inv}
use smart_lock_intercom.RelayServer.Registry.Discovery.{
  IsUnique, NoStale, some-inv, register_device-found,
}
use smart_lock_intercom.RelayServer.Connection.{bridged, sock_of, open_connection}

occupied-sock :
    (id : Bytes) (sock : ℕ) (slots : List Slot) {i : ℕ}
    → alloc_device_slot slots ≡ some i
    → sock_of (get_elem? (at_slot i (occupy id sock) slots) i) ≡ sock
unfolding alloc_device_slot at_slot
occupied-sock id sock [] e = cc e
occupied-sock id sock (s ∷ ss) {i} e = elim (Bool-cases s.in_use) [
  | inr unused ↦ let first : 0 ≡ i = some-inv (rw unused at e) in rw (sym first) refl
  | inl used ↦
      let (j, found, e') = later-inv (alloc_device_slot ss) (rw used at e) in
      rw e' (occupied-sock id sock ss found)
]

registered-sock :
    (id : Bytes) (sock : ℕ) (slots : List Slot) {i : ℕ}
    → (register_device id sock slots).1 ≡ some i
    → sock_of (get_elem? (register_device id sock slots).0 i) ≡ sock
unfolding register_device
registered-sock id sock slots {i} e =
    elim (Option-cases (alloc_device_slot (drop_existing id slots))) [
      | inl full ↦ absurd (let f = rw (full, register_device) at e in cc f)
      | inr (j, got) ↦
          let same : j ≡ i = some-inv (rw (got, register_device) at e) in
          rw (got, register_device, sym same) (occupied-sock id sock (drop_existing id slots) got)
    ]

take-found :
    (id : Bytes) (slots : List Slot) {i : ℕ}
    → find_device id slots ≡ some i
    → (take_device id slots).1 ≡ some i
unfolding take_device
take-found id slots e = rw (e, take_device) refl

connect-found :
    (id : Bytes) (sock : ℕ) (slots : List Slot) {i : ℕ}
    → find_device id slots ≡ some i
    → (open_connection (connects id) sock slots).1 ≡ bridged i (sock_of (get_elem? slots i))
unfolding open_connection
connect-found id sock slots e = rw (take-found id slots e) refl

-- A client that connects to a device right after it has registered is bridged to the device's own
-- socket, if no id could be found twice before, no free slot was marked as bridged, and the id has
-- at most 63 chars.
pub open_connection-meets :
    (id : Bytes) (device client : ℕ) (slots : List Slot) (i : ℕ)
    → length id ≤ 63
    → IsUnique slots
    → NoStale slots
    → (register_device id device slots).1 ≡ some i
    → let after = (open_connection (registers id) device slots).0 in
      (open_connection (connects id) client after).1 ≡ bridged i device
unfolding open_connection
open_connection-meets id device client slots i fits u h e =
    connect-found id client (register_device id device slots).0
      (register_device-found id device slots i fits u h e)
    ∙ ap (bridged i) (registered-sock id device slots e)
