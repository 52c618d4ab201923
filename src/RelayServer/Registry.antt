-- ===== src/RelayServer/Registry.antt =====
-- The table of devices of relay_server.c. The mutex makes each function here one step.
pub mod Counting
pub mod Discovery
pub mod Steps
pub mod Stale
use smart_lock_intercom.Base.{
  ℕ, zero, suc, Bool, true, false, ◌&&◌, not, Option, some, none, List, [], ◌∷◌, Bytes, ◌==◌,
  if◌then◌else◌,
}
use smart_lock_intercom.CString.{str_eq, str_ncpy}

pub record Slot : Type 0 where
  pub in_use : Bool
  pub bridging : Bool
  pub device_id : Bytes
  pub sock : ℕ

-- A device that a client can be bridged to.
abbrev pub matches : Bytes → Slot → Bool
matches id s = s.in_use && (not s.bridging && str_eq s.device_id id)

abbrev pub later : Option ℕ → Option ℕ
later none = none
later (some i) = some (suc i)

-- `none` is -1.
unfoldable pub find_device : Bytes → List Slot → Option ℕ
find_device id [] = none
find_device id (s ∷ ss) = if matches id s then some 0 else later (find_device id ss)

unfoldable pub alloc_device_slot : List Slot → Option ℕ
alloc_device_slot [] = none
alloc_device_slot (s ∷ ss) = if not s.in_use then some 0 else later (alloc_device_slot ss)

-- An assignment to fields of `g_devices[i]`.
unfoldable pub at_slot : ℕ → (Slot → Slot) → List Slot → List Slot
at_slot i f [] = []
at_slot zero f (s ∷ ss) = f s ∷ ss
at_slot (suc i) f (s ∷ ss) = s ∷ at_slot i f ss

abbrev pub free : Slot → Slot
free s = record s { in_use = false }

abbrev pub occupy : Bytes → ℕ → Slot → Slot
occupy id sock s = record s { in_use = true; device_id = str_ncpy 64 id; sock = sock }

-- A registration of the same device goes first.
unfoldable pub drop_existing : Bytes → List Slot → List Slot
drop_existing id slots = elim (find_device id slots) [
  | none ↦ slots
  | some existing ↦ at_slot existing free slots
]

-- The locked part of a REGISTER, with the slot; `none` is a full server.
unfoldable pub register_device : Bytes → ℕ → List Slot → List Slot × Option ℕ
register_device id sock slots =
    let kept = drop_existing id slots in
    elim (alloc_device_slot kept) [
      | none ↦ (kept, none)
      | some slot ↦ (at_slot slot (occupy id sock) kept, some slot)
    ]

-- The end of a registered device's connection: the slot is freed if it still has the socket.
unfoldable pub remove_device : ℕ → ℕ → List Slot → List Slot
remove_device slot sock slots =
    at_slot slot (λ s. if s.in_use && s.sock == sock then free s else s) slots

-- The locked part of a CONNECT.
unfoldable pub take_device : Bytes → List Slot → List Slot × Option ℕ
take_device id slots = elim (find_device id slots) [
  | none ↦ (slots, none)
  | some idx ↦ (at_slot idx (λ s. record s { bridging = true }) slots, some idx)
]

-- The end of a bridge.
unfoldable pub release_device : ℕ → List Slot → List Slot
release_device idx slots = at_slot idx (λ s. record s { in_use = false; bridging = false }) slots
