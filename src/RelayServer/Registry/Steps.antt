-- ===== src/RelayServer/Registry/Steps.antt =====
-- The threads of relay_server.c as steps of the table.
use smart_lock_intercom.Base.{
  ℕ, zero, suc, [], replicate, ◌≤◌, ◌≡◌, refl, subst, inl, inr, true, false, ◌&&◌, List, Bytes,
  ◌==◌, if◌then◌else◌, arith, Bool-cases, Option-cases, length,
}
use smart_lock_intercom.CString.{str_eq}
use smart_lock_intercom.CString.Equality.{str_eq_iff}
use smart_lock_intercom.RelayServer.Registry.{
  Slot, matches, find_device, alloc_device_slot, free, drop_existing, register_device,
  remove_device, take_device, release_device,
}
use smart_lock_intercom.RelayServer.Registry.Counting.{count, count-at_slot}
use smart_lock_intercom.RelayServer.Registry.Discovery.{
  IsUnique, count-occupy, drop_existing-le, drop_existing-zero,
}

-- One step of a thread of the relay with the table.
pub data Step : List Slot → List Slot → Type 0 where
  registers :
      (id : Bytes) (sock : ℕ) {slots : List Slot}
      → length id ≤ 63
      → Step slots (register_device id sock slots).0
  leaves : (slot sock : ℕ) {slots : List Slot} → Step slots (remove_device slot sock slots)
  bridges : (id : Bytes) {slots : List Slot} → Step slots (take_device id slots).0
  unbridges : (idx : ℕ) {slots : List Slot} → Step slots (release_device idx slots)

register-IsUnique :
    (id : Bytes) (sock : ℕ) (slots : List Slot)
    → length id ≤ 63
    → IsUnique slots
    → IsUnique (register_device id sock slots).0
unfolding register_device
register-IsUnique id sock slots fits u id' =
    let kept = drop_existing id slots in
    let le = drop_existing-le id id' slots in
    elim (Option-cases (alloc_device_slot kept)) [
      | inl full ↦ rw (full, register_device) (omega (arith, u id'))
      | inr (i, got) ↦
          rw (got, register_device)
            (let more = count-occupy id id' sock kept fits got in
              elim (Bool-cases (str_eq id id')) [
                | inr other ↦ let m = rw other at more in omega (arith, u id')
                | inl same ↦
                    let m = rw same at more in
                    let ids = (str_eq_iff id id').0 same in
                    let z : count id' kept ≡ 0 =
                      subst (λ x. count x kept ≡ 0) ids (drop_existing-zero id slots u) in
                    omega arith
              ])
    ]

left_misses :
    (sock : ℕ) (s : Slot) (id : Bytes)
    → matches id s ≡ false
    → matches id (if s.in_use && s.sock == sock then free s else s) ≡ false
left_misses sock s id h = elim (Bool-cases (s.in_use && s.sock == sock)) [
  | inl its ↦ rw its refl
  | inr other ↦ rw other h
]

-- A step keeps the ids unique.
pub Step-IsUnique : {slots after : List Slot} → Step slots after → IsUnique slots → IsUnique after
unfolding remove_device take_device release_device
Step-IsUnique {slots} (registers id sock fits) u id' = register-IsUnique id sock slots fits u id'
Step-IsUnique {slots} (leaves slot sock) u id' = omega (
  arith,
  u id',
  count-at_slot id' slot (λ s. if s.in_use && s.sock == sock then free s else s) slots
      (λ s h. left_misses sock s id' h),
)
Step-IsUnique {slots} (bridges id) u id' = elim (Option-cases (find_device id slots)) [
  | inl nothing ↦ rw (nothing, take_device) (u id')
  | inr (i, found) ↦
      rw (found, take_device)
        (omega (
          arith,
          u id',
          count-at_slot id' i (λ s. record s { bridging = true }) slots (λ s h. ground arith),
        ))
]
Step-IsUnique {slots} (unbridges idx) u id' = omega (
  arith,
  u id',
  count-at_slot id' idx (λ s. record s { in_use = false; bridging = false }) slots (λ s h. refl),
)

-- `g_devices` of a program that has just started: static storage, all zero.
abbrev pub zeroed : Slot
zeroed = record { in_use = false; bridging = false; device_id = []; sock = 0 }

-- MAX_DEVICES.
abbrev pub max_devices : ℕ
max_devices = 64

-- The tables that the relay gets to.
pub data Reachable : List Slot → Type 0 where
  starts : Reachable (replicate max_devices zeroed)
  steps : {slots after : List Slot} → Reachable slots → Step slots after → Reachable after

zeroed-none : (n : ℕ) (id : Bytes) → count id (replicate n zeroed) ≡ 0
zeroed-none zero id = refl
zeroed-none (suc n) id = omega (arith, zeroed-none n id)

-- From the empty table on, whatever its threads do and in which order, the relay never has two
-- devices of the same id that a client could be bridged to, as long as every id has at most 63
-- chars.
pub Reachable-IsUnique : {slots : List Slot} → Reachable slots → IsUnique slots
Reachable-IsUnique starts = λ id. omega (arith, zeroed-none max_devices id)
Reachable-IsUnique (steps r st) = Step-IsUnique st (Reachable-IsUnique r)
