-- ===== src/RelayServer/Registry/Discovery.antt =====
-- What can be found in the table of relay_server.c: the devices of an id.
use smart_lock_intercom.Base.{
  ℕ, ◌+◌, ◌≤◌, ◌≡◌, refl, sym, ap, ◌∙◌, inl, inr, Bool, true, false, ◌&&◌, not, some, List, [], ◌∷◌,
  Bytes, arith, Bool-cases, Option-cases, length, take, take-all, All,
}
use smart_lock_intercom.CString.{str_eq}
use smart_lock_intercom.CString.Equality.{str_eq_refl}
use smart_lock_intercom.RelayServer.Registry.{
  Slot, matches, find_device, alloc_device_slot, at_slot, free, occupy, drop_existing,
  register_device,
}
use smart_lock_intercom.RelayServer.Registry.Counting.{
  one, count, later-inv, count-at_slot, count-free, count-none,
}

-- At most one device of each id can be found.
abbrev pub IsUnique : List Slot → Type 0
IsUnique slots = (id : Bytes) → count id slots ≤ 1

-- No free slot is marked as bridged.
abbrev pub NoStale : List Slot → Type 0
NoStale slots = All (λ s. s.in_use ≡ false → s.bridging ≡ false) slots

free-misses : (id : Bytes) (s : Slot) → matches id s ≡ false → matches id (free s) ≡ false
free-misses id s h = refl

pub drop_existing-le :
    (id id' : Bytes) (slots : List Slot) → count id' (drop_existing id slots) ≤ count id' slots
unfolding drop_existing
drop_existing-le id id' slots = elim (Option-cases (find_device id slots)) [
  | inl nothing ↦ rw (nothing, drop_existing) (omega arith)
  | inr (i, found) ↦ rw (found, drop_existing) (count-at_slot id' i free slots (free-misses id'))
]

pub drop_existing-zero :
    (id : Bytes) (slots : List Slot) → IsUnique slots → count id (drop_existing id slots) ≡ 0
unfolding drop_existing
drop_existing-zero id slots u = elim (Option-cases (find_device id slots)) [
  | inl nothing ↦ rw (nothing, drop_existing) (count-none id slots nothing)
  | inr (i, found) ↦ rw (found, drop_existing) (omega (arith, count-free id slots found, u id))
]

-- A free slot that is taken for `id`, which fits it, adds a device of this id only.
pub count-occupy :
    (id id' : Bytes) (sock : ℕ) (slots : List Slot) {i : ℕ}
    → length id ≤ 63
    → alloc_device_slot slots ≡ some i
    → count id' (at_slot i (occupy id sock) slots) ≤ one (str_eq id id') + count id' slots
unfolding alloc_device_slot at_slot
count-occupy id id' sock [] fits e = cc e
count-occupy id id' sock (s ∷ ss) {i} fits e = elim (Bool-cases s.in_use) [
  | inr unused ↦
      let first : 0 ≡ i = some-inv (rw unused at e) in
      let whole : take 63 id ≡ id = take-all 63 id fits in
      rw (sym first, unused, whole)
        (elim (Bool-cases s.bridging) [ inl b ↦ rw b (omega arith) | inr b ↦ rw b (omega arith) ])
  | inl used ↦
      let (j, found, e') = later-inv (alloc_device_slot ss) (rw used at e) in
      rw e' (omega (arith, count-occupy id id' sock ss fits found))
]
  where
    some-inv : {a b : ℕ} → some a ≡ some b → a ≡ b
    some-inv h = cc h

-- A device that takes a free slot is found in it.
found-occupy :
    (id : Bytes) (sock : ℕ) (slots : List Slot) {i : ℕ}
    → length id ≤ 63
    → NoStale slots
    → count id slots ≡ 0
    → alloc_device_slot slots ≡ some i
    → find_device id (at_slot i (occupy id sock) slots) ≡ some i
unfolding alloc_device_slot at_slot find_device
found-occupy id sock [] fits fresh none_ e = cc e
found-occupy id sock (s ∷ ss) {i} fits fresh none_ e = elim (Bool-cases s.in_use) [
  | inr unused ↦
      let first : 0 ≡ i = some-inv (rw unused at e) in
      let whole : take 63 id ≡ id = take-all 63 id fits in
      rw (sym first, fresh.0 unused, whole, str_eq_refl id) refl
  | inl used ↦
      let (j, found, e') = later-inv (alloc_device_slot ss) (rw used at e) in
      let miss : matches id s ≡ false = one_zero (matches id s) (omega arith) in
      rw (e', miss, found-occupy id sock ss fits fresh.1 (omega arith) found) refl
]
  where
    some-inv : {a b : ℕ} → some a ≡ some b → a ≡ b
    some-inv h = cc h

    one_zero : (b : Bool) → one b ≡ 0 → b ≡ false
    one_zero true h = absurd (omega arith)
    one_zero false h = refl

not_bridging : (a b c : Bool) → (a && (not b && c)) ≡ true → b ≡ false
not_bridging a b c h = ground arith

pub some-inv : {a b : ℕ} → some a ≡ some b → a ≡ b
some-inv h = cc h

free-NoStale :
    (id : Bytes) (slots : List Slot) {i : ℕ}
    → NoStale slots
    → find_device id slots ≡ some i
    → NoStale (at_slot i free slots)
unfolding find_device at_slot
free-NoStale id [] h e = tt
free-NoStale id (s ∷ ss) {i} h e = elim (Bool-cases (matches id s)) [
  | inl hit ↦
      let first : 0 ≡ i = some-inv (rw hit at e) in
      rw (sym first) ((λ u. not_bridging _ _ _ hit), h.1)
  | inr miss ↦
      let (j, found, e') = later-inv (find_device id ss) (rw miss at e) in
      rw e' (h.0, free-NoStale id ss h.1 found)
]

drop_existing-NoStale :
    (id : Bytes) (slots : List Slot) → NoStale slots → NoStale (drop_existing id slots)
unfolding drop_existing
drop_existing-NoStale id slots h = elim (Option-cases (find_device id slots)) [
  | inl nothing ↦ rw (nothing, drop_existing) h
  | inr (i, found) ↦ rw (found, drop_existing) (free-NoStale id slots h found)
]

-- If no id could be found twice and no free slot was marked as bridged, a device whose id has at
-- most 63 chars is found under its id in the slot that its registration gave it.
pub register_device-found :
    (id : Bytes) (sock : ℕ) (slots : List Slot) (i : ℕ)
    → length id ≤ 63
    → IsUnique slots
    → NoStale slots
    → (register_device id sock slots).1 ≡ some i
    → find_device id (register_device id sock slots).0 ≡ some i
unfolding register_device
register_device-found id sock slots i fits u h e =
    let kept = drop_existing id slots in
    elim (Option-cases (alloc_device_slot kept)) [
      | inl full ↦ absurd (let f = rw (full, register_device) at e in cc f)
      | inr (j, got) ↦
          let same : j ≡ i = some-inv (rw (got, register_device) at e) in
          rw (got, register_device)
            (found-occupy id sock kept fits (drop_existing-NoStale id slots h)
                (drop_existing-zero id slots u) got
              ∙ ap some same)
    ]
