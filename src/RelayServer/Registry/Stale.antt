-- ===== src/RelayServer/Registry/Stale.antt =====
-- What a slot of relay_server.c that is free and still marked as bridged does.
use smart_lock_intercom.Base.{
  ℕ, ◌≡◌, refl, sym, ap, subst, ◌∙◌, inl, inr, true, some, none, List, [], ◌∷◌, Bytes, arith,
  Bool-cases, get_elem?,
}
use smart_lock_intercom.RelayServer.Registry.{
  Slot, find_device, alloc_device_slot, at_slot, occupy, drop_existing, register_device,
}
use smart_lock_intercom.RelayServer.Registry.Counting.{count, later-inv, find-zero}
use smart_lock_intercom.RelayServer.Registry.Discovery.{some-inv}

drop_existing-nothing :
    (id : Bytes) (slots : List Slot) → find_device id slots ≡ none → drop_existing id slots ≡ slots
unfolding drop_existing
drop_existing-nothing id slots e = rw (e, drop_existing) refl

register_device-got :
    (id : Bytes) (sock : ℕ) (slots : List Slot) {i : ℕ}
    → alloc_device_slot (drop_existing id slots) ≡ some i
    → (register_device id sock slots).0 ≡ at_slot i (occupy id sock) (drop_existing id slots)
unfolding register_device
register_device-got id sock slots e = rw (e, register_device) refl

hidden-count :
    (id : Bytes) (sock : ℕ) (slots : List Slot) {i : ℕ} {s : Slot}
    → count id slots ≡ 0
    → alloc_device_slot slots ≡ some i
    → get_elem? slots i ≡ some s
    → s.bridging ≡ true
    → count id (at_slot i (occupy id sock) slots) ≡ 0
unfolding alloc_device_slot at_slot
hidden-count id sock [] none_ got there stale = cc got
hidden-count id sock (d ∷ ds) {i} {s} none_ got there stale = elim (Bool-cases d.in_use) [
  | inr unused ↦
      let first : 0 ≡ i = some-inv (rw unused at got) in
      let it : some d ≡ some s = rw (sym first) at there in
      let b : d.bridging ≡ true = subst (λ x. x.bridging ≡ true) (sym (slot-inv it)) stale in
      rw (sym first, b) (omega arith)
  | inl used ↦
      let (j, found, e') = later-inv (alloc_device_slot ds) (rw used at got) in
      rw e' (omega (arith, hidden-count id sock ds (omega arith) found (rw e' at there) stale))
]
  where
    slot-inv : {a b : Slot} → some a ≡ some b → a ≡ b
    slot-inv h = cc h

-- A device that registers when the first free slot is still marked as bridged cannot be found, if
-- the table has no other device of its id that a client could be bridged to.
pub register_device-hidden :
    (id : Bytes) (sock : ℕ) (slots : List Slot) (i : ℕ) (s : Slot)
    → count id slots ≡ 0
    → alloc_device_slot slots ≡ some i
    → get_elem? slots i ≡ some s
    → s.bridging ≡ true
    → find_device id (register_device id sock slots).0 ≡ none
register_device-hidden id sock slots i s none_ got there stale =
    let nothing = find-zero id slots none_ in
    let kept = drop_existing-nothing id slots nothing in
    let after =
      register_device-got id sock slots (ap alloc_device_slot kept ∙ got)
      ∙ ap (at_slot i (occupy id sock)) kept in
    ap (find_device id) after
    ∙ find-zero id (at_slot i (occupy id sock) slots)
        (hidden-count id sock slots none_ got there stale)
