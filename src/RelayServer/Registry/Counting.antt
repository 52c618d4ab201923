-- ===== src/RelayServer/Registry/Counting.antt =====
-- How many devices of an id can be found in the table of relay_server.c.
use smart_lock_intercom.Base.{
  ℕ, zero, suc, ◌+◌, ◌≤◌, ◌≡◌, refl, sym, inl, inr, Bool, true, false, Option, some, none, List, [],
  ◌∷◌, Bytes, arith, Bool-cases,
}
use smart_lock_intercom.RelayServer.Registry.{Slot, matches, later, find_device, at_slot, free}

abbrev pub one : Bool → ℕ
one true = 1
one false = 0

abbrev pub count : Bytes → List Slot → ℕ
count id [] = 0
count id (s ∷ ss) = one (matches id s) + count id ss

pub later-inv : (o : Option ℕ) {i : ℕ} → later o ≡ some i → (j : ℕ) × (o ≡ some j) × (i ≡ suc j)
later-inv none e = cc e
later-inv (some j) e = (j, refl, ground arith)

later-none : (o : Option ℕ) → later o ≡ none → o ≡ none
later-none none e = refl
later-none (some j) e = cc e

-- What makes no slot easier to find keeps the counts.
pub count-at_slot :
    (id : Bytes) (i : ℕ) (f : Slot → Slot) (slots : List Slot)
    → ((s : Slot) → matches id s ≡ false → matches id (f s) ≡ false)
    → count id (at_slot i f slots) ≤ count id slots
unfolding at_slot
count-at_slot id i f [] h = omega arith
count-at_slot id zero f (s ∷ ss) h = elim (Bool-cases (matches id s)) [
  | inl hit ↦ elim (Bool-cases (matches id (f s))) [
    | inl a ↦ rw (hit, a) (omega arith)
    | inr a ↦ rw (hit, a) (omega arith)
  ]
  | inr miss ↦ rw (miss, h s miss) (omega arith)
]
count-at_slot id (suc i) f (s ∷ ss) h = omega (arith, count-at_slot id i f ss h)

at_slot_first :
    (i : ℕ) (f : Slot → Slot) (s : Slot) (ss : List Slot) → 0 ≡ i → at_slot i f (s ∷ ss) ≡ f s ∷ ss
unfolding at_slot
at_slot_first i f s ss e = rw (sym e) refl

-- The device that is found is one of those counted.
pub count-free :
    (id : Bytes) (slots : List Slot) {i : ℕ}
    → find_device id slots ≡ some i
    → suc (count id (at_slot i free slots)) ≡ count id slots
unfolding find_device at_slot
count-free id [] e = cc e
count-free id (s ∷ ss) {i} e = elim (Bool-cases (matches id s)) [
  | inl hit ↦
      let found : some 0 ≡ some i = rw hit at e in
      let first : 0 ≡ i = ground arith in rw (at_slot_first i free s ss first, hit) (omega arith)
  | inr miss ↦
      let (j, found, e') = later-inv (find_device id ss) (rw miss at e) in
      rw (e', at_slot) (rw miss (omega (arith, count-free id ss found)))
]

pub count-none : (id : Bytes) (slots : List Slot) → find_device id slots ≡ none → count id slots ≡ 0
unfolding find_device
count-none id [] e = refl
count-none id (s ∷ ss) e = elim (Bool-cases (matches id s)) [
  | inl hit ↦ let found : some 0 ≡ none = rw hit at e in cc found
  | inr miss ↦
      rw miss (omega (arith, count-none id ss (later-none (find_device id ss) (rw miss at e))))
]

pub find-zero : (id : Bytes) (slots : List Slot) → count id slots ≡ 0 → find_device id slots ≡ none
unfolding find_device
find-zero id [] e = refl
find-zero id (s ∷ ss) e = elim (Bool-cases (matches id s)) [
  | inl hit ↦ let some_ : 1 + count id ss ≡ 0 = rw hit at e in absurd (omega arith)
  | inr miss ↦
      let rest : 0 + count id ss ≡ 0 = rw miss at e in rw (miss, find-zero id ss (omega arith)) refl
]
