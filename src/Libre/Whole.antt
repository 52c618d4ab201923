-- ===== src/Libre/Whole.antt =====
-- Texts of libre's formatting that fit their buffer.
use smart_lock_intercom.Base.{
  ℕ, ◌+◌, ◌-◌, ◌≤◌, ◌≡◌, refl, ap, List, [], ◌∷◌, ◌++◌, Bytes, arith, length, length-append, le→ltb,
  ltb, if_intro,
}
use smart_lock_intercom.Libre.{concat, print_pieces}

pub print_pieces-concat :
    (room : ℕ) (ps : List Bytes) → length (concat ps) ≤ room → print_pieces room ps ≡ concat ps
unfolding print_pieces
print_pieces-concat room [] h = refl
print_pieces-concat room (p ∷ ps) h =
    let split = length-append p (concat ps) in
    rw (le→ltb room (length p) (omega arith))
      (ap (λ (t : Bytes). p ++ t) (print_pieces-concat (room - length p) ps (omega arith)))

abbrev pub total : List Bytes → ℕ
total [] = 0
total (p ∷ ps) = length p + total ps

pub length-concat : (ps : List Bytes) → length (concat ps) ≡ total ps
length-concat [] = refl
length-concat (p ∷ ps) = omega (arith, length-append p (concat ps), length-concat ps)

pub length-print_pieces : (room : ℕ) (ps : List Bytes) → length (print_pieces room ps) ≤ room
unfolding print_pieces
length-print_pieces room [] = omega arith
length-print_pieces room (p ∷ ps) =
    if_intro (λ (t : Bytes). length t ≤ room) (ltb room (length p)) (λ _. omega arith)
      (λ h. ground (
        arith,
        length-append p (print_pieces (room - length p) ps),
        length-print_pieces (room - length p) ps,
      ))
