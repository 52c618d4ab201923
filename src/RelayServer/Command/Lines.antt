-- ===== src/RelayServer/Command/Lines.antt =====
-- The lines of the relay's protocol, as they are written and as relay_server.c reads them.
use smart_lock_intercom.Base.{
  ℕ, zero, suc, ◌≤◌, ◌<◌, ◌≡◌, ◌≢◌, refl, sym, ap, ◌∙◌, inl, inr, true, false, some, [], ◌∷◌, ◌++◌,
  append_assoc, append-nil, Bytes, ◌==◌, ==_iff, ne→false, arith, length, drop, All, Bool-cases,
  length-append,
}
use smart_lock_intercom.CString.{has_prefix}
use smart_lock_intercom.RelayServer.Command.{max_line, drop_cr, readline_loop, readline}

-- A line without a line feed.
abbrev pub IsLine : Bytes → Type 0
IsLine s = All (λ c. c ≢ 10) s

drop_cr_last : (s : Bytes) → drop_cr (s ++ (13 ∷ [])) ≡ s
drop_cr_last [] = refl
drop_cr_last (c ∷ []) = refl
drop_cr_last (c ∷ d ∷ s) = ap (◌∷◌ c) (drop_cr_last (d ∷ s))

readline_loop-line :
    (room : ℕ) (line s rest : Bytes)
    → IsLine s
    → length s < room
    → readline_loop room line (s ++ (10 ∷ rest)) ≡ some (drop_cr (line ++ s), rest)
unfolding readline_loop
readline_loop-line zero line s rest h lt = absurd (omega arith)
readline_loop-line (suc room) line [] rest h lt = rw append-nil refl
readline_loop-line (suc room) line (c ∷ s) rest h lt = rw (ne→false c 10 h.0) (
    readline_loop-line room (line ++ (c ∷ [])) s rest h.1 (omega arith)
    ∙ ap (λ l. some (drop_cr l, rest)) (append_assoc line (c ∷ []) s))

cr-IsLine : (s : Bytes) → IsLine s → IsLine (s ++ (13 ∷ []))
cr-IsLine [] h = ((λ e. absurd (omega arith)), tt)
cr-IsLine (c ∷ s) h = (h.0, cr-IsLine s h.1)

-- A line of at most 253 chars that is sent with CR LF is read without them, and what was sent
-- behind it stays on the connection.
pub readline-line :
    (s rest : Bytes)
    → IsLine s
    → length s ≤ 253
    → readline max_line (s ++ (13 ∷ 10 ∷ rest)) ≡ some (s, rest)
readline-line s rest h le =
    let e : s ++ (13 ∷ 10 ∷ rest) ≡ (s ++ (13 ∷ [])) ++ (10 ∷ rest) =
      sym (append_assoc s (13 ∷ []) (10 ∷ rest)) in
    rw e (
      readline_loop-line 255 [] (s ++ (13 ∷ [])) rest (cr-IsLine s h)
        (omega (arith, length-append s (13 ∷ [])))
      ∙ ap (λ l. some (l, rest)) (drop_cr_last s))

pub has_prefix-split : (s p : Bytes) → has_prefix s p ≡ true → s ≡ p ++ drop (length p) s
unfolding has_prefix
has_prefix-split s [] h = refl
has_prefix-split [] (y ∷ p) h = cc h
has_prefix-split (x ∷ s) (y ∷ p) h = elim (Bool-cases (x == y)) [
  | inl same ↦
      let xy = (==_iff x y).0 same in rw xy (ap (◌∷◌ y) (has_prefix-split s p (rw same at h)))
  | inr other ↦ let no_ : false ≡ true = rw other at h in cc no_
]
