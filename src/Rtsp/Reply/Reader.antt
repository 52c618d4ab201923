-- ===== src/Rtsp/Reply/Reader.antt =====
-- A client that reads the replies of rtsp_server.c, written from RFC 2326: the lines to the empty
-- one, the headers by their names, and as many bytes of a body as `Content-Length` says.
use smart_lock_intercom.Base.{
  ℕ, zero, suc, ◌≤◌, ◌<◌, ◌≡◌, refl, sym, ap, ◌∙◌, Bool, true, false, Option, some, none, List, [],
  ◌∷◌, ◌++◌, append_assoc, Bytes, arith, if◌then◌else◌, length, take, drop, All, length-append,
}
use smart_lock_intercom.Base.Int.{ℤ, pos}
use smart_lock_intercom.CString.{codes, has_prefix, strstr, strchr, atoi}
use smart_lock_intercom.Rtsp.Request.{crlf}
use smart_lock_intercom.Rtsp.Request.Line.{Without, strstr_line}

abbrev Head : Type 0
Head = Option (List Bytes × Bytes)

abbrev with_line : Bytes → Head → Head
with_line l none = none
with_line l (some (ls, rest)) = some (l ∷ ls, rest)

abbrev pub is_empty : Bytes → Bool
is_empty [] = true
is_empty (c ∷ l) = false

-- The lines before the first empty one, and what is behind it; none if no line is empty. A round
-- takes one line of at most `fuel`.
unfoldable pub read_lines : ℕ → Bytes → Head
read_lines zero s = none
read_lines (suc fuel) s = elim (strstr s crlf) [
  | none ↦ none
  | some (l, at) ↦
      let more : Head = read_lines fuel (drop 2 at) in
      let done : Head = some ([], drop 2 at) in if is_empty l then done else with_line l more
]

-- The value of the first header of the name, colon and blank included.
unfoldable pub field : Bytes → List Bytes → Option Bytes
field name [] = none
field name (l ∷ ls) =
    let rest = field name ls in if has_prefix l name then some (drop (length name) l) else rest

pub record Response : Type 0 where
  pub code : Option ℤ
  pub cseq : Option ℤ
  pub session : Option Bytes
  pub body : Bytes

abbrev pub number : Option Bytes → Option ℤ
number none = none
number (some t) = some (atoi t)

abbrev before : Option (Bytes × Bytes) → Option Bytes
before none = none
before (some (t, at)) = some t

abbrev pub size : Option ℤ → ℕ
size (some (pos n)) = n
size _ = 0

unfoldable pub respond : Head → Option (Response × Bytes)
respond none = none
respond (some ([], rest)) = none
respond (some (status ∷ ls, rest)) =
    let n = size (number (field (codes "Content-Length: ") ls)) in
    let r : Response = record {
      code = number (before (strchr (drop 9 status) b' '));
      cseq = number (field (codes "CSeq: ") ls);
      session = field (codes "Session: ") ls;
      body = take n rest;
    } in
    some (r, drop n rest)

-- The first reply of a stream, and what follows it.
abbrev pub read_response : Bytes → Option (Response × Bytes)
read_response s = respond (read_lines (suc (length s)) s)

-- Lines, each with its CR LF.
abbrev pub unlines : List Bytes → Bytes
unlines [] = []
unlines (l ∷ ls) = l ++ (crlf ++ unlines ls)

-- A line with something on it.
abbrev pub IsLine : Bytes → Type 0
IsLine l = Without 13 l × (is_empty l ≡ false)

pub unlines-append : (ls ms : List Bytes) → unlines (ls ++ ms) ≡ unlines ls ++ unlines ms
unlines-append [] ms = refl
unlines-append (l ∷ ls) ms =
    ap (λ t. l ++ (crlf ++ t)) (unlines-append ls ms)
    ∙ sym (append_assoc l (crlf ++ unlines ls) (unlines ms))

pub length-unlines : (ls : List Bytes) → length ls ≤ length (unlines ls)
length-unlines [] = omega arith
length-unlines (l ∷ ls) = omega (arith, length-unlines ls, length-append l (crlf ++ unlines ls))

read_lines_round :
    (fuel : ℕ) (l t : Bytes)
    → IsLine l
    → read_lines (suc fuel) (l ++ (crlf ++ t)) ≡ with_line l (read_lines fuel t)
unfolding read_lines
read_lines_round fuel l t h = rw (strstr_line l t h.0, read_lines, h.1) refl

-- Lines that an empty one ends are read, and what is behind it stays.
pub read_lines-unlines :
    (fuel : ℕ) (ls : List Bytes) (rest : Bytes)
    → All IsLine ls
    → length ls < fuel
    → read_lines fuel (unlines ls ++ (crlf ++ rest)) ≡ some (ls, rest)
unfolding read_lines strstr has_prefix
read_lines-unlines zero ls rest h lt = absurd (omega arith)
read_lines-unlines (suc fuel) [] rest h lt = refl
read_lines-unlines (suc fuel) (l ∷ ls) rest h lt =
    let t = unlines ls ++ (crlf ++ rest) in
    ap (read_lines (suc fuel)) (append_assoc l (crlf ++ unlines ls) (crlf ++ rest))
    ∙ read_lines_round fuel l t h.0
    ∙ ap (with_line l) (read_lines-unlines fuel ls rest h.1 (omega arith))

-- Without an empty line behind them, the client waits for more.
pub read_lines-unended :
    (fuel : ℕ) (ls : List Bytes) → All IsLine ls → read_lines fuel (unlines ls) ≡ none
unfolding read_lines strstr has_prefix
read_lines-unended zero ls h = refl
read_lines-unended (suc fuel) [] h = refl
read_lines-unended (suc fuel) (l ∷ ls) h =
    read_lines_round fuel l (unlines ls) h.0 ∙ ap (with_line l) (read_lines-unended fuel ls h.1)

-- No line has the header.
abbrev pub NoField : Bytes → List Bytes → Type 0
NoField name ls = All (λ l. has_prefix l name ≡ false) ls

pub field_append :
    (name : Bytes) (ls ms : List Bytes) → NoField name ls → field name (ls ++ ms) ≡ field name ms
unfolding field
field_append name [] ms h = refl
field_append name (l ∷ ls) ms h = rw h.0 (field_append name ls ms h.1)
