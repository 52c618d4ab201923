-- ===== src/Rtsp/Request/Line.antt =====
-- What one header line does in `parse_rtsp_request` of rtsp_server.c, by its text alone.
use smart_lock_intercom.Base.{
  ℕ, zero, suc, ◌-◌, ◌≤◌, ◌≡◌, ◌≢◌, refl, ◌∙◌, inl, inr, Bool, true, false, ◌&&◌, not, some, List,
  [], ◌∷◌, ◌++◌, Bytes, arith, ◌==◌, if◌then◌else◌, length, drop, All, Bool-cases, length-append,
  take-append, ne→false,
}
use smart_lock_intercom.CString.{
  codes, has_prefix, has_prefix_nocase, to_lower, strstr, strchr, skip_spaces, atoi,
}
use smart_lock_intercom.Rtsp.Request.{RtspReq, overwrite, header_value, crlf, read_header}

-- A text has no byte `c`.
abbrev pub Without : ℕ → Bytes → Type 0
Without c s = All (λ x. x ≢ c) s

pub strchr_first :
    (c : ℕ) (s rest : Bytes) → Without c s → strchr (s ++ (c ∷ rest)) c ≡ some (s, c ∷ rest)
unfolding strchr
strchr_first c [] rest h = ground arith
strchr_first c (x ∷ s) rest h = rw (ne→false x c h.0, strchr_first c s rest h.1) refl

-- The first line ends at the first CR LF.
pub strstr_line :
    (s rest : Bytes) → Without 13 s → strstr (s ++ (crlf ++ rest)) crlf ≡ some (s, crlf ++ rest)
unfolding strstr has_prefix
strstr_line [] rest h = refl
strstr_line (x ∷ s) rest h = rw (ne→false x 13 h.0, strstr_line s rest h.1) refl

-- Header lines as the loop meets them, each with its CR LF in front, and the end of the request.
abbrev pub lines_text : List Bytes → Bytes
lines_text [] = crlf ++ crlf
lines_text (l ∷ ls) = crlf ++ (l ++ lines_text ls)

-- A header value without the blanks before it.
abbrev pub trimmed : ℕ → Bytes → Bytes
trimmed n l = skip_spaces (drop n l)

-- What one header line sets, by its text alone; only `atoi` can look at what follows the line, if
-- the line holds no number.
unfoldable pub line_sets : Bytes → Bytes → RtspReq → RtspReq
line_sets l eol req =
    if has_prefix_nocase l (codes "CSeq:")
    then record req { cseq = atoi (drop 5 (l ++ eol)) }
    else if has_prefix_nocase l (codes "Transport:")
    then record req { transport = overwrite 256 req.transport (trimmed 10 l) }
    else if has_prefix_nocase l (codes "Session:")
    then record req { session = overwrite 32 req.session (trimmed 8 l) }
    else if has_prefix_nocase l (codes "Authorization:")
    then record req { authorization = overwrite 512 req.authorization (trimmed 14 l) }
    else req

-- The header lines taken one by one. `rest` is the text behind the request.
unfoldable pub fold_lines : List Bytes → Bytes → RtspReq → RtspReq
fold_lines [] rest req = req
fold_lines (l ∷ ls) rest req = fold_lines ls rest (line_sets l (lines_text ls ++ rest) req)

-- No letter of a header's name is a CR.
no_cr : Bytes → Bool
unfolding to_lower
no_cr [] = true
no_cr (y ∷ p) = not (to_lower 13 == to_lower y) && no_cr p

has_prefix_nocase-line :
    (l p t : Bytes) → no_cr p ≡ true → has_prefix_nocase (l ++ (13 ∷ t)) p ≡ has_prefix_nocase l p
unfolding has_prefix_nocase no_cr
has_prefix_nocase-line [] [] t h = refl
has_prefix_nocase-line (x ∷ l) [] t h = refl
has_prefix_nocase-line [] (y ∷ p) t h = ground arith
has_prefix_nocase-line (x ∷ l) (y ∷ p) t h = rw (has_prefix_nocase-line l p t (ground arith)) refl

skip_spaces-line : (l t : Bytes) → skip_spaces (l ++ (13 ∷ t)) ≡ skip_spaces l ++ (13 ∷ t)
unfolding skip_spaces
skip_spaces-line [] t = refl
skip_spaces-line (x ∷ l) t = elim (Bool-cases (x == b' ')) [
  | inl blank ↦ rw blank (skip_spaces-line l t)
  | inr other ↦ rw other refl
]

drop_within : (n : ℕ) (l t : Bytes) → n ≤ length l → drop n (l ++ t) ≡ drop n l ++ t
drop_within zero l t le = refl
drop_within (suc n) [] t le = absurd (omega arith)
drop_within (suc n) (x ∷ l) t le = drop_within n l t (omega arith)

header_value-line :
    (n : ℕ) (l t : Bytes) → n ≤ length l → header_value n (l ++ (13 ∷ t)) (13 ∷ t) ≡ trimmed n l
header_value-line n l t le =
    let v = skip_spaces (drop n l) in
    let size : length (v ++ (13 ∷ t)) - length (13 ∷ t) ≡ length v =
      omega (arith, length-append v (13 ∷ t)) in
    rw (drop_within n l (13 ∷ t) le, skip_spaces-line (drop n l) t, size) (take-append v (13 ∷ t))

has_prefix_nocase-length : (s p : Bytes) → has_prefix_nocase s p ≡ true → length p ≤ length s
unfolding has_prefix_nocase
has_prefix_nocase-length s [] h = omega arith
has_prefix_nocase-length [] (y ∷ p) h = cc
has_prefix_nocase-length (x ∷ s) (y ∷ p) h = ground (arith, has_prefix_nocase-length s p)

-- A test for a header's name reads the line alone.
name_test :
    (l p t : Bytes) (b : Bool)
    → no_cr p ≡ true
    → has_prefix_nocase l p ≡ b
    → has_prefix_nocase (l ++ (13 ∷ t)) p ≡ b
name_test l p t b h e = has_prefix_nocase-line l p t h ∙ e

pub read_header-line :
    (l t : Bytes) (req : RtspReq)
    → read_header (l ++ (13 ∷ t)) (13 ∷ t) req ≡ line_sets l (13 ∷ t) req
unfolding read_header line_sets no_cr
read_header-line l t req = elim (Bool-cases (has_prefix_nocase l (codes "CSeq:"))) [
  | inl a ↦ rw (name_test l (codes "CSeq:") t true refl a, a) refl
  | inr a ↦ elim (Bool-cases (has_prefix_nocase l (codes "Transport:"))) [
    | inl b ↦
        rw
          (
            name_test l (codes "CSeq:") t false refl a,
            a,
            name_test l (codes "Transport:") t true refl b,
            b,
            header_value-line 10 l t (has_prefix_nocase-length l (codes "Transport:") b),
          )
          refl
    | inr b ↦ elim (Bool-cases (has_prefix_nocase l (codes "Session:"))) [
      | inl c ↦
          rw
            (
              name_test l (codes "CSeq:") t false refl a,
              a,
              name_test l (codes "Transport:") t false refl b,
              b,
              name_test l (codes "Session:") t true refl c,
              c,
              header_value-line 8 l t (has_prefix_nocase-length l (codes "Session:") c),
            )
            refl
      | inr c ↦ elim (Bool-cases (has_prefix_nocase l (codes "Authorization:"))) [
        | inl d ↦
            rw
              (
                name_test l (codes "CSeq:") t false refl a,
                a,
                name_test l (codes "Transport:") t false refl b,
                b,
                name_test l (codes "Session:") t false refl c,
                c,
                name_test l (codes "Authorization:") t true refl d,
                d,
                header_value-line 14 l t (has_prefix_nocase-length l (codes "Authorization:") d),
              )
              refl
        | inr d ↦
            rw
              (
                name_test l (codes "CSeq:") t false refl a,
                a,
                name_test l (codes "Transport:") t false refl b,
                b,
                name_test l (codes "Session:") t false refl c,
                c,
                name_test l (codes "Authorization:") t false refl d,
                d,
              )
              refl
      ]
    ]
  ]
]
