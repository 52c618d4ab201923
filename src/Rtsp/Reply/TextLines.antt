-- ===== src/Rtsp/Reply/TextLines.antt =====
-- The replies of rtsp_server.c as lines.
use smart_lock_intercom.Base.{
  ℕ, ◌≡◌, ◌≢◌, refl, sym, ap, ◌∙◌, true, Option, some, none, List, [], ◌∷◌, ◌++◌, append_assoc,
  Bytes, arith, ltb, length, All, All-append, lt→ltb, ◌==◌, if_intro,
}
use smart_lock_intercom.CString.{codes}
use smart_lock_intercom.Libre.{decimal, decimal_int, hex8}
use smart_lock_intercom.Libre.Digits.{decimal-no_cr, decimal_int-no_cr, hex8-no_cr}
use smart_lock_intercom.Rtsp.Request.{crlf}
use smart_lock_intercom.Rtsp.Request.Line.{Without}
use smart_lock_intercom.Rtsp.State.{Reply}
use smart_lock_intercom.Rtsp.Reply.{
  reason, status_line, session_text, with_length, body_text, reply_text, headers_text,
}
use smart_lock_intercom.Rtsp.Reply.Lines.{has_no_cr-Without}
use smart_lock_intercom.Rtsp.Reply.Reader.{unlines, IsLine, unlines-append}

abbrev pub session_lines : Option ℕ → List Bytes
session_lines none = []
session_lines (some n) = (codes "Session: " ++ (hex8 b'a' n ++ codes ";timeout=60")) ∷ []

abbrev pub length_lines : Bytes → List Bytes
length_lines [] = []
length_lines (c ∷ s) = (codes "Content-Length: " ++ decimal (length (c ∷ s))) ∷ []

abbrev pub cseq_line : Reply → Bytes
cseq_line r = codes "CSeq: " ++ decimal_int r.cseq

pub session_text-unlines : (s : Option ℕ) → session_text s ≡ unlines (session_lines s)
session_text-unlines none = refl
session_text-unlines (some n) =
    ap (λ t. codes "Session: " ++ t) (sym (append_assoc (hex8 b'a' n) (codes ";timeout=60") crlf))

with_length-unlines : (s : Bytes) → with_length s ≡ unlines (length_lines s) ++ (crlf ++ s)
with_length-unlines [] = refl
with_length-unlines (c ∷ s) =
    let on : ltb 0 (length (c ∷ s)) ≡ true = lt→ltb 0 (length (c ∷ s)) (omega arith) in
    rw on (
      ap (λ t. codes "Content-Length: " ++ t)
        (sym (append_assoc (decimal (length (c ∷ s))) crlf (crlf ++ (c ∷ s)))))

pub two_lines :
    (a b u v : Bytes)
    → a ++ (crlf ++ (b ++ (crlf ++ (u ++ v)))) ≡ (a ++ (crlf ++ (b ++ (crlf ++ u)))) ++ v
two_lines a b u v =
    ap (λ t. a ++ (crlf ++ t)) (sym (append_assoc b (crlf ++ u) v))
    ∙ sym (append_assoc a (crlf ++ (b ++ (crlf ++ u))) v)

-- The header lines behind the CSeq.
abbrev pub more_lines : Option ℕ → List Bytes → Bytes → List Bytes
more_lines s hs body = session_lines s ++ (hs ++ length_lines body)

abbrev pub reply_lines : Reply → List Bytes → Bytes → List Bytes
reply_lines r hs body = status_line r ∷ cseq_line r ∷ more_lines r.session hs body

more_lines-unlines :
    (s : Option ℕ) (hs : List Bytes) (body : Bytes)
    → session_text s ++ (unlines hs ++ with_length body)
      ≡ unlines (more_lines s hs body) ++ (crlf ++ body)
more_lines-unlines s hs body =
    let S = session_lines s in
    let L = length_lines body in
    let all = unlines-append S (hs ++ L) ∙ ap (λ t. unlines S ++ t) (unlines-append hs L) in
    rw (session_text-unlines s, with_length-unlines body, all) (simp append_assoc)

status-IsLine : (r : Reply) → IsLine (status_line r)
status-IsLine r =
    let P = λ (t : Bytes). Without 13 t in
    let text : Without 13 (reason r.code) =
      if_intro P (r.code == 200) (λ _. has_no_cr-Without (codes "OK") refl)
        (λ _.
          if_intro P (r.code == 401) (λ _. has_no_cr-Without (codes "Unauthorized") refl)
            (λ _.
              if_intro P (r.code == 405) (λ _. has_no_cr-Without (codes "Method Not Allowed") refl)
                (λ _.
                  if_intro P (r.code == 455)
                    (λ _. has_no_cr-Without (codes "Method Not Valid in This State") refl)
                    (λ _.
                      if_intro P (r.code == 461)
                        (λ _. has_no_cr-Without (codes "Unsupported Transport") refl)
                        (λ _. has_no_cr-Without (codes "Internal Error") refl))))) in
    let N = λ (x : ℕ). x ≢ 13 in
    let back = All-append N (reason r.code) [] text tt in
    (
      All-append N (codes "RTSP/1.0 ") _ (has_no_cr-Without (codes "RTSP/1.0 ") refl) (
          All-append N (decimal r.code) _ (decimal-no_cr r.code)
            (All-append N (codes " ") _ (has_no_cr-Without (codes " ") refl) back)),
      refl,
    )

cseq_line-IsLine : (r : Reply) → IsLine (cseq_line r)
cseq_line-IsLine r = (
  All-append (λ x. x ≢ 13) (codes "CSeq: ") (decimal_int r.cseq)
      (has_no_cr-Without (codes "CSeq: ") refl) (decimal_int-no_cr r.cseq),
  refl,
)

session_lines-IsLine : (s : Option ℕ) → All IsLine (session_lines s)
session_lines-IsLine none = tt
session_lines-IsLine (some n) =
    let N = λ (x : ℕ). x ≢ 13 in
    let end_ = has_no_cr-Without (codes ";timeout=60") refl in
    let value =
      All-append N (hex8 b'a' n) (codes ";timeout=60") (hex8-no_cr b'a' n (omega arith)) end_ in
    (
      (All-append N (codes "Session: ") _ (has_no_cr-Without (codes "Session: ") refl) value, refl),
      tt,
    )

length_lines-IsLine : (body : Bytes) → All IsLine (length_lines body)
length_lines-IsLine [] = tt
length_lines-IsLine (c ∷ s) =
    let name = has_no_cr-Without (codes "Content-Length: ") refl in
    let n = length (c ∷ s) in
    (
      (
        All-append (λ x. x ≢ 13) (codes "Content-Length: ") (decimal n) name (decimal-no_cr n),
        refl,
      ),
      tt,
    )

pub reply_text-unlines :
    (base64 : Bytes → Bytes) (r : Reply) (hs : List Bytes) (rest : Bytes)
    → headers_text r.headers ≡ unlines hs
    → let body = body_text base64 r.body in
      reply_text base64 r ++ rest ≡ unlines (reply_lines r hs body) ++ (crlf ++ (body ++ rest))
unfolding reply_text
reply_text-unlines base64 r hs rest e =
    let body = body_text base64 r.body in
    let more = unlines (more_lines r.session hs body) in
    let inner =
      ap (λ t. session_text r.session ++ (t ++ with_length body)) e
      ∙ more_lines-unlines r.session hs body in
    let text : reply_text base64 r ≡ unlines (reply_lines r hs body) ++ (crlf ++ body) =
      ap (λ t. status_line r ++ (crlf ++ (cseq_line r ++ (crlf ++ t)))) inner
      ∙ two_lines (status_line r) (cseq_line r) more (crlf ++ body) in
    ap (λ t. t ++ rest) text ∙ append_assoc (unlines (reply_lines r hs body)) (crlf ++ body) rest

pub reply_lines-IsLine :
    (r : Reply) (hs : List Bytes) (body : Bytes)
    → All IsLine hs
    → All IsLine (reply_lines r hs body)
reply_lines-IsLine r hs body h =
    let tail = All-append IsLine hs (length_lines body) h (length_lines-IsLine body) in
    let more =
      All-append IsLine (session_lines r.session) _ (session_lines-IsLine r.session) tail in
    (status-IsLine r, (cseq_line-IsLine r, more))
