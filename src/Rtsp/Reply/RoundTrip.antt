-- ===== src/Rtsp/Reply/RoundTrip.antt =====
-- A reply of rtsp_server.c, read by a client.
use smart_lock_intercom.Base.{
  ℕ, suc, ◌<◌, ◌^◌, ◌≡◌, refl, sym, ap, subst, ◌∙◌, Option, some, none, List, [], ◌∷◌, ◌++◌, Bytes,
  arith, length, length-append, take-append, drop-append,
}
use smart_lock_intercom.Base.Int.{pos}
use smart_lock_intercom.CString.{codes, has_prefix}
use smart_lock_intercom.Libre.{concat, decimal, hex8}
use smart_lock_intercom.Libre.Whole.{length-print_pieces}
use smart_lock_intercom.Libre.Digits.{decimal-Without, atoi-decimal, atoi-decimal_int, magnitude}
use smart_lock_intercom.Rtsp.Request.{crlf}
use smart_lock_intercom.Rtsp.Request.Line.{strchr_first}
use smart_lock_intercom.Rtsp.State.{Reply, Body, no_body, sdp}
use smart_lock_intercom.Rtsp.Reply.{reason, status_line, body_text, reply_text, sdp_pieces}
use smart_lock_intercom.Rtsp.Reply.Lines.{IsPlain, NoFields}
use smart_lock_intercom.Rtsp.Reply.HeaderLines.{headers_lines}
use smart_lock_intercom.Rtsp.Reply.TextLines.{
  length_lines, cseq_line, more_lines, reply_lines, reply_text-unlines, reply_lines-IsLine,
}
use smart_lock_intercom.Rtsp.Reply.Reader.{
  unlines, field, field_append, length-unlines, read_lines-unlines, respond, read_response, number,
  size,
}

-- What the client takes for the session.
abbrev pub session_value : Option ℕ → Option Bytes
session_value none = none
session_value (some n) = some (hex8 b'a' n ++ codes ";timeout=60")

-- The three headers that the client looks for, among the others.
content_length :
    (s : Option ℕ) (hs : List Bytes) (body : Bytes)
    → NoFields hs
    → length body < 10 ^ 20
    → size (number (field (codes "Content-Length: ") (more_lines s hs body))) ≡ length body
unfolding field has_prefix
content_length s hs body h lt =
    let name = codes "Content-Length: " in
    let P = λ (v : Option Bytes). size (number v) ≡ length body in
    subst P (sym (past_session s ∙ field_append name hs (length_lines body) h.2)) (last body lt)
  where
    past_session :
        (s : Option ℕ)
        → field (codes "Content-Length: ") (more_lines s hs body)
          ≡ field (codes "Content-Length: ") (hs ++ length_lines body)
    past_session none = refl
    past_session (some n) = refl

    last :
        (t : Bytes)
        → length t < 10 ^ 20
        → size (number (field (codes "Content-Length: ") (length_lines t))) ≡ length t
    last [] k = refl
    last (c ∷ t) k = ap (λ z. size (some z)) (atoi-decimal (length (c ∷ t)) k)

session_field :
    (s : Option ℕ) (hs : List Bytes) (body : Bytes)
    → NoFields hs
    → field (codes "Session: ") (more_lines s hs body) ≡ session_value s
unfolding field has_prefix
session_field (some n) hs body h = refl
session_field none hs body h =
    field_append (codes "Session: ") hs (length_lines body) h.1 ∙ last body
  where
    last : (t : Bytes) → field (codes "Session: ") (length_lines t) ≡ none
    last [] = refl
    last (c ∷ t) = refl

-- What the client makes of the lines and the body.
respond-lines :
    (r : Reply) (hs : List Bytes) (body rest : Bytes)
    → r.code < 10 ^ 20
    → magnitude r.cseq < 10 ^ 20
    → NoFields hs
    → length body < 10 ^ 20
    → respond (some (status_line r ∷ cseq_line r ∷ more_lines r.session hs body, body ++ rest))
      ≡ some (
        record {
          code = some (pos r.code);
          cseq = some r.cseq;
          session = session_value r.session;
          body = body;
        },
        rest,
      )
unfolding respond field has_prefix
respond-lines r hs body rest code cseq h small =
    rw
      (
        strchr_first b' ' (decimal r.code) (concat (reason r.code ∷ []))
            (decimal-Without b' ' r.code (omega arith)),
        atoi-decimal r.code code,
        atoi-decimal_int r.cseq cseq,
        content_length r.session hs body h small,
        session_field r.session hs body h,
        take-append body rest,
        drop-append body rest,
      )
      refl

body_text-small : (base64 : Bytes → Bytes) (b : Body) → length (body_text base64 b) < 10 ^ 20
unfolding body_text
body_text-small base64 no_body = omega arith
body_text-small base64 (sdp ip params) =
    omega (arith, length-print_pieces 2047 (sdp_pieces base64 ip params))

-- A client that reads a reply of the server gets back its code, its CSeq, its session and its whole
-- body, and what is sent behind it is left for the next reply, if the headers are whole. The code
-- and the CSeq are numbers of at most 20 digits, as those of an `int` are.
pub read_response-reply_text :
    (base64 : Bytes → Bytes) (r : Reply) (rest : Bytes)
    → r.code < 10 ^ 20
    → magnitude r.cseq < 10 ^ 20
    → IsPlain r.headers
    → read_response (reply_text base64 r ++ rest)
      ≡ some (
        record {
          code = some (pos r.code);
          cseq = some r.cseq;
          session = session_value r.session;
          body = body_text base64 r.body;
        },
        rest,
      )
read_response-reply_text base64 r rest code cseq plain =
    let (hs, text, lines, fields) = headers_lines r.headers plain in
    let body = body_text base64 r.body in
    let ls = reply_lines r hs body in
    let tail = crlf ++ (body ++ rest) in
    let fuel : length ls < suc (length (unlines ls ++ tail)) =
      omega (arith, length-unlines ls, length-append (unlines ls) tail) in
    ap read_response (reply_text-unlines base64 r hs rest text)
    ∙ ap respond (read_lines-unlines _ ls (body ++ rest) (reply_lines-IsLine r hs body lines) fuel)
    ∙ respond-lines r hs body rest code cseq fields (body_text-small base64 r.body)
