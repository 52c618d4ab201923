-- ===== src/Rtsp/Request/Lines.antt =====
-- What `parse_rtsp_request` of rtsp_server.c makes of a well-formed request: the reference splits
-- the text at each CR LF.
use smart_lock_intercom.Base.{
  ℕ, zero, suc, ◌+◌, ◌-◌, ◌<◌, ◌≤◌, ◌≡◌, refl, sym, ◌∙◌, true, some, List, [], ◌∷◌, ◌++◌,
  append_assoc, Bytes, arith, ltb, length, take, All, length-append, take-append, lt→ltb, le→ltb,
  subst, ◌*◌,
}
use smart_lock_intercom.CString.{has_prefix_nocase, strstr}
use smart_lock_intercom.Rtsp.Request.{
  RtspReq, cleared, crlf, read_headers, headers_of, parse_rtsp_request,
}
use smart_lock_intercom.Rtsp.Request.Line.{
  Without, strchr_first, strstr_line, lines_text, line_sets, fold_lines, read_header-line,
}

-- Any text of lines begins with a CR LF.
lines_text_cr : (ls : List Bytes) → (t : Bytes) × (lines_text ls ≡ 13 ∷ 10 ∷ t)
lines_text_cr [] = (crlf, refl)
lines_text_cr (l ∷ ls) = (l ++ lines_text ls, refl)

read_headers_stop :
    (fuel beyond : ℕ) (line : Bytes) (req : RtspReq)
    → length line ≤ beyond + 2
    → read_headers fuel beyond line req ≡ req
unfolding read_headers
read_headers_stop zero beyond line req le = refl
read_headers_stop (suc fuel) beyond line req le = rw (le→ltb (beyond + 2) (length line) le) refl

-- One round of the loop takes one line.
read_headers_round :
    (fuel beyond : ℕ) (l t : Bytes) (req : RtspReq)
    → Without 13 l
    → beyond ≤ length t
    → read_headers (suc fuel) beyond (crlf ++ (l ++ (crlf ++ t))) req
      ≡ read_headers fuel beyond (crlf ++ t) (line_sets l (crlf ++ t) req)
unfolding read_headers
read_headers_round fuel beyond l t req h le =
    let on : ltb (beyond + 2) (length (crlf ++ (l ++ (crlf ++ t)))) ≡ true =
      lt→ltb _ _ (omega (arith, length-append l (crlf ++ t))) in
    rw (on, strstr_line l t h, read_header-line l (10 ∷ t) req) refl

line_sets_none : (t : Bytes) (req : RtspReq) → line_sets [] t req ≡ req
unfolding line_sets has_prefix_nocase
line_sets_none t req = refl

read_headers-lines :
    (fuel : ℕ) (ls : List Bytes) (rest : Bytes) (req : RtspReq)
    → All (Without 13) ls
    → length ls < fuel
    → read_headers fuel (length rest) (lines_text ls ++ rest) req ≡ fold_lines ls rest req
unfolding fold_lines
read_headers-lines zero ls rest req h lt = absurd (omega arith)
read_headers-lines (suc fuel) [] rest req h lt =
    read_headers_round fuel (length rest) [] rest req tt (omega arith)
    ∙ rw (line_sets_none (crlf ++ rest) req)
        (read_headers_stop fuel (length rest) (crlf ++ rest) req (omega arith))
read_headers-lines (suc fuel) (l ∷ ls) rest req h lt =
    let (t, e) = lines_text_cr ls in
    let ih =
      read_headers-lines fuel ls rest (line_sets l (lines_text ls ++ rest) req) h.1 (omega arith) in
    rw (append_assoc l (lines_text ls) rest) (
      subst
        (λ u.
          read_headers (suc fuel) (length rest) (crlf ++ (l ++ (u ++ rest))) req
          ≡ read_headers fuel (length rest) (u ++ rest) (line_sets l (u ++ rest) req))
        (sym e)
        (read_headers_round fuel (length rest) l (t ++ rest) req h.0
          (omega (arith, length-append t rest)))
      ∙ ih)

-- A request with its header lines, each line ended by CR LF, and the empty line.
abbrev pub request_text : Bytes → Bytes → Bytes → List Bytes → Bytes
request_text method uri version ls = method ++ (b' ' ∷ (uri ++ (b' ' ∷ (version ++ lines_text ls))))

length-lines_text : (ls : List Bytes) → 2 * length ls + 4 ≤ length (lines_text ls)
length-lines_text [] = omega arith
length-lines_text (l ∷ ls) = omega (arith, length-lines_text ls, length-append l (lines_text ls))

headers_of-lines :
    (first : Bytes) (ls : List Bytes) (rest : Bytes) (req : RtspReq)
    → Without 13 first
    → All (Without 13) ls
    → let text = first ++ lines_text ls in
      headers_of (text ++ rest) (length text) req ≡ fold_lines ls rest req
unfolding headers_of
headers_of-lines first ls rest req f h =
    let text = first ++ lines_text ls in
    let (t, e) = lines_text_cr ls in
    let found : strstr (text ++ rest) crlf ≡ some (first, lines_text ls ++ rest) =
      rw (append_assoc first (lines_text ls) rest) (
        subst (λ u. strstr (first ++ (u ++ rest)) crlf ≡ some (first, u ++ rest)) (sym e)
          (strstr_line first (t ++ rest) f)) in
    let behind : length (text ++ rest) - length text ≡ length rest =
      omega (arith, length-append text rest) in
    rw (found, behind, headers_of)
      (read_headers-lines (length (text ++ rest)) ls rest req h (
        let size = length-lines_text ls in
        omega (arith, length-append text rest, length-append first (lines_text ls))))

request_text-lines :
    (method uri version : Bytes) (ls : List Bytes)
    → request_text method uri version ls
      ≡ (method ++ (b' ' ∷ (uri ++ (b' ' ∷ version)))) ++ lines_text ls
request_text-lines method uri version ls = simp append_assoc

-- A request line whose method and URI hold no blank and no CR, followed by header lines without a
-- CR, is parsed into the method and the URI, each cut to its array, and the header lines taken in
-- order, each by its own text; nothing behind the request counts but as the end of a CSeq line
-- without a number.
pub parse_rtsp_request-lines :
    (method uri version : Bytes) (ls : List Bytes) (rest : Bytes)
    → Without b' ' method
    → Without b' ' uri
    → Without 13 (method ++ (b' ' ∷ (uri ++ (b' ' ∷ version))))
    → All (Without 13) ls
    → parse_rtsp_request
        (request_text method uri version ls ++ rest)
        (length (request_text method uri version ls))
      ≡ fold_lines ls rest (record cleared { method = take 15 method; uri = take 255 uri })
unfolding parse_rtsp_request
parse_rtsp_request-lines method uri version ls rest m u first h =
    let tail = version ++ lines_text ls in
    rw
      (
        take-append (request_text method uri version ls) rest,
        strchr_first b' ' method (uri ++ (b' ' ∷ tail)) m,
        strchr_first b' ' uri tail u,
        parse_rtsp_request,
      )
      (rw (request_text-lines method uri version ls) (headers_of-lines _ ls rest _ first h))
