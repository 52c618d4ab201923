-- ===== src/Rtsp/Reply/Cut.antt =====
-- The reply to PLAY when the array of `handle_play` is too small for it.
use smart_lock_intercom.Base.{
  ℕ, ◌+◌, ◌-◌, ◌<◌, ◌≡◌, ◌≢◌, refl, ap, subst, ◌∙◌, Bool, none, List, [], ◌∷◌, ◌++◌, append_assoc,
  Bytes, arith, ltb, length, All, All-append, if_intro, lt→ltb,
}
use smart_lock_intercom.CString.{codes}
use smart_lock_intercom.Libre.{print_pieces}
use smart_lock_intercom.Libre.Whole.{total}
use smart_lock_intercom.Rtp.{Stream}
use smart_lock_intercom.Rtsp.Request.{crlf}
use smart_lock_intercom.Rtsp.Request.Line.{Without}
use smart_lock_intercom.Rtsp.State.{Reply, no_body, rtp_info}
use smart_lock_intercom.Rtsp.Reply.{headers_text, reply_text, status_line, body_text, info_pieces}
use smart_lock_intercom.Rtsp.Reply.Lines.{
  has_no_cr-Without, info_front, info_last, info_first, info_pieces-split, info_front-Without,
}
use smart_lock_intercom.Rtsp.Reply.TextLines.{
  session_lines, cseq_line, reply_lines, reply_lines-IsLine, session_text-unlines,
}
use smart_lock_intercom.Rtsp.Reply.Reader.{
  unlines, unlines-append, IsLine, read_lines-unended, respond, read_response,
}

-- What is printed before the piece that does not fit has no CR, if only the last piece has one.
cut-Without :
    (room : ℕ) (ps : List Bytes) (last : Bytes)
    → All (Without 13) ps
    → room < total (ps ++ (last ∷ []))
    → Without 13 (print_pieces room (ps ++ (last ∷ [])))
unfolding print_pieces
cut-Without room [] last h lt = let out = lt→ltb room (length last) (omega (arith, lt)) in rw out tt
cut-Without room (p ∷ ps) last h lt =
    let rest = print_pieces (room - length p) (ps ++ (last ∷ [])) in
    if_intro (Without 13) (ltb room (length p)) (λ _. tt)
      (λ fits.
        All-append (λ x. x ≢ 13) p rest h.0
          (cut-Without (room - length p) ps last h.1 (ground (arith, fits, lt))))

-- The header that is left of RTP-Info, as a line that the reply's own CR LF ends.
abbrev CutLines : Bytes → Type 0
CutLines text = (l : Bytes) × Without 13 l × (text ≡ info_first ++ l)

cut_info :
    (base : Bytes) (video audio : Stream) (back : Bool)
    → Without 13 base
    → 511 < total (info_pieces base video audio back)
    → CutLines (print_pieces 511 (info_pieces base video audio back))
cut_info base video audio back h lt =
    let e = info_pieces-split base video audio back in
    let front = info_front base video audio back in
    let last = info_last back ++ crlf in
    let more : 511 < length info_first + total (front ++ (last ∷ [])) =
      subst (λ ps. 511 < total ps) e lt in
    let cr =
      cut-Without (511 - length info_first) front last (info_front-Without base video audio back h)
        (omega (arith, more)) in
    (
      print_pieces (511 - length info_first) (front ++ (last ∷ [])),
      cr,
      rw e (unfold print_pieces in refl),
    )

abbrev info_line : Bytes → Bytes
info_line l = codes "RTP-Info: url=" ++ l

abbrev range_line : Bytes
range_line = codes "Range: npt=0.000-"

cut_lines-IsLine : (l : Bytes) → Without 13 l → All IsLine (range_line ∷ info_line l ∷ [])
cut_lines-IsLine l h = (
  (has_no_cr-Without range_line refl, refl),
  (
    (
      All-append (λ x. x ≢ 13) (codes "RTP-Info: url=") l
          (has_no_cr-Without (codes "RTP-Info: url=") refl) h,
      refl,
    ),
    tt,
  ),
)

cut_text :
    (base64 : Bytes → Bytes) (r : Reply) (l : Bytes)
    → r.body ≡ no_body
    → headers_text r.headers ≡ info_first ++ l
    → reply_text base64 r ≡ unlines (reply_lines r (range_line ∷ info_line l ∷ []) [])
unfolding reply_text body_text
cut_text base64 r l nothing e =
    let hs = range_line ∷ info_line l ∷ [] in
    let S = session_lines r.session in
    let text = append_assoc info_first l crlf in
    rw (nothing, e)
      (ap (λ t. status_line r ++ (crlf ++ (cseq_line r ++ (crlf ++ t))))
        (rw (session_text-unlines r.session, unlines-append S hs) (ap (λ t. unlines S ++ t) text)))

-- When the RTP-Info of a PLAY does not fit the 512 bytes of its array, the reply loses the CR LF of
-- the header, so its own last CR LF ends that header and not the reply: a client that has read all
-- of it still waits for the empty line. The URI has no CR.
pub read_response-cut :
    (base64 : Bytes → Bytes) (r : Reply) (base : Bytes) (video audio : Stream) (back : Bool)
    → r.headers ≡ rtp_info base video audio back
    → r.body ≡ no_body
    → Without 13 base
    → 511 < total (info_pieces base video audio back)
    → read_response (reply_text base64 r) ≡ none
unfolding headers_text respond
read_response-cut base64 r base video audio back e nothing h lt =
    let (l, cr, text) = cut_info base video audio back h lt in
    let hs = range_line ∷ info_line l ∷ [] in
    let lines = reply_lines r hs [] in
    ap read_response (cut_text base64 r l nothing (ap headers_text e ∙ text))
    ∙ ap respond (read_lines-unended _ lines (reply_lines-IsLine r hs [] (cut_lines-IsLine l cr)))
