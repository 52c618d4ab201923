-- ===== src/Rtsp/Reply/HeaderLines.antt =====
-- The headers that the handlers of rtsp_server.c print, as lines.
use smart_lock_intercom.Base.{
  ℕ, ◌+◌, ◌≤◌, ◌≡◌, ◌≢◌, refl, sym, ap, ◌∙◌, Bool, false, Option, some, none, List, [], ◌∷◌, ◌++◌,
  append_assoc, Bytes, arith, All, All-append,
}
use smart_lock_intercom.CString.{codes, has_prefix}
use smart_lock_intercom.Libre.{concat, print_pieces, decimal, hex8}
use smart_lock_intercom.Libre.Whole.{total, length-concat, print_pieces-concat}
use smart_lock_intercom.Libre.Digits.{decimal-no_cr, length-decimal, hex8-no_cr, length-hex8}
use smart_lock_intercom.Rtp.{Stream}
use smart_lock_intercom.Rtsp.Request.{crlf}
use smart_lock_intercom.Rtsp.Request.Line.{Without}
use smart_lock_intercom.Rtsp.State.{
  Headers, no_headers, public_methods, content_base, tcp_transport, udp_transport, rtp_info,
  challenge,
}
use smart_lock_intercom.Rtsp.Reply.{headers_text, info_pieces}
use smart_lock_intercom.Rtsp.Reply.Lines.{
  has_no_cr-Without, concat-Without, whole_line, IsPlain, AsLines, NoFields, info_front, info_last,
  info_first, info_pieces-split, info_front-Without, info_last-Without, concat-last,
}
use smart_lock_intercom.Rtsp.Reply.Reader.{is_empty}

-- One line of pieces behind a literal with the header's name.
transport-Without :
    (rtp rtcp : ℕ) (name : Bytes)
    → Without 13 name
    → All (Without 13) (name ∷ decimal rtp ∷ codes "-" ∷ decimal rtcp ∷ [])
transport-Without rtp rtcp name h =
    (h, (decimal-no_cr rtp, (has_no_cr-Without (codes "-") refl, (decimal-no_cr rtcp, tt))))

-- Pieces that fit make one line, which is none of the headers that the client looks for.
line_of_pieces :
    (room : ℕ) (ps : List Bytes) (p : Bytes)
    → All (Without 13) (ps ++ (p ∷ []))
    → total (ps ++ ((p ++ crlf) ∷ [])) ≤ room
    → is_empty (concat (ps ++ (p ∷ []))) ≡ false
    → NoFields (concat (ps ++ (p ∷ [])) ∷ [])
    → AsLines (print_pieces room (ps ++ ((p ++ crlf) ∷ [])))
line_of_pieces room ps p cr fits some_ fields = (
  concat (ps ++ (p ∷ [])) ∷ [],
  whole_line room ps p fits,
  ((concat-Without (ps ++ (p ∷ [])) cr, some_), tt),
  fields,
)

abbrev tcp_name : Bytes
tcp_name = codes "Transport: RTP/AVP/TCP;unicast;interleaved="

tcp_lines : (rtp rtcp : ℕ) (ssrc : Option ℕ) → AsLines (headers_text (tcp_transport rtp rtcp ssrc))
unfolding headers_text has_prefix
tcp_lines rtp rtcp none =
    let ps = tcp_name ∷ decimal rtp ∷ codes "-" ∷ decimal rtcp ∷ [] in
    let cr = transport-Without rtp rtcp tcp_name (has_no_cr-Without tcp_name refl) in
    line_of_pieces 255 ps [] (All-append (Without 13) ps ([] ∷ []) cr (tt, tt))
      (omega (arith, length-decimal rtp, length-decimal rtcp)) refl
      ((refl, tt), (refl, tt), (refl, tt))
tcp_lines rtp rtcp (some ssrc) =
    let ps = tcp_name ∷ decimal rtp ∷ codes "-" ∷ decimal rtcp ∷ [] in
    let qs = codes ";ssrc=" ∷ hex8 b'A' ssrc ∷ [] in
    let cr = transport-Without rtp rtcp tcp_name (has_no_cr-Without tcp_name refl) in
    let tail : All (Without 13) (qs ++ ([] ∷ [])) =
      (has_no_cr-Without (codes ";ssrc=") refl, (hex8-no_cr b'A' ssrc (omega arith), (tt, tt))) in
    line_of_pieces 255 (ps ++ qs) [] (All-append (Without 13) ps (qs ++ ([] ∷ [])) cr tail)
      (omega (arith, length-decimal rtp, length-decimal rtcp, length-hex8 b'A' ssrc)) refl
      ((refl, tt), (refl, tt), (refl, tt))

abbrev udp_name : Bytes
udp_name = codes "Transport: RTP/AVP;unicast;client_port="

udp_lines : (rtp rtcp server ssrc : ℕ) → AsLines (headers_text (udp_transport rtp rtcp server ssrc))
unfolding headers_text has_prefix
udp_lines rtp rtcp server ssrc =
    let ports = codes ";server_port=" in
    let ps = udp_name ∷ decimal rtp ∷ codes "-" ∷ decimal rtcp ∷ [] in
    let qs = ports ∷ decimal server ∷ codes "-" ∷ decimal (server + 1) ∷ [] in
    let rs = codes ";ssrc=" ∷ hex8 b'A' ssrc ∷ [] in
    let cr = transport-Without rtp rtcp udp_name (has_no_cr-Without udp_name refl) in
    let cr' = transport-Without server (server + 1) ports (has_no_cr-Without ports refl) in
    let tail : All (Without 13) (rs ++ ([] ∷ [])) =
      (has_no_cr-Without (codes ";ssrc=") refl, (hex8-no_cr b'A' ssrc (omega arith), (tt, tt))) in
    line_of_pieces 255 (ps ++ (qs ++ rs)) []
      (All-append (Without 13) ps (qs ++ (rs ++ ([] ∷ []))) cr
        (All-append (Without 13) qs (rs ++ ([] ∷ [])) cr' tail))
      (omega (
        arith,
        length-decimal rtp,
        length-decimal rtcp,
        length-decimal server,
        length-decimal (server + 1),
        length-hex8 b'A' ssrc,
      ))
      refl ((refl, tt), (refl, tt), (refl, tt))

base_lines : (uri : Bytes) → IsPlain (content_base uri) → AsLines (headers_text (content_base uri))
unfolding headers_text has_prefix
base_lines uri h =
    let first = codes "Content-Type: application/sdp\r\nContent-Base: " in
    let ps = first ∷ uri ∷ codes "/\r\n" ∷ [] in
    let line = codes "Content-Base: " ++ (uri ++ codes "/") in
    let cr = All-append (λ x. x ≢ 13) uri (codes "/") h.0 (has_no_cr-Without (codes "/") refl) in
    (
      codes "Content-Type: application/sdp" ∷ line ∷ [],
      print_pieces-concat 511 ps (omega (arith, length-concat ps, h.1))
          ∙ ap (λ t. first ++ t) (sym (append_assoc uri (codes "/") crlf)),
      (
        (has_no_cr-Without (codes "Content-Type: application/sdp") refl, refl),
        (
          (
            All-append (λ x. x ≢ 13) (codes "Content-Base: ") (uri ++ codes "/")
                (has_no_cr-Without (codes "Content-Base: ") refl) cr,
            refl,
          ),
          tt,
        ),
      ),
      ((refl, (refl, tt)), (refl, (refl, tt)), (refl, (refl, tt))),
    )

info_lines :
    (base : Bytes) (video audio : Stream) (back : Bool)
    → IsPlain (rtp_info base video audio back)
    → AsLines (headers_text (rtp_info base video audio back))
unfolding headers_text has_prefix
info_lines base video audio back h =
    let front = info_front base video audio back in
    let line = front ++ (info_last back ∷ []) in
    let cr = concat-Without line (
      All-append (Without 13) front (info_last back ∷ [])
        (info_front-Without base video audio back h.0) (info_last-Without back, tt)) in
    let e = info_pieces-split base video audio back in
    let text =
      print_pieces-concat 511 (info_pieces base video audio back)
        (omega (arith, length-concat (info_pieces base video audio back), h.1))
      ∙ ap concat e
      ∙ ap (λ t. info_first ++ t) (concat-last front (info_last back)) in
    (
      codes "Range: npt=0.000-" ∷ (codes "RTP-Info: url=" ++ concat line) ∷ [],
      text,
      (
        (has_no_cr-Without (codes "Range: npt=0.000-") refl, refl),
        (
          (
            All-append (λ x. x ≢ 13) (codes "RTP-Info: url=") (concat line)
                (has_no_cr-Without (codes "RTP-Info: url=") refl) cr,
            refl,
          ),
          tt,
        ),
      ),
      ((refl, (refl, tt)), (refl, (refl, tt)), (refl, (refl, tt))),
    )

-- The headers of a reply are whole lines.
pub headers_lines : (h : Headers) → IsPlain h → AsLines (headers_text h)
unfolding headers_text has_prefix
headers_lines no_headers p = ([], refl, tt, (tt, tt, tt))
headers_lines public_methods p =
    let line = codes "Public: OPTIONS, DESCRIBE, SETUP, PLAY, TEARDOWN, GET_PARAMETER" in
    (
      line ∷ [],
      refl,
      ((has_no_cr-Without line refl, refl), tt),
      ((refl, tt), (refl, tt), (refl, tt)),
    )
headers_lines (content_base uri) p = base_lines uri p
headers_lines (tcp_transport rtp rtcp ssrc) p = tcp_lines rtp rtcp ssrc
headers_lines (udp_transport rtp rtcp server ssrc) p = udp_lines rtp rtcp server ssrc
headers_lines (rtp_info base video audio back) p = info_lines base video audio back p
headers_lines (challenge text) (l, cr, e) =
    let name = codes "WWW-Authenticate: " in
    (
      (name ++ l) ∷ [],
      e,
      ((All-append (λ x. x ≢ 13) name l (has_no_cr-Without name refl) cr, refl), tt),
      ((refl, tt), (refl, tt), (refl, tt)),
    )
