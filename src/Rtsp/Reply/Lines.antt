-- ===== src/Rtsp/Reply/Lines.antt =====
-- The header lines of the replies of rtsp_server.c.
use smart_lock_intercom.Base.{
  ℕ, ◌≤◌, ◌==◌, ◌&&◌, ◌≡◌, ◌≢◌, refl, sym, ap, ◌∙◌, not, Bool, true, false, List, [], ◌∷◌, ◌++◌,
  append_assoc, append-nil, Bytes, arith, if◌then◌else◌, length, All, All-append,
}
use smart_lock_intercom.CString.{codes}
use smart_lock_intercom.Libre.{concat, print_pieces, decimal}
use smart_lock_intercom.Libre.Whole.{total, length-concat, print_pieces-concat}
use smart_lock_intercom.Libre.Digits.{decimal-no_cr}
use smart_lock_intercom.Rtp.{Stream}
use smart_lock_intercom.Rtsp.Request.{crlf}
use smart_lock_intercom.Rtsp.Request.Line.{Without}
use smart_lock_intercom.Rtsp.State.{Headers, content_base, rtp_info, challenge}
use smart_lock_intercom.Rtsp.Reply.{info_pieces}
use smart_lock_intercom.Rtsp.Reply.Reader.{unlines, IsLine, NoField}

abbrev pub has_no_cr : Bytes → Bool
has_no_cr [] = true
has_no_cr (x ∷ s) = not (x == 13) && has_no_cr s

-- For a literal, by computation.
pub has_no_cr-Without : (s : Bytes) → has_no_cr s ≡ true → Without 13 s
has_no_cr-Without [] h = tt
has_no_cr-Without (x ∷ s) h = ((λ e. ground (arith, h, e)), has_no_cr-Without s (ground (arith, h)))

pub concat-Without : (ps : List Bytes) → All (Without 13) ps → Without 13 (concat ps)
concat-Without [] h = tt
concat-Without (p ∷ ps) h = All-append (λ x. x ≢ 13) p (concat ps) h.0 (concat-Without ps h.1)

-- The CR LF of the last piece ends the text.
pub concat-last :
    (ps : List Bytes) (p : Bytes)
    → concat (ps ++ ((p ++ crlf) ∷ [])) ≡ concat (ps ++ (p ∷ [])) ++ crlf
concat-last [] p = append-nil (p ++ crlf) ∙ ap (λ q. q ++ crlf) (sym (append-nil p))
concat-last (q ∷ ps) p =
    ap (λ t. q ++ t) (concat-last ps p) ∙ sym (append_assoc q (concat (ps ++ (p ∷ []))) crlf)

-- The pieces of a header's format fit the array, hold no CR, and make one line with the CR LF.
pub whole_line :
    (room : ℕ) (ps : List Bytes) (p : Bytes)
    → total (ps ++ ((p ++ crlf) ∷ [])) ≤ room
    → print_pieces room (ps ++ ((p ++ crlf) ∷ [])) ≡ unlines (concat (ps ++ (p ∷ [])) ∷ [])
whole_line room ps p le =
    print_pieces-concat room (ps ++ ((p ++ crlf) ∷ []))
      (omega (arith, length-concat (ps ++ ((p ++ crlf) ∷ []))))
    ∙ concat-last ps p

-- What the handlers put into a header is such that the header is whole: no CR in the texts, and
-- the numbers of the media and the URIs fit the array.
abbrev pub IsPlain : Headers → Type 0
IsPlain (content_base uri) = Without 13 uri × (length uri ≤ 255)
IsPlain (rtp_info base video audio back) =
    Without 13 base × (total (info_pieces base video audio back) ≤ 511)
IsPlain (challenge text) =
    (l : Bytes) × Without 13 l × (text ≡ codes "WWW-Authenticate: " ++ (l ++ crlf))
IsPlain _ = Unit

-- None of the lines is a header that the client looks for.
abbrev pub NoFields : List Bytes → Type 0
NoFields ls =
    NoField (codes "CSeq: ") ls
    × NoField (codes "Session: ") ls
    × NoField (codes "Content-Length: ") ls

abbrev pub AsLines : Bytes → Type 0
AsLines text = (ls : List Bytes) × (text ≡ unlines ls) × All IsLine ls × NoFields ls

-- The text between the first piece of RTP-Info and its CR LF.
abbrev pub info_front : Bytes → Stream → Stream → Bool → List Bytes
info_front base video audio back =
    base
    ∷ codes "/trackID=0;seq="
    ∷ decimal video.seq
    ∷ codes ";rtptime="
    ∷ decimal video.ts
    ∷ codes ",url="
    ∷ base
    ∷ codes "/trackID=1;seq="
    ∷ decimal audio.seq
    ∷ codes ";rtptime="
    ∷ decimal audio.ts
    ∷ (if back then codes ",url=" ∷ base ∷ [] else [])

abbrev pub info_last : Bool → Bytes
info_last back = if back then codes "/trackID=2;seq=0;rtptime=0" else []

abbrev pub info_first : Bytes
info_first = codes "Range: npt=0.000-\r\nRTP-Info: url="

pub info_pieces-split :
    (base : Bytes) (video audio : Stream) (back : Bool)
    → info_pieces base video audio back
      ≡ info_first ∷ (info_front base video audio back ++ ((info_last back ++ crlf) ∷ []))
info_pieces-split base video audio true = refl
info_pieces-split base video audio false = refl

pub info_front-Without :
    (base : Bytes) (video audio : Stream) (back : Bool)
    → Without 13 base
    → All (Without 13) (info_front base video audio back)
info_front-Without base video audio back h =
    let seq = has_no_cr-Without (codes "/trackID=0;seq=") refl in
    let seq' = has_no_cr-Without (codes "/trackID=1;seq=") refl in
    let url = has_no_cr-Without (codes ",url=") refl in
    let time = has_no_cr-Without (codes ";rtptime=") refl in
    let v = decimal-no_cr video.seq in
    let t = decimal-no_cr video.ts in
    let a = decimal-no_cr audio.seq in
    let u = decimal-no_cr audio.ts in
    (h, (seq, (v, (time, (t, (url, (h, (seq', (a, (time, (u, more back)))))))))))
  where
    more : (b : Bool) → All (Without 13) (if b then codes ",url=" ∷ base ∷ [] else [])
    more true = (has_no_cr-Without (codes ",url=") refl, (h, tt))
    more false = tt

pub info_last-Without : (back : Bool) → Without 13 (info_last back)
info_last-Without true = has_no_cr-Without (info_last true) refl
info_last-Without false = tt
