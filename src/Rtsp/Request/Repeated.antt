-- ===== src/Rtsp/Request/Repeated.antt =====
-- A header that stands twice in a request to rtsp_server.c.
use smart_lock_intercom.Base.{
  sym, List, All, if_intro, false, ℕ, zero, suc, ◌≤◌, ◌≡◌, refl, ap, ◌∙◌, [], ◌∷◌, ◌++◌, append-nil,
  Bytes, length, take, drop, take-all,
}
use smart_lock_intercom.CString.{codes, has_prefix_nocase, to_lower, skip_spaces}
use smart_lock_intercom.Rtsp.Request.{RtspReq, cleared, overwrite, parse_rtsp_request}
use smart_lock_intercom.Rtsp.Request.Line.{Without, lines_text, line_sets, fold_lines}
use smart_lock_intercom.Rtsp.Request.Lines.{request_text, parse_rtsp_request-lines}

abbrev pub session_line : Bytes → Bytes
session_line value = codes "Session: " ++ value

line_sets-session_line :
    (value eol : Bytes) (req : RtspReq)
    → skip_spaces value ≡ value
    → line_sets (session_line value) eol req
      ≡ record req { session = overwrite 32 req.session value }
unfolding line_sets has_prefix_nocase to_lower skip_spaces
line_sets-session_line value eol req h =
    ap (λ (v : Bytes). record req { session = overwrite 32 req.session v }) h

abbrev session_of : RtspReq → Bytes
session_of r = r.session

drop-nil : (n : ℕ) → drop {A = ℕ} n [] ≡ []
drop-nil zero = refl
drop-nil (suc n) = refl

overwrite-nil : (v : Bytes) → length v ≤ 31 → overwrite 32 [] v ≡ v
unfolding overwrite
overwrite-nil v le = rw (take-all 31 v le, drop-nil (length v)) (append-nil v)

overwrite_short : (old v : Bytes) → length v ≤ 31 → overwrite 32 old v ≡ v ++ drop (length v) old
unfolding overwrite
overwrite_short old v le = rw (take-all 31 v le) refl

-- A line that is no Session header.
abbrev pub NotSession : Bytes → Type 0
NotSession l = has_prefix_nocase l (codes "Session:") ≡ false

line_sets_other :
    (l eol : Bytes) (req : RtspReq)
    → NotSession l
    → session_of (line_sets l eol req) ≡ session_of req
unfolding line_sets
line_sets_other l eol req h =
    let P = λ (r : RtspReq). session_of r ≡ session_of req in
    if_intro P (has_prefix_nocase l (codes "CSeq:")) (λ _. refl)
      (λ _.
        if_intro P (has_prefix_nocase l (codes "Transport:")) (λ _. refl)
          (λ _.
            if_intro P (has_prefix_nocase l (codes "Session:")) (λ k. cc)
              (λ _.
                if_intro P (has_prefix_nocase l (codes "Authorization:")) (λ _. refl) (λ _. refl))))

-- Other lines lead to a request with the same session.
fold_lines_past :
    (ls ms : List Bytes) (rest : Bytes) (req : RtspReq)
    → All NotSession ls
    → (past : RtspReq) × (fold_lines (ls ++ ms) rest req ≡ fold_lines ms rest past)
      × (session_of past ≡ session_of req)
unfolding fold_lines
fold_lines_past [] ms rest req h = (req, refl, refl)
fold_lines_past (l ∷ ls) ms rest req h =
    let eol = lines_text (ls ++ ms) ++ rest in
    let (past, e, same) = fold_lines_past ls ms rest (line_sets l eol req) h.1 in
    (past, e, same ∙ line_sets_other l eol req h.0)

fold_lines_session :
    (value : Bytes) (ls : List Bytes) (rest : Bytes) (req : RtspReq)
    → skip_spaces value ≡ value
    → (past : RtspReq) × (fold_lines (session_line value ∷ ls) rest req ≡ fold_lines ls rest past)
      × (session_of past ≡ overwrite 32 (session_of req) value)
unfolding fold_lines
fold_lines_session value ls rest req trim =
    let eol = lines_text ls ++ rest in
    (
      line_sets (session_line value) eol req,
      refl,
      ap session_of (line_sets-session_line value eol req trim),
    )

-- A request whose header lines are these.
abbrev pub two_sessions : List Bytes → Bytes → List Bytes → Bytes → List Bytes → List Bytes
two_sessions before first between second behind =
    before ++ (session_line first ∷ (between ++ (session_line second ∷ behind)))

fold_lines-two_sessions :
    (before between behind : List Bytes) (first second rest : Bytes) (req : RtspReq)
    → All NotSession before
    → All NotSession between
    → All NotSession behind
    → skip_spaces first ≡ first
    → skip_spaces second ≡ second
    → session_of (fold_lines (two_sessions before first between second behind) rest req)
      ≡ overwrite 32 (overwrite 32 (session_of req) first) second
unfolding fold_lines
fold_lines-two_sessions before between behind first second rest req b m a trim trim' =
    let tail = session_line second ∷ behind in
    let (r, e, s) = fold_lines_past before (session_line first ∷ (between ++ tail)) rest req b in
    let (r1, e1, s1) = fold_lines_session first (between ++ tail) rest r trim in
    let (r2, e2, s2) = fold_lines_past between tail rest r1 m in
    let (r3, e3, s3) = fold_lines_session second behind rest r2 trim' in
    let (r4, e4, s4) = fold_lines_past behind [] rest r3 a in
    let last = ap (λ ls. fold_lines ls rest r3) (sym (append-nil behind)) ∙ e4 in
    ap session_of (e ∙ e1 ∙ e2 ∙ e3 ∙ last)
    ∙ s4
    ∙ s3
    ∙ ap (λ (old : Bytes). overwrite 32 old second)
        (s2 ∙ s1 ∙ ap (λ (old : Bytes). overwrite 32 old first) s)

-- When a request has two Session headers, among whatever other headers, the one that counts is made
-- of the second value and of the end of the first one, as far as this is the longer of the two:
-- neither value is taken whole then. The request line has a method and a URI without a blank, and
-- no line holds a CR; the values start with no blank and have at most 31 bytes.
pub parse_rtsp_request_repeated :
    (method uri version : Bytes) (before between behind : List Bytes) (first second rest : Bytes)
    → Without b' ' method
    → Without b' ' uri
    → Without 13 (method ++ (b' ' ∷ (uri ++ (b' ' ∷ version))))
    → All (Without 13) (two_sessions before first between second behind)
    → All NotSession before
    → All NotSession between
    → All NotSession behind
    → skip_spaces first ≡ first
    → skip_spaces second ≡ second
    → length first ≤ 31
    → length second ≤ 31
    → let text =
        request_text method uri version (two_sessions before first between second behind) in
      (parse_rtsp_request (text ++ rest) (length text)).session
      ≡ second ++ drop (length second) first
parse_rtsp_request_repeated method uri version before between behind first second rest m u line cr b
      t a trim trim' short short' =
    let ls = two_sessions before first between second behind in
    let start : RtspReq = record cleared { method = take 15 method; uri = take 255 uri } in
    ap session_of (parse_rtsp_request-lines method uri version ls rest m u line cr)
    ∙ fold_lines-two_sessions before between behind first second rest start b t a trim trim'
    ∙ ap (λ (old : Bytes). overwrite 32 old second) (overwrite-nil first short)
    ∙ overwrite_short first second short'
