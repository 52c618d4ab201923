-- ===== src/Rtsp/Request/Fuel.antt =====
-- The rounds of the loop over the headers in `parse_rtsp_request` of rtsp_server.c.
use smart_lock_intercom.Base.{
  ℕ, zero, suc, ◌+◌, ◌≤◌, ◌<◌, ◌≡◌, refl, ap, ◌∙◌, inl, inr, some, [], ◌∷◌, Bytes, arith, length,
  drop, length-drop, length-append, ltb, ltb→lt, le→ltb, leb, leb→le, leb_false→lt, Bool-cases,
  Option-cases,
}
use smart_lock_intercom.CString.{strstr}
use smart_lock_intercom.CString.Find.{strstr_lem}
use smart_lock_intercom.Rtsp.Request.{RtspReq, crlf, read_header, read_headers}

-- Each round leaves less of the text.
shorter :
    (line before eol : Bytes)
    → 2 < length line
    → strstr (drop 2 line) crlf ≡ some (before, eol)
    → length eol < length line
shorter line before eol h e =
    let split = (strstr_lem (drop 2 line) crlf e).0 in
    omega (arith, ap length split, length-append before eol, length-drop 2 line)

read_headers_more :
    (fuel beyond : ℕ) (line : Bytes) (req : RtspReq)
    → length line ≤ fuel
    → read_headers (suc fuel) beyond line req ≡ read_headers fuel beyond line req
unfolding read_headers
read_headers_more zero beyond [] req le = rw (le→ltb (beyond + 2) 0 (omega arith)) refl
read_headers_more zero beyond (c ∷ line) req le = elim le [ ]
read_headers_more (suc fuel) beyond line req le =
    elim (Bool-cases (ltb (beyond + 2) (length line))) [
      | inr stop ↦ rw stop refl
      | inl go ↦ elim (Option-cases (strstr (drop 2 line) crlf)) [
        | inl e ↦ rw (go, e) refl
        | inr ((before, eol), e) ↦
            let less =
              shorter line before eol (omega (arith, ltb→lt (beyond + 2) (length line) go)) e in
            rw (go, e)
              (read_headers_more fuel beyond eol (read_header (drop 2 line) eol req) (omega arith))
      ]
    ]

-- The loop over the headers gives the same result on any fuel of at least the length of the text.
pub read_headers-fuel :
    (fuel beyond : ℕ) (line : Bytes) (req : RtspReq)
    → length line ≤ fuel
    → read_headers fuel beyond line req ≡ read_headers (length line) beyond line req
read_headers-fuel zero beyond line req le = let e : length line ≡ 0 = omega arith in rw e refl
read_headers-fuel (suc fuel) beyond line req le = elim (Bool-cases (leb (length line) fuel)) [
  | inl more ↦
      let le' = leb→le (length line) fuel more in
      read_headers_more fuel beyond line req le' ∙ read_headers-fuel fuel beyond line req le'
  | inr all ↦
      let e : length line ≡ suc fuel = omega (arith, leb_false→lt (length line) fuel all) in
      rw e refl
]
