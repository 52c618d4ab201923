-- ===== src/Rtsp/Request/Bounds.antt =====
-- The sizes of the arrays of `struct rtsp_req`, over a whole request.
use smart_lock_intercom.Base.{
  ℕ, zero, suc, ◌+◌, ◌-◌, ◌<◌, inl, inr, Bytes, arith, ltb, length, take, drop, Bool-cases,
  Option-cases, length-append, length-take, length-drop,
}
use smart_lock_intercom.CString.{strstr, strchr}
use smart_lock_intercom.Rtsp.Request.{
  RtspReq, crlf, overwrite, read_header, read_headers, headers_of, parse_rtsp_request, header_value,
}

-- Every array has room for its NUL.
pub record Fits (r : RtspReq) : Type 0 where
  pub method_lt : length r.method < 16
  pub uri_lt : length r.uri < 256
  pub transport_lt : length r.transport < 256
  pub session_lt : length r.session < 32
  pub authorization_lt : length r.authorization < 512

overwrite-lt : (sz : ℕ) (old value : Bytes) → length old < sz → length (overwrite sz old value) < sz
unfolding overwrite
overwrite-lt sz old value lt =
    let new = take (sz - 1) value in
    omega (
      arith,
      length-append new (drop (length new) old),
      length-take (sz - 1) value,
      length-drop (length new) old,
    )

read_header-Fits : (line eol : Bytes) (r : RtspReq) → Fits r → Fits (read_header line eol r)
unfolding read_header
read_header-Fits line eol r f = ground (
  arith,
  overwrite-lt 256 r.transport (header_value 10 line eol),
  overwrite-lt 32 r.session (header_value 8 line eol),
  overwrite-lt 512 r.authorization (header_value 14 line eol),
)

read_headers-Fits :
    (fuel beyond : ℕ) (line : Bytes) (r : RtspReq) → Fits r → Fits (read_headers fuel beyond line r)
unfolding read_headers
read_headers-Fits zero beyond line r f = f
read_headers-Fits (suc fuel) beyond line r f = elim (Bool-cases (ltb (beyond + 2) (length line))) [
  | inr done ↦ rw done f
  | inl more ↦ elim (Option-cases (strstr (drop 2 line) crlf)) [
    | inl e ↦ rw (more, e) f
    | inr ((before, eol), e) ↦
        rw (more, e) (read_headers-Fits fuel beyond eol _ (read_header-Fits (drop 2 line) eol r f))
  ]
]

headers_of-Fits : (text : Bytes) (len : ℕ) (r : RtspReq) → Fits r → Fits (headers_of text len r)
unfolding headers_of
headers_of-Fits text len r f = elim (Option-cases (strstr text crlf)) [
  | inl e ↦ rw (e, headers_of) f
  | inr ((before, line), e) ↦
      rw (e, headers_of) (read_headers-Fits (length text) (length text - len) line r f)
]

-- Whatever bytes a client sends, each field of the parsed request fits its array with a NUL behind
-- it: the method in 16 bytes, the URI and the transport in 256, the session in 32 and the
-- authorization in 512.
pub parse_rtsp_request-Fits : (text : Bytes) (len : ℕ) → Fits (parse_rtsp_request text len)
unfolding parse_rtsp_request
parse_rtsp_request-Fits text len = elim (Option-cases (strchr (take len text) b' ')) [
  | inl e ↦ rw (e, parse_rtsp_request) (omega arith)
  | inr ((method, sp1), e) ↦
      rw (e, parse_rtsp_request)
        (elim (Option-cases (strchr (drop 1 sp1) b' ')) [
          | inl e' ↦ rw e' (omega (arith, length-take 15 method))
          | inr ((uri, sp2), e') ↦ rw e' (
              headers_of-Fits text len _
                (omega (arith, length-take 15 method, length-take 255 uri)))
        ])
]
