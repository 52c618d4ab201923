-- ===== src/Rtsp/Request.antt =====
-- `parse_rtsp_request` of rtsp_server.c. The text runs from `buf` to its NUL, and `len` bytes of it
-- are the request.
pub mod Bounds
pub mod Line
pub mod Lines
pub mod Repeated
pub mod Fuel
use smart_lock_intercom.Base.{
  ℕ, zero, suc, ◌+◌, ◌-◌, Bool, true, false, ◌&&◌, Option, some, none, List, [], ◌∷◌, ◌++◌, Bytes,
  ltb, if◌then◌else◌, length, take, drop,
}
use smart_lock_intercom.Base.Int.{ℤ, pos}
use smart_lock_intercom.CString.{codes, has_prefix_nocase, strstr, strchr, skip_spaces, atoi}

-- The char arrays by their contents up to the first NUL.
pub record RtspReq : Type 0 where
  pub method : Bytes
  pub uri : Bytes
  pub cseq : ℤ
  pub transport : Bytes
  pub session : Bytes
  pub authorization : Bytes

-- `memset(req, 0, sizeof(*req))`.
abbrev pub cleared : RtspReq
cleared = record {
  method = [];
  uri = [];
  cseq = pos 0;
  transport = [];
  session = [];
  authorization = [];
}

abbrev pub crlf : Bytes
crlf = 13 ∷ 10 ∷ []

-- `memcpy` of at most `sz - 1` bytes over what the array holds: no NUL is written behind them, so
-- what is left of a longer old value stays.
unfoldable pub overwrite : ℕ → Bytes → Bytes → Bytes
overwrite sz old value = let new = take (sz - 1) value in new ++ drop (length new) old

-- The value of a header: from the first byte behind the blanks up to the end of the line. The
-- difference of the pointers is not negative, since the blanks end at the CR at the latest.
abbrev pub header_value : ℕ → Bytes → Bytes → Bytes
header_value name_len line eol =
    let val = skip_spaces (drop name_len line) in take (length val - length eol) val

-- One header line; `eol` is the text from its CR on.
unfoldable pub read_header : Bytes → Bytes → RtspReq → RtspReq
read_header line eol req =
    if has_prefix_nocase line (codes "CSeq:")
    then record req { cseq = atoi (drop 5 line) }
    else if has_prefix_nocase line (codes "Transport:")
    then record req { transport = overwrite 256 req.transport (header_value 10 line eol) }
    else if has_prefix_nocase line (codes "Session:")
    then record req { session = overwrite 32 req.session (header_value 8 line eol) }
    else if has_prefix_nocase line (codes "Authorization:")
    then record req { authorization = overwrite 512 req.authorization (header_value 14 line eol) }
    else req

-- The loop over the headers; `line` is the text from a CR LF on and `beyond` the number of bytes of
-- the text behind the request, so that `line + 2 < end` is `beyond + 2 < length line`. Fuel: each
-- round goes two bytes on at least, so `length line` rounds are enough.
pub read_headers : ℕ → ℕ → Bytes → RtspReq → RtspReq
read_headers zero beyond line req = req
read_headers (suc fuel) beyond line req =
    let next = drop 2 line in
    let found = strstr next crlf in
    if ltb (beyond + 2) (length line)
    then elim found [
      | none ↦ req
      | some (before, eol) ↦ read_headers fuel beyond eol (read_header next eol req)
    ]
    else req

headers_of : Bytes → ℕ → RtspReq → RtspReq
headers_of text len req = elim (strstr text crlf) [
  | none ↦ req
  | some (before, line) ↦ read_headers (length text) (length text - len) line req
]

unfoldable pub parse_rtsp_request : Bytes → ℕ → RtspReq
unfolding headers_of
parse_rtsp_request text len = elim (strchr (take len text) b' ') [
  | none ↦ cleared
  | some (method, sp1) ↦
      let with_method = record cleared { method = take 15 method } in
      elim (strchr (drop 1 sp1) b' ') [
        | none ↦ with_method
        | some (uri, sp2) ↦ headers_of text len (record with_method { uri = take 255 uri })
      ]
]
