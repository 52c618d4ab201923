-- ===== src/Http.antt =====
-- The HTTP server of intercom_test/src/http_server.c: static files, calls, the doorbell and what it
-- tells of the program's state.
pub mod Files
pub mod Doorbell
pub mod Calls
pub mod Nat
pub mod Router
use smart_lock_intercom.Base.{ℕ, Bool, Bytes}

-- The types that `mime_type` names.
pub data MimeType : Type 0 where
  html javascript css json icon png octet_stream : MimeType

-- What `http_reply`, `http_creply` and `http_ereply` are called with, by what varies in it.
pub data HttpReply : Type 0 where
  -- A status without a body of its own.
  ereply : ℕ → HttpReply
  not_found : HttpReply
  preflight : HttpReply
  file : MimeType → Bytes → HttpReply
  -- 429, and 200 with {"status":"ok"}.
  rate_limited accepted : HttpReply
  ringing : Bool → HttpReply
  -- 400 with {"error":"invalid peer address"}.
  invalid_peer : HttpReply
  -- 201 with the port and the peer's address, and 200 with the same or with {"active":false}.
  created : ℕ → Bytes → HttpReply
  active : ℕ → Bytes → HttpReply
  inactive : HttpReply
  nat_info : Bytes → HttpReply
