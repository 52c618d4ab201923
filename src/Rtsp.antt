-- ===== src/Rtsp.antt =====
-- intercom_test/src/rtsp_server.c.
pub mod Request
pub mod Transport
pub mod Interleaved
pub mod State
pub mod Reply
pub mod Media
pub mod Handlers
pub mod Dispatch
pub mod Receive
pub mod Server
pub mod Invariant
