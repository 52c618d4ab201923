-- ===== src/Rtsp/Handlers.antt =====
-- The method handlers of rtsp_server.c and `dispatch_rtsp`.
pub mod Setup
pub mod Play
pub mod Describe
