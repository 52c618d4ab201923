-- ===== src/Rtsp/Handlers/Describe.antt =====
-- `handle_options` and `handle_describe` of rtsp_server.c.
use smart_lock_intercom.Base.{Bool, true, false, Option, some, none, List, Bytes, if◌then◌else◌}
use smart_lock_intercom.Status.{is_ok}
use smart_lock_intercom.Camera.{
  camera_open, camera_request_keyframe, camera_get_frame, camera_get_sps_pps,
}
use smart_lock_intercom.Rtsp.Media.{camera_failed}
use smart_lock_intercom.Rtsp.Request.{RtspReq}
use smart_lock_intercom.Rtsp.State.{
  RtspClient, World, Answers, Output, public_methods, content_base, no_body, sdp, rtsp_reply,
}

unfoldable pub handle_options : Answers → RtspReq → RtspClient → List Output
handle_options ans req c = rtsp_reply ans c req.cseq 200 public_methods no_body

-- Open the camera if need be, and encode one frame to learn SPS and PPS.
unfoldable pub learn_params : Answers → World → World
learn_params ans w =
    let r = camera_open ans.camera_setup 320 240 15 w.camera in
    let encoded = (camera_get_frame ans.encoded (camera_request_keyframe r.0)).0 in
    let camera = if camera_failed r.1 then r.0 else encoded in
    record w { camera = camera; camera_opened = if is_ok r.1 then true else w.camera_opened }

abbrev pub params_known : Option (Bytes × Bytes) → Bool
params_known none = false
params_known (some p) = true

-- The Base64 text of SPS and PPS fits its buffers, since each of them has 64 bytes at most.
unfoldable pub handle_describe : Answers → RtspReq → RtspClient → World → World × List Output
handle_describe ans req c w =
    let v = if params_known (camera_get_sps_pps w.camera) then w else learn_params ans w in
    (
      v,
      rtsp_reply ans c req.cseq 200 (content_base req.uri)
          (sdp v.local_ip (camera_get_sps_pps v.camera)),
    )
