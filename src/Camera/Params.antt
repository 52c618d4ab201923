-- ===== src/Camera/Params.antt =====
-- The cached SPS and PPS of camera_win.c.
use smart_lock_intercom.Base.{
  ℕ, ◌<◌, ◌≤◌, ◌≡◌, inl, inr, true, false, ◌||◌, ◌&&◌, not, List, [], ◌∷◌, Bytes, arith, leb, ◌==◌,
  length, drop, Bool-cases,
}
use smart_lock_intercom.Camera.{
  Camera, Layer, Encoded, layer_nalus, all_nalus, cache_params, strip, max_nalus, camera_get_frame,
  camera_open, camera_close, camera_request_keyframe, Setup, cleared, nonempty, store_param,
  note_params, FrameType, frame_of,
}

-- The parameter sets fit their arrays, and both are there once `has_params` says so.
pub record HasParams (cam : Camera) : Type 0 where
  pub sps_le : length cam.sps ≤ 64
  pub pps_le : length cam.pps ≤ 64
  pub both : cam.has_params ≡ true → (0 < length cam.sps) × (0 < length cam.pps)

store_param-HasParams :
    (nal : Bytes) (cam : Camera)
    → cam.has_params ≡ false
    → HasParams cam
    → HasParams (store_param nal cam)
unfolding store_param
store_param-HasParams nal cam off h = ground arith

nonempty_pos : (b : Bytes) → nonempty b ≡ true → 0 < length b
nonempty_pos [] e = cc
nonempty_pos (x ∷ b) e = omega arith

note_params-HasParams : (cam : Camera) → HasParams cam → HasParams (note_params cam)
unfolding note_params
note_params-HasParams cam h = ground (arith, nonempty_pos cam.sps, nonempty_pos cam.pps)

cache_params-HasParams :
    (nal : Bytes) (cam : Camera) → HasParams cam → HasParams (cache_params nal cam)
unfolding cache_params
cache_params-HasParams nal cam h = elim (Bool-cases (not cam.has_params && nonempty nal)) [
  | inl go ↦
      rw go (
        note_params-HasParams (store_param nal cam)
          (store_param-HasParams nal cam (ground arith) h))
  | inr stop ↦ rw stop h
]

layer_nalus-HasParams :
    (buf : Bytes) (lens : List ℕ) (nalus : List Bytes) (cam : Camera)
    → HasParams cam
    → HasParams (layer_nalus buf lens nalus cam).1
unfolding layer_nalus
layer_nalus-HasParams buf [] nalus cam h = h
layer_nalus-HasParams buf (n ∷ lens) nalus cam h =
    elim (Bool-cases (n == 0 || leb max_nalus (length nalus))) [
      | inl passed ↦ rw passed (layer_nalus-HasParams buf lens nalus cam h)
      | inr kept ↦
          rw kept (
            layer_nalus-HasParams (drop n buf) lens _ _
              (cache_params-HasParams (strip buf n) cam h))
    ]

all_nalus-HasParams :
    (ls : List Layer) (nalus : List Bytes) (cam : Camera)
    → HasParams cam
    → HasParams (all_nalus ls nalus cam).1
unfolding all_nalus
all_nalus-HasParams [] nalus cam h = h
all_nalus-HasParams (l ∷ ls) nalus cam h =
    all_nalus-HasParams ls _ _ (layer_nalus-HasParams l.buf l.lengths nalus cam h)

-- The operations of the camera, as the other parts of the program call them.
pub data Call : Type 0 where
  opens : Setup → ℕ → ℕ → ℕ → Call
  closes : Call
  gets_frame : Encoded → Call
  requests_keyframe : Call

unfoldable pub step : Call → Camera → Camera
step (opens o w h fps) cam = (camera_open o w h fps cam).0
step closes cam = camera_close cam
step (gets_frame e) cam = (camera_get_frame e cam).0
step requests_keyframe cam = camera_request_keyframe cam

pub cleared-HasParams : HasParams cleared
cleared-HasParams = record { sps_le = omega arith; pps_le = omega arith; both = λ e. cc }

frame_of-HasParams :
    (t : FrameType) (nalus : List Bytes) (cam : Camera)
    → HasParams cam
    → HasParams (frame_of t nalus cam).0
frame_of-HasParams t [] cam h = h
frame_of-HasParams t (n ∷ nalus) cam h = record {
  sps_le = h.sps_le;
  pps_le = h.pps_le;
  both = h.both;
}

-- Every operation of the camera, whatever the encoder returns, keeps the cached SPS and PPS within
-- 64 bytes each, and offers them only when both are there and not empty.
pub step-HasParams : (c : Call) (cam : Camera) → HasParams cam → HasParams (step c cam)
unfolding step camera_open camera_close camera_get_frame
step-HasParams (opens o w hh fps) cam h = ground (arith, cleared-HasParams)
step-HasParams closes cam h = ground (arith, cleared-HasParams)
step-HasParams (gets_frame e) cam h =
    let ready = record cam { force_idr = false } in
    let ready_ok : HasParams ready = record {
      sps_le = h.sps_le;
      pps_le = h.pps_le;
      both = h.both;
    } in
    ground (
      arith,
      frame_of-HasParams e.frame_type (all_nalus e.layers [] ready).0 _
          (all_nalus-HasParams e.layers [] ready ready_ok),
    )
step-HasParams requests_keyframe cam h = record {
  sps_le = h.sps_le;
  pps_le = h.pps_le;
  both = h.both;
}
