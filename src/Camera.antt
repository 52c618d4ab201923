-- ===== src/Camera.antt =====
-- intercom_test/src/camera_win.c: the encoder's open state, the frames that it gives and the cached
-- SPS and PPS. OpenH264 is not the repository's: what its calls return is an argument.
pub mod Frames
pub mod Params
pub mod Opened
use smart_lock_intercom.Base.{
  ℕ, zero, suc, ◌+◌, ◌-◌, ◌%◌, ◌^◌, bit_and, Bool, true, false, ◌&&◌, ◌||◌, not, List, [], ◌∷◌,
  ◌++◌, Bytes, Option, some, none, ltb, leb, ◌==◌, if◌then◌else◌, length, take, drop,
}
use smart_lock_intercom.CString.{has_prefix}
use smart_lock_intercom.Status.{Status, success, eagain, eio, enomem, einval, ealready}

abbrev pub max_nalus : ℕ
max_nalus = 32

-- `g_cam`, less the encoder and the picture buffer.
pub record Camera : Type 0 where
  pub width : ℕ
  pub height : ℕ
  pub fps : ℕ
  pub sps : Bytes
  pub pps : Bytes
  pub has_params : Bool
  pub frame_idx : ℕ
  pub force_idr : Bool
  pub opened : Bool

-- `memset(&g_cam, 0, sizeof(g_cam))`.
abbrev pub cleared : Camera
cleared = record {
  width = 0;
  height = 0;
  fps = 0;
  sps = [];
  pps = [];
  has_params = false;
  frame_idx = 0;
  force_idr = false;
  opened = false;
}

-- Whether `WelsCreateSVCEncoder`, `Initialize` and `malloc` succeed.
pub record Setup : Type 0 where
  pub creates : Bool
  pub initializes : Bool
  pub allocates : Bool

unfoldable pub camera_open : Setup → ℕ → ℕ → ℕ → Camera → Camera × Status
camera_open o width height fps cam =
    if cam.opened
    then (cam, ealready)
    else if not o.creates
    then (cleared, einval)
    else if not o.initializes
    then (cleared, einval)
    else if not o.allocates
    then (cleared, enomem)
    else (record cleared { width = width; height = height; fps = fps; opened = true }, success)

unfoldable pub camera_close : Camera → Camera
camera_close cam = if cam.opened then cleared else cam

-- One layer of the encoder's output: its buffer, and the length of each NAL unit in it with its
-- start code. (A length is an `int` there; one below 0 is passed over just as 0 is.)
pub record Layer : Type 0 where
  pub buf : Bytes
  pub lengths : List ℕ

pub data FrameType : Type 0 where
  idr predicted skipped : FrameType

-- What one call of `EncodeFrame` gives; `encodes` is `rv == 0`.
pub record Encoded : Type 0 where
  pub encodes : Bool
  pub frame_type : FrameType
  pub layers : List Layer

pub record CameraFrame : Type 0 where
  pub nalus : List Bytes
  pub is_keyframe : Bool

abbrev pub is_skip : FrameType → Bool
is_skip skipped = true
is_skip _ = false

abbrev pub is_idr : FrameType → Bool
is_idr idr = true
is_idr _ = false

-- The length of the Annex B start code at `p`.
unfoldable pub start_code : Bytes → ℕ → ℕ
start_code p nal_len =
    if leb 4 nal_len && has_prefix p (0 ∷ 0 ∷ 0 ∷ 1 ∷ [])
    then 4
    else if leb 3 nal_len && has_prefix p (0 ∷ 0 ∷ 1 ∷ [])
    then 3
    else 0

-- The NAL unit of `nal_len` bytes at `p`, without its start code.
abbrev pub strip : Bytes → ℕ → Bytes
strip p nal_len = let skip = start_code p nal_len in take (nal_len - skip) (drop skip p)

abbrev pub nonempty : Bytes → Bool
nonempty [] = false
nonempty (b ∷ bs) = true

abbrev nal_type : Bytes → ℕ
nal_type [] = 0
nal_type (b ∷ bs) = bit_and b 0x1F

-- An SPS or PPS that fits its array of 64 bytes.
unfoldable pub store_param : Bytes → Camera → Camera
store_param nal cam =
    if nal_type nal == 7 && leb (length nal) 64
    then record cam { sps = nal }
    else if nal_type nal == 8 && leb (length nal) 64
    then record cam { pps = nal }
    else cam

unfoldable pub note_params : Camera → Camera
note_params cam =
    if nonempty cam.sps && nonempty cam.pps then record cam { has_params = true } else cam

unfoldable pub cache_params : Bytes → Camera → Camera
cache_params nal cam =
    if not cam.has_params && nonempty nal then note_params (store_param nal cam) else cam

-- The inner loop: `nalus` are those found so far, `nalu_idx` of them, and `buf` is the pointer.
unfoldable pub layer_nalus : Bytes → List ℕ → List Bytes → Camera → List Bytes × Camera
layer_nalus buf [] nalus cam = (nalus, cam)
layer_nalus buf (nal_len ∷ lens) nalus cam =
    let nal = strip buf nal_len in
    let passed = layer_nalus buf lens nalus cam in
    let kept = layer_nalus (drop nal_len buf) lens (nalus ++ (nal ∷ [])) (cache_params nal cam) in
    if nal_len == 0 || leb max_nalus (length nalus) then passed else kept

-- The outer loop.
unfoldable pub all_nalus : List Layer → List Bytes → Camera → List Bytes × Camera
all_nalus [] nalus cam = (nalus, cam)
all_nalus (l ∷ ls) nalus cam = let r = layer_nalus l.buf l.lengths nalus cam in all_nalus ls r.0 r.1

abbrev pub frame_of : FrameType → List Bytes → Camera → Camera × Status × Option CameraFrame
frame_of t [] cam = (cam, eagain, none)
frame_of t nalus cam = (
  record cam { frame_idx = (cam.frame_idx + 1) % 2 ^ 32 },
  success,
  some (record { nalus = nalus; is_keyframe = is_idr t }),
)

unfoldable pub camera_get_frame : Encoded → Camera → Camera × Status × Option CameraFrame
camera_get_frame e cam =
    let ready = record cam { force_idr = false } in
    let r = all_nalus e.layers [] ready in
    if not cam.opened
    then (cam, einval, none)
    else if not e.encodes
    then (ready, eio, none)
    else if is_skip e.frame_type
    then (ready, eagain, none)
    else frame_of e.frame_type r.0 r.1

abbrev pub camera_request_keyframe : Camera → Camera
camera_request_keyframe cam = record cam { force_idr = true }

-- `EAGAIN` is `none`.
abbrev pub camera_get_sps_pps : Camera → Option (Bytes × Bytes)
camera_get_sps_pps cam = if cam.has_params then some (cam.sps, cam.pps) else none
