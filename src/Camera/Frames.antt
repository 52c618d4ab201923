-- ===== src/Camera/Frames.antt =====
-- The NAL units of a frame of camera_win.c.
use smart_lock_intercom.Base.{
  ℕ, ◌+◌, ◌-◌, ◌≤◌, ◌≡◌, ◌≢◌, refl, sym, ap, ◌∙◌, inl, inr, true, false, ◌||◌, List, [], ◌∷◌, ◌++◌,
  append_assoc, append-nil, Bytes, Option, some, arith, leb, ◌==◌, length, drop, map, Bool-cases,
  length-append, take-append, drop-append,
}
use smart_lock_intercom.Status.{Status, success}
use smart_lock_intercom.CString.{has_prefix}
use smart_lock_intercom.Camera.{
  Camera, Layer, layer_nalus, all_nalus, cache_params, start_code, strip, max_nalus, Encoded,
  FrameType, skipped, CameraFrame, is_idr, is_skip, camera_get_frame,
}

layer_nalus-le :
    (buf : Bytes) (lens : List ℕ) (nalus : List Bytes) (cam : Camera)
    → length nalus ≤ max_nalus
    → length (layer_nalus buf lens nalus cam).0 ≤ max_nalus
unfolding layer_nalus
layer_nalus-le buf [] nalus cam le = le
layer_nalus-le buf (n ∷ lens) nalus cam le =
    elim (Bool-cases (n == 0 || leb max_nalus (length nalus))) [
      | inl passed ↦ rw passed (layer_nalus-le buf lens nalus cam le)
      | inr kept ↦ rw kept (
          layer_nalus-le (drop n buf) lens _ _
            (let more = length-append nalus (strip buf n ∷ []) in ground arith))
    ]

-- However many layers and NAL units the encoder gives, no more than 32 are kept.
pub all_nalus-le :
    (ls : List Layer) (nalus : List Bytes) (cam : Camera)
    → length nalus ≤ max_nalus
    → length (all_nalus ls nalus cam).0 ≤ max_nalus
unfolding all_nalus
all_nalus-le [] nalus cam le = le
all_nalus-le (l ∷ ls) nalus cam le =
    all_nalus-le ls _ _ (layer_nalus-le l.buf l.lengths nalus cam le)

-- A NAL unit behind a start code of four bytes, as OpenH264 writes it.
abbrev pub annex_b : Bytes → Bytes
annex_b nal = 0 ∷ 0 ∷ 0 ∷ 1 ∷ nal

abbrev pub stream : List Bytes → Bytes
stream [] = []
stream (n ∷ ns) = annex_b n ++ stream ns

start_code-annex_b :
    (nal rest : Bytes) → start_code (annex_b nal ++ rest) (length (annex_b nal)) ≡ 4
unfolding start_code has_prefix
start_code-annex_b nal rest = ground arith

strip-annex_b : (nal rest : Bytes) → strip (annex_b nal ++ rest) (length (annex_b nal)) ≡ nal
strip-annex_b nal rest =
    let e : length (annex_b nal) - 4 ≡ length nal = omega arith in
    rw (start_code-annex_b nal rest, e) (take-append nal rest)

abbrev pub annex_lengths : List Bytes → List ℕ
annex_lengths = map (λ n. length (annex_b n))

layer_nalus-stream :
    (ns nalus : List Bytes) (cam : Camera)
    → length nalus + length ns ≤ max_nalus
    → (layer_nalus (stream ns) (annex_lengths ns) nalus cam).0 ≡ nalus ++ ns
unfolding layer_nalus
layer_nalus-stream [] nalus cam le = sym (append-nil nalus)
layer_nalus-stream (n ∷ ns) nalus cam le =
    let go : (length (annex_b n) == 0 || leb max_nalus (length nalus)) ≡ false = ground arith in
    rw (go, strip-annex_b n (stream ns), drop-append (annex_b n) (stream ns))
      (layer_nalus-stream ns (nalus ++ (n ∷ [])) (cache_params n cam)
          (omega (arith, length-append nalus (n ∷ [])))
        ∙ append_assoc nalus (n ∷ []) ns)

abbrev pub concat : List (List Bytes) → List Bytes
concat [] = []
concat (ns ∷ nss) = ns ++ concat nss

abbrev pub annex_layer : List Bytes → Layer
annex_layer ns = record { buf = stream ns; lengths = annex_lengths ns }

all_nalus-annex_layer :
    (nss : List (List Bytes)) (nalus : List Bytes) (cam : Camera)
    → length nalus + length (concat nss) ≤ max_nalus
    → (all_nalus (map annex_layer nss) nalus cam).0 ≡ nalus ++ concat nss
unfolding all_nalus
all_nalus-annex_layer [] nalus cam le = sym (append-nil nalus)
all_nalus-annex_layer (ns ∷ nss) nalus cam le =
    let split = length-append ns (concat nss) in
    let first = layer_nalus-stream ns nalus cam (omega arith) in
    all_nalus-annex_layer nss _ _ (rw first (omega (arith, length-append nalus ns)))
    ∙ ap (λ t. t ++ concat nss) first
    ∙ append_assoc nalus ns (concat nss)

-- What the receiver of a frame is told.
abbrev pub result_of : Camera × Status × Option CameraFrame → Status × Option CameraFrame
result_of r = (r.1, r.2)

is_skip-ne : (t : FrameType) → t ≢ skipped → is_skip t ≡ false
is_skip-ne skipped h = absurd (h refl)
is_skip-ne t h = refl

-- When the encoder gives layers of NAL units behind start codes of four bytes, 1 to 32 in all, an
-- open camera returns just these units, in order, without their start codes. The frame says
-- whether it is an IDR frame. The encoder does not say that it skipped the frame.
pub camera_get_frame-annex_layer :
    (n : Bytes) (nss : List (List Bytes)) (ns : List Bytes) (t : FrameType) (cam : Camera)
    → cam.opened ≡ true
    → t ≢ skipped
    → concat nss ≡ n ∷ ns
    → length (n ∷ ns) ≤ max_nalus
    → let e : Encoded = record { encodes = true; frame_type = t; layers = map annex_layer nss } in
      (result_of (camera_get_frame e cam)
        ≡ (success, some (record { nalus = concat nss; is_keyframe = is_idr t })))
unfolding camera_get_frame
camera_get_frame-annex_layer n nss ns t cam on go e le =
    let got =
      all_nalus-annex_layer nss [] (record cam { force_idr = false; opened = true })
        (rw e (omega arith)) in
    rw (on, is_skip-ne t go, got, e) refl
