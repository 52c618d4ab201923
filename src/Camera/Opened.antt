-- ===== src/Camera/Opened.antt =====
-- Whether the camera of camera_win.c stays open while it gives frames.
use smart_lock_intercom.Base.{
  ℕ, ◌≡◌, refl, ◌∙◌, false, ◌&&◌, ◌||◌, not, Option, List, [], ◌∷◌, Bytes, leb, ◌==◌, length, drop,
  if_intro,
}
use smart_lock_intercom.Status.{Status}
use smart_lock_intercom.Camera.{
  Camera, CameraFrame, Layer, Encoded, FrameType, layer_nalus, all_nalus, cache_params, strip,
  max_nalus, camera_get_frame, nal_type, nonempty, store_param, note_params, frame_of, is_skip,
}

module _ (nal : Bytes) (cam : Camera) where
  opened-store_param : (store_param nal cam).opened ≡ cam.opened
  unfolding store_param
  opened-store_param =
      let P = λ (c : Camera). c.opened ≡ cam.opened in
      if_intro P (nal_type nal == 7 && leb (length nal) 64) (λ _. refl)
        (λ _. if_intro P (nal_type nal == 8 && leb (length nal) 64) (λ _. refl) (λ _. refl))

  opened-note_params : (note_params cam).opened ≡ cam.opened
  unfolding note_params
  opened-note_params =
      if_intro (λ (c : Camera). c.opened ≡ cam.opened) (nonempty cam.sps && nonempty cam.pps)
        (λ _. refl) (λ _. refl)

opened-cache_params : (nal : Bytes) (cam : Camera) → (cache_params nal cam).opened ≡ cam.opened
unfolding cache_params
opened-cache_params nal cam =
    if_intro (λ (c : Camera). c.opened ≡ cam.opened) (not cam.has_params && nonempty nal)
      (λ _. opened-note_params nal (store_param nal cam) ∙ opened-store_param nal cam) (λ _. refl)

opened-layer_nalus :
    (buf : Bytes) (lens : List ℕ) (nalus : List Bytes) (cam : Camera)
    → (layer_nalus buf lens nalus cam).1.opened ≡ cam.opened
unfolding layer_nalus
opened-layer_nalus buf [] nalus cam = refl
opened-layer_nalus buf (n ∷ lens) nalus cam =
    let kept = cache_params (strip buf n) cam in
    if_intro (λ (r : List Bytes × Camera). r.1.opened ≡ cam.opened)
      (n == 0 || leb max_nalus (length nalus)) (λ _. opened-layer_nalus buf lens nalus cam)
      (λ _. opened-layer_nalus (drop n buf) lens _ kept ∙ opened-cache_params (strip buf n) cam)

opened-all_nalus :
    (ls : List Layer) (nalus : List Bytes) (cam : Camera)
    → (all_nalus ls nalus cam).1.opened ≡ cam.opened
unfolding all_nalus
opened-all_nalus [] nalus cam = refl
opened-all_nalus (l ∷ ls) nalus cam =
    let r = layer_nalus l.buf l.lengths nalus cam in
    opened-all_nalus ls r.0 r.1 ∙ opened-layer_nalus l.buf l.lengths nalus cam

opened-frame_of :
    (t : FrameType) (nalus : List Bytes) (cam : Camera)
    → (frame_of t nalus cam).0.opened ≡ cam.opened
opened-frame_of t [] cam = refl
opened-frame_of t (n ∷ ns) cam = refl

pub opened-camera_get_frame :
    (e : Encoded) (cam : Camera) → (camera_get_frame e cam).0.opened ≡ cam.opened
unfolding camera_get_frame
opened-camera_get_frame e cam =
    let P = λ (r : Camera × Status × Option CameraFrame). r.0.opened ≡ cam.opened in
    let r = all_nalus e.layers [] (record cam { force_idr = false }) in
    if_intro P (not cam.opened) (λ _. refl)
      (λ _.
        if_intro P (not e.encodes) (λ _. refl)
          (λ _.
            if_intro P (is_skip e.frame_type) (λ _. refl)
              (λ _.
                opened-frame_of e.frame_type r.0 r.1
                ∙ opened-all_nalus e.layers [] (record cam { force_idr = false }))))
