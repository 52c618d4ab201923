-- ===== src/Rtsp/Reply/Sdp.antt =====
-- The SDP of `handle_describe` and the arrays that it is printed into.
use smart_lock_intercom.Base.{
  ◌+◌, ◌*◌, ◌/◌, ◌≤◌, ◌≡◌, refl, Option, some, none, List, [], ◌∷◌, Bytes, arith, length, if_intro,
}
use smart_lock_intercom.CString.{codes}
use smart_lock_intercom.Libre.{concat}
use smart_lock_intercom.Libre.Digits.{length-decimal}
use smart_lock_intercom.Libre.Whole.{total, length-concat, print_pieces-concat}
use smart_lock_intercom.Camera.{Camera, camera_get_sps_pps}
use smart_lock_intercom.Camera.Params.{HasParams}
use smart_lock_intercom.Rtp.{pt_h264, pt_pcmu}
use smart_lock_intercom.Rtsp.State.{sdp}
use smart_lock_intercom.Rtsp.Reply.{audio_ptime, sprop, sdp_pieces, body_text}

module _ (base64 : Bytes → Bytes)
    (size : (s : Bytes) → length (base64 s) ≤ (length s + 2) / 3 * 4) where
  abbrev sprop_pieces : Bytes × Bytes → List Bytes
  sprop_pieces (sps, pps) =
      codes ";sprop-parameter-sets=" ∷ base64 sps ∷ codes "," ∷ base64 pps ∷ []

  -- `sprop` without an array.
  abbrev pub all_sprop : Option (Bytes × Bytes) → Bytes
  all_sprop none = []
  all_sprop (some p) = concat (sprop_pieces p)

  abbrev Fit : Option (Bytes × Bytes) → Type 0
  Fit none = Unit
  Fit (some (sps, pps)) = (length sps ≤ 64) × (length pps ≤ 64)

  sprop-whole :
      (p : Option (Bytes × Bytes))
      → Fit p
      → (sprop base64 p ≡ all_sprop p) × (length (all_sprop p) ≤ 199)
  unfolding sprop
  sprop-whole none h = (refl, omega arith)
  sprop-whole (some (sps, pps)) h =
      let ps = sprop_pieces (sps, pps) in
      let fits : total ps ≤ 199 = omega (arith, size sps, size pps, h.0, h.1) in
      (
        print_pieces-concat 255 ps (omega (arith, length-concat ps, fits)),
        omega (arith, length-concat ps, fits),
      )

  params-Fit : (cam : Camera) → HasParams cam → Fit (camera_get_sps_pps cam)
  params-Fit cam h = if_intro Fit cam.has_params (λ _. (h.sps_le, h.pps_le)) (λ _. tt)

  -- The SDP fits its array of 2048 bytes whole, and the parameter sets fit the one of 256 bytes, if
  -- the server's address fits its array and the camera's parameter sets fit theirs.
  pub sdp-whole :
      (cam : Camera) (local_ip : Bytes)
      → HasParams cam
      → length local_ip ≤ 63
      → let params = camera_get_sps_pps cam in
        (body_text base64 (sdp local_ip params) ≡ concat (sdp_pieces base64 local_ip params))
        × (sprop base64 params ≡ all_sprop params)
  unfolding body_text
  sdp-whole cam local_ip valid h =
      let params = camera_get_sps_pps cam in
      let (whole, small) = sprop-whole params (params-Fit cam valid) in
      let ps = sdp_pieces base64 local_ip params in
      let short : length (sprop base64 params) ≤ 199 = rw whole small in
      let fits : length (concat ps) ≤ 2047 = omega (
        arith,
        length-concat ps,
        short,
        h,
        length-decimal pt_h264,
        length-decimal pt_pcmu,
        length-decimal audio_ptime,
      ) in
      (print_pieces-concat 2047 ps fits, whole)
