-- ===== src/Tests/Media.antt =====
-- Runs of the packetiser, the camera, the microphone and the speaker.
use smart_lock_intercom.Base.{
  ◌≡◌, refl, true, some, List, [], ◌∷◌, ◌++◌, Bytes, map, take, drop, replicate, arith,
}
use smart_lock_intercom.Base.Int.{pos, negsuc}
use smart_lock_intercom.Status.{success}
use smart_lock_intercom.Camera.{Camera, idr, camera_get_frame, cleared}
use smart_lock_intercom.Camera.Frames.{annex_layer, result_of, camera_get_frame-annex_layer}
use smart_lock_intercom.AudioIn.{amplify, enqueue_to_ring, audio_in_read}
use smart_lock_intercom.AudioIn.Ring.{IsValid, contents}
use smart_lock_intercom.AudioIn.Queue.{newest, contents-enqueue_to_ring, audio_in_read_lem}
use smart_lock_intercom.Tests.Data.{mic}

abbrev rest : Bytes
rest = replicate 1300 1

abbrev on : Camera
on = record cleared { opened = true }

abbrev units : List Bytes
units = (0x67 ∷ 1 ∷ []) ∷ (0x68 ∷ 2 ∷ []) ∷ []

camera_get_frame-annex_layer_example :
    result_of (
      camera_get_frame
        (record { encodes = true; frame_type = idr; layers = map annex_layer (units ∷ []) })
        on)
    ≡ (success, some (record { nalus = units; is_keyframe = true }))
camera_get_frame-annex_layer_example =
    camera_get_frame-annex_layer (0x67 ∷ 1 ∷ []) (units ∷ []) ((0x68 ∷ 2 ∷ []) ∷ []) idr on refl
      (λ e. cc e) refl (omega arith)

mic-IsValid : IsValid mic
mic-IsValid = record { wr_lt = omega arith; rd_lt = omega arith }

contents-enqueue_to_ring_example :
    contents (enqueue_to_ring (λ k. 0) (pos 5 ∷ negsuc 4000 ∷ []) mic)
    ≡ newest (contents mic ++ map amplify (pos 5 ∷ negsuc 4000 ∷ []))
contents-enqueue_to_ring_example =
    contents-enqueue_to_ring (λ k. 0) (pos 5 ∷ negsuc 4000 ∷ []) mic mic-IsValid

audio_in_read_lem_example :
    ((audio_in_read 2 mic).0 ≡ take 2 (contents mic))
    × (contents (audio_in_read 2 mic).1 ≡ drop 2 (contents mic))
audio_in_read_lem_example = audio_in_read_lem 2 mic mic-IsValid
