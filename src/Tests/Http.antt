-- ===== src/Tests/Http.antt =====
-- Runs of the static files and of the doorbell of http_server.c.
use smart_lock_intercom.Base.{
  ◌≡◌, refl, ap, inl, inr, true, false, Option, some, none, List, [], ◌∷◌, Bytes, arith, Bool-cases,
  if◌then◌else◌, drop, ◌++◌,
}
use smart_lock_intercom.Base.Int.{pos}
use smart_lock_intercom.CString.{codes, str_eq}
use smart_lock_intercom.CString.Equality.{str_eq_iff}
use smart_lock_intercom.Status.{success}
use smart_lock_intercom.Http.Files.{OpenFile, get_static}
use smart_lock_intercom.Http.Files.Confined.{Agree, get_static-confined}
use smart_lock_intercom.Http.Doorbell.{Doorbell, handle_doorbell_trigger, handle_doorbell_status}
use smart_lock_intercom.Http.Doorbell.Rings.{
  Event, trigger, status, Spaced, ring_times, ring_times-Spaced,
}

abbrev secret : Bytes
secret = codes "www/../key"

abbrev page : OpenFile
page = record { size = pos 2; allocated = true; contents = codes "hi" }

abbrev disk : Bytes → Option OpenFile
disk p = some page

-- The same disk without the file beside the directory.
abbrev safe_disk : Bytes → Option OpenFile
safe_disk p = if str_eq p secret then none else disk p

disks-Agree : Agree (codes "www") disk safe_disk
disks-Agree name inside = elim (Bool-cases (str_eq (codes "www" ++ (codes "/" ++ name)) secret)) [
  | inl e ↦
      let same : codes "www" ++ (codes "/" ++ name) ≡ secret =
        (str_eq_iff (codes "www" ++ (codes "/" ++ name)) secret).0 e in
      absurd (inside.no_parent [] (codes "/key") (ap (drop 4) same))
  | inr e ↦ rw e refl
]

get_static-confined_example :
    get_static (codes "www") disk success (codes "/../key")
    ≡ get_static (codes "www") safe_disk success (codes "/../key")
get_static-confined_example =
    get_static-confined (codes "www") disk safe_disk success (codes "/../key") disks-Agree

abbrev bell : Doorbell
bell = record { pending = false; timestamp = 0 }

abbrev visits : List Event
visits = trigger 1000 ∷ trigger 2000 ∷ status ∷ trigger 7000 ∷ status ∷ []

ring_times-Spaced_example : Spaced 0 (1000 ∷ 7000 ∷ [])
unfolding ring_times handle_doorbell_trigger handle_doorbell_status
ring_times-Spaced_example =
    ring_times-Spaced bell visits
      (omega arith, omega arith, (omega arith, omega arith, (omega arith, omega arith, tt)))
