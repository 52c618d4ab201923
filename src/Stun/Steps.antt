-- ===== src/Stun/Steps.antt =====
-- The events of stun_client.c as steps of its state.
use smart_lock_intercom.Libre.Whole.{length-print_pieces}
use smart_lock_intercom.Base.{
  ◌≤◌, ◌≡◌, refl, Bool, true, false, not, Option, some, none, List, [], Bytes, arith, length,
  if_intro, ◌==◌,
}
use smart_lock_intercom.Status.{Status, is_ok}
use smart_lock_intercom.Stun.{
  Stun, Called, StunResponse, StunAnswers, mapped_attr, note_address, send_request,
  stun_resp_handler, stun_discover, stun_close,
}

abbrev pub closed : Stun
closed = record {
  stun = false;
  ct = false;
  us = false;
  public_addr = [];
  discovered = false;
  cb = false;
}

-- The events: a discovery, the response to the request that is out, and the end.
pub data Step : Stun → Stun → Type 0 where
  discovers : (a : StunAnswers) (cb : Bool) (s : Stun) → Step s (stun_discover a cb s).0
  responds : (m : StunResponse) (s : Stun) → s.ct ≡ true → Step s (stun_resp_handler m s).0
  closes : (s : Stun) → Step s (stun_close s)

pub data Reachable : Stun → Type 0 where
  here : Reachable closed
  next : {s t : Stun} → Reachable s → Step s t → Reachable t

-- An address that is given out fits its array, and no request is out then.
pub record IsValid (s : Stun) : Type 0 where
  pub fits : length s.public_addr ≤ 63
  pub settled : s.discovered ≡ true → s.ct ≡ false

note_address-IsValid :
    (sa : Option (List Bytes)) (s : Stun) → IsValid s → s.ct ≡ false → IsValid (note_address sa s).0
unfolding note_address
note_address-IsValid none s v e = v
note_address-IsValid (some sa) s v e = record { fits = length-print_pieces 63 sa; settled = λ _. e }

send_request-IsValid :
    (a : StunAnswers) (s : Stun) → IsValid s → s.discovered ≡ false → IsValid (send_request a s).0
unfolding send_request
send_request-IsValid a s v e =
    let P = λ (r : Stun × Status). IsValid r.0 in
    if_intro P (not (is_ok a.listen)) (λ _. v)
      (λ _.
        if_intro P (not (is_ok a.alloc)) (λ _. record { fits = v.fits; settled = λ d. cc })
          (λ _.
            if_intro P (not (is_ok a.request)) (λ _. record { fits = v.fits; settled = λ d. cc })
              (λ _. record { fits = v.fits; settled = λ d. cc })))

Step-IsValid : {s t : Stun} → Step s t → IsValid s → IsValid t
unfolding stun_discover stun_resp_handler stun_close
Step-IsValid (discovers a cb s) v =
    let cleared = record s { cb = cb; discovered = false; public_addr = [] } in
    let w : IsValid cleared = record { fits = omega arith; settled = λ d. cc } in
    let P = λ (r : Stun × Status). IsValid r.0 in
    if_intro P a.numeric (λ _. send_request-IsValid a cleared w refl)
      (λ _. if_intro P (not a.resolves) (λ _. w) (λ _. send_request-IsValid a cleared w refl))
Step-IsValid (responds m s out) v =
    let over = record s { ct = false } in
    let w : IsValid over = record { fits = v.fits; settled = λ _. refl } in
    let P = λ (r : Stun × Called). IsValid r.0 in
    if_intro P (not (is_ok m.err)) (λ _. w)
      (λ _.
        if_intro P (not (m.scode == 0)) (λ _. w)
          (λ _. note_address-IsValid (mapped_attr m) over w refl))
Step-IsValid (closes s) v = record { fits = v.fits; settled = λ d. cc }

closed-IsValid : IsValid closed
closed-IsValid = record { fits = omega arith; settled = λ d. refl }

pub Reachable-IsValid : {s : Stun} → Reachable s → IsValid s
Reachable-IsValid here = closed-IsValid
Reachable-IsValid (next r st) = Step-IsValid st (Reachable-IsValid r)
