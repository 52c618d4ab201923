-- ===== src/Stun/Discovery.antt =====
-- What a caller of stun_client.c gets: the resources of a discovery and its answer.
use smart_lock_intercom.Base.{
  ◌≡◌, ◌≢◌, refl, sym, ◌∙◌, inl, inr, ◌⊎◌, [], Bool, true, false, not, Option, some, none, List,
  Bytes, if_intro, Bool-cases, ◌==◌, ap,
}
use smart_lock_intercom.Status.{Status, success, is_ok, not_ok-ne}
use smart_lock_intercom.Libre.{snprintf}
use smart_lock_intercom.Stun.{
  Stun, Called, called, StunResponse, StunAnswers, first_of, mapped_attr, note_address, call_back,
  send_request, stun_resp_handler, stun_discover, stun_get_public_addr,
}
use smart_lock_intercom.Stun.Steps.{Reachable, IsValid, Reachable-IsValid}

-- The socket, the STUN instance and the request are all there, or none of them is.
abbrev pub Holds : Bool → Stun → Type 0
Holds b s = (s.us ≡ b) × (s.stun ≡ b) × (s.ct ≡ b)

abbrev pub Settles : Stun × Status → Type 0
Settles r =
    (stun_get_public_addr r.0 ≡ none)
    × (((r.1 ≡ success) × Holds true r.0) ⊎ ((r.1 ≢ success) × Holds false r.0))

no_address : (s : Stun) → s.discovered ≡ false → stun_get_public_addr s ≡ none
unfolding stun_get_public_addr
no_address s d = if_intro (λ (a : Option Bytes). a ≡ none) (not s.discovered) (λ _. refl) (λ h. cc)

send_request-Settles :
    (a : StunAnswers) (s : Stun) → s.discovered ≡ false → Holds false s → Settles (send_request a s)
unfolding send_request
send_request-Settles a s d h =
    if_intro Settles (not (is_ok a.listen))
      (λ bad. (no_address s d, inr (not_ok-ne a.listen bad, h)))
      (λ _.
        if_intro Settles (not (is_ok a.alloc))
          (λ bad.
            (no_address (record s { us = false }) d, inr (not_ok-ne a.alloc bad, (refl, h.1, h.2))))
          (λ _.
            if_intro Settles (not (is_ok a.request))
              (λ bad. (
                no_address (record s { us = false; stun = false }) d,
                inr (not_ok-ne a.request bad, (refl, refl, h.2)),
              ))
              (λ _. (
                no_address (record s { us = true; stun = true; ct = true }) d,
                inl (refl, (refl, refl, refl)),
              ))))

-- From a client without resources, a discovery that succeeds holds its socket, its STUN instance
-- and its request, and one that fails, at whatever point, holds none of them. No address is given
-- out after it in either case, whatever was known before.
pub stun_discover-Settles :
    (a : StunAnswers) (cb : Bool) (s : Stun)
    → s.us ≡ false
    → s.stun ≡ false
    → s.ct ≡ false
    → let r = stun_discover a cb s in
      (stun_get_public_addr r.0 ≡ none)
      × (((r.1 ≡ success) × Holds true r.0) ⊎ ((r.1 ≢ success) × Holds false r.0))
unfolding stun_discover
stun_discover-Settles a cb s us stun ct =
    let cleared = record s { cb = cb; discovered = false; public_addr = [] } in
    let sent = send_request-Settles a cleared refl (us, stun, ct) in
    if_intro Settles a.numeric (λ _. sent)
      (λ _.
        if_intro Settles (not a.resolves)
          (λ _. (no_address cleared refl, inr ((λ e. cc), (us, stun, ct)))) (λ _. sent))

-- The address is the text, cut to 63 bytes, of one that the response carries.
abbrev pub IsFrom : StunResponse → Option Bytes → Type 0
IsFrom m none = Unit
IsFrom m (some addr) =
    (sa : List Bytes) × ((m.xor_mapped ≡ some sa) ⊎ (m.mapped ≡ some sa)) × (addr ≡ snprintf 64 sa)

undiscovered : (s : Stun) → IsValid s → s.ct ≡ true → s.discovered ≡ false
undiscovered s v ct = elim (Bool-cases s.discovered) [
  | inl d ↦ let e = v.settled d in cc
  | inr d ↦ d
]

first_of_cases :
    (a b : Option (List Bytes))
    → (first_of a b ≡ none)
      ⊎ ((sa : List Bytes) × (first_of a b ≡ some sa) × ((a ≡ some sa) ⊎ (b ≡ some sa)))
unfolding first_of
first_of_cases (some sa) b = inr (sa, refl, inl refl)
first_of_cases none (some sa) = inr (sa, refl, inr refl)
first_of_cases none none = inl refl

note_address-IsFrom :
    (m : StunResponse) (s : Stun)
    → s.discovered ≡ false
    → IsFrom m (stun_get_public_addr (note_address (mapped_attr m) s).0)
unfolding note_address
note_address-IsFrom m s d = elim (first_of_cases m.xor_mapped m.mapped) [
  | inl e ↦ rw e (rw (no_address s d) tt)
  | inr (sa, e, from) ↦ rw e (unfold stun_get_public_addr in (sa, from, refl))
]

abbrev Tells : Stun × Called → Type 0
Tells r = r.1 ≡ called (stun_get_public_addr r.0)

call_back_lem :
    (s : Stun) (result : Option Bytes) → s.cb ≡ true → call_back s result ≡ called result
call_back_lem s result h = if_intro (λ (c : Called). c ≡ called result) s.cb (λ _. refl) (λ k. cc)

note_address-Tells :
    (sa : Option (List Bytes)) (s : Stun)
    → s.cb ≡ true
    → s.discovered ≡ false
    → Tells (note_address sa s)
unfolding note_address
note_address-Tells none s cb d = call_back_lem s none cb ∙ ap called (sym (no_address s d))
note_address-Tells (some sa) s cb d =
    unfold stun_get_public_addr in call_back_lem s (some (snprintf 64 sa)) cb

-- In every state that the client gets to, the response to the request that is out, be it an error,
-- an error code, or one with or without an address, tells the callback just what
-- `stun_get_public_addr` gives from then on, and an address that it gives is in the response.
pub stun_resp_handler-called :
    (m : StunResponse) (s : Stun)
    → Reachable s
    → s.ct ≡ true
    → s.cb ≡ true
    → let r = stun_resp_handler m s in
      (r.1 ≡ called (stun_get_public_addr r.0)) × IsFrom m (stun_get_public_addr r.0)
unfolding stun_resp_handler
stun_resp_handler-called m s reach ct cb =
    let v = Reachable-IsValid reach in
    let fresh : s.discovered ≡ false = undiscovered s v ct in
    let over = record s { ct = false } in
    let P = λ (r : Stun × Called). Tells r × IsFrom m (stun_get_public_addr r.0) in
    let none_told : P (over, call_back over none) = (
      call_back_lem over none cb ∙ ap called (sym (no_address over fresh)),
      rw (no_address over fresh) tt,
    ) in
    if_intro P (not (is_ok m.err)) (λ _. none_told)
      (λ _.
        if_intro P (not (m.scode == 0)) (λ _. none_told)
          (λ _.
            (note_address-Tells (mapped_attr m) over cb fresh, note_address-IsFrom m over fresh)))
