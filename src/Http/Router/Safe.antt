-- ===== src/Http/Router/Safe.antt =====
-- Which requests to http_server.c change its state.
use smart_lock_intercom.Base.{
  ◌≡◌, ◌≢◌, refl, sym, ◌∙◌, inl, inr, ◌⊎◌, true, false, [], ◌∷◌, map, Bytes, arith, if_intro,
  Bool-cases, ==_iff,
}
use smart_lock_intercom.CString.{codes, to_lower, str_eq, str_eq_nocase}
use smart_lock_intercom.Http.{HttpReply}
use smart_lock_intercom.Http.Router.{Intercom, HttpMsg, HttpEnv, asks, http_req_handler}

-- Texts that differ in their case only.
str_eq_nocase-eq : (s t : Bytes) → str_eq_nocase s t ≡ true → map to_lower s ≡ map to_lower t
unfolding str_eq_nocase
str_eq_nocase-eq [] [] h = refl
str_eq_nocase-eq (x ∷ s) (y ∷ t) h =
    ground (arith, str_eq_nocase-eq s t, ==_iff (to_lower x) (to_lower y))
str_eq_nocase-eq _ _ h = cc

-- A method is only one of two different ones.
not_both :
    (m a b : Bytes)
    → str_eq_nocase m a ≡ true
    → map to_lower a ≢ map to_lower b
    → str_eq_nocase m b ≡ false
not_both m a b h ne = elim (Bool-cases (str_eq_nocase m b)) [
  | inl e ↦ absurd (ne (sym (str_eq_nocase-eq m a h) ∙ str_eq_nocase-eq m b e))
  | inr e ↦ e
]

asks_other :
    (msg : HttpMsg) (met path : Bytes)
    → str_eq_nocase msg.met met ≡ false
    → asks msg met path ≡ false
asks_other msg met path h = rw h

-- A GET changes nothing in the server, except where it asks for the doorbell's status, and an
-- OPTIONS request, for whatever path, changes nothing: no call, no device and no bell.
pub http_req_handler_safe :
    (env : HttpEnv) (msg : HttpMsg) (i : Intercom)
    → ((str_eq_nocase msg.met (codes "GET") ≡ true)
        × (str_eq msg.path (codes "/api/doorbell/status") ≡ false))
      ⊎ (str_eq_nocase msg.met (codes "OPTIONS") ≡ true)
    → (http_req_handler env msg i).0 ≡ i
unfolding http_req_handler
http_req_handler_safe env msg i (inr options) =
    let P = λ (r : Intercom × HttpReply). r.0 ≡ i in
    if_intro P (str_eq_nocase msg.met (codes "OPTIONS")) (λ _. refl) (λ h. cc)
http_req_handler_safe env msg i (inl (get, other)) =
    let P = λ (r : Intercom × HttpReply). r.0 ≡ i in
    let m = msg.met in
    let no_post = not_both m (codes "GET") (codes "POST") get (unfold to_lower in λ e. cc) in
    let no_delete = not_both m (codes "GET") (codes "DELETE") get (unfold to_lower in λ e. cc) in
    if_intro P (str_eq_nocase msg.met (codes "OPTIONS")) (λ _. refl)
      (λ _.
        if_intro P (asks msg (codes "POST") (codes "/api/call"))
          (λ h. let e = asks_other msg (codes "POST") (codes "/api/call") no_post in cc)
          (λ _.
            if_intro P (asks msg (codes "GET") (codes "/api/status")) (λ _. refl)
              (λ _.
                if_intro P (asks msg (codes "DELETE") (codes "/api/call"))
                  (λ h. let e = asks_other msg (codes "DELETE") (codes "/api/call") no_delete in cc)
                  (λ _.
                    if_intro P (asks msg (codes "POST") (codes "/api/doorbell"))
                      (λ h.
                        let e = asks_other msg (codes "POST") (codes "/api/doorbell") no_post in cc)
                      (λ _.
                        if_intro P (asks msg (codes "GET") (codes "/api/doorbell/status"))
                          (λ h.
                            let e : asks msg (codes "GET") (codes "/api/doorbell/status") ≡ false =
                              rw other (ground arith) in
                            cc)
                          (λ _.
                            if_intro P (asks msg (codes "GET") (codes "/api/nat")) (λ _. refl)
                              (λ _.
                                if_intro P (str_eq_nocase msg.met (codes "GET")) (λ _. refl)
                                  (λ _. refl))))))))
