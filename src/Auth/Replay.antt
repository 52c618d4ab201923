-- ===== src/Auth/Replay.antt =====
-- A header of the Digest authentication of rtsp_auth.c that comes again.
use smart_lock_intercom.Base.{
  ℕ, ◌≡◌, ◌≢◌, ◌⊎◌, refl, sym, ap, subst, ◌∙◌, inl, inr, true, false, not, Option, some, none, List,
  [], ◌∷◌, Bytes, arith, All, Bool-cases, Option-cases, if_intro,
}
use smart_lock_intercom.CString.{codes, has_prefix_nocase, str_eq}
use smart_lock_intercom.CString.Equality.{str_eq_iff}
use smart_lock_intercom.Status.{Status, success, eacces}
use smart_lock_intercom.Auth.{
  AuthState, Credentials, parse_credentials, verify, check_credentials, rtsp_auth_check,
  generate_nonce, nonce_len, rotate,
}

-- A request as the check sees it: what `rand` and the stack hold, method, URI and header.
pub record Attempt : Type 0 where
  pub rand : ℕ → ℕ
  pub stale : ℕ → ℕ
  pub method : Bytes
  pub uri : Bytes
  pub header : Option Bytes

module _ (md5 : Bytes → Bytes) where
  abbrev pub attempt : Attempt → AuthState → Status × AuthState
  attempt r a = rtsp_auth_check md5 r.rand r.stale r.method r.uri r.header a

  -- The state after requests.
  unfoldable pub after : List Attempt → AuthState → AuthState
  after [] a = a
  after (r ∷ rs) a = after rs (attempt r a).1

  check_credentials-state :
      (rand stale : ℕ → ℕ) (method : Bytes) (c : Option Credentials) (a : AuthState)
      → let b = (check_credentials md5 rand stale method c a).1 in (b ≡ a) ⊎ (b ≡ rotate rand a)
  unfolding check_credentials
  check_credentials-state rand stale method none a = inl refl
  check_credentials-state rand stale method (some c) a =
      if_intro (λ (r : Status × AuthState). (r.1 ≡ a) ⊎ (r.1 ≡ rotate rand a))
        (verify md5 stale method c a) (λ _. inr refl) (λ _. inl refl)

  -- A check keeps the state or gives it a new nonce.
  attempt-state :
      (r : Attempt) (a : AuthState) → ((attempt r a).1 ≡ a) ⊎ ((attempt r a).1 ≡ rotate r.rand a)
  unfolding rtsp_auth_check
  attempt-state r a = by_header r.header
    where
      P : Status × AuthState → Type 0
      P s = (s.1 ≡ a) ⊎ (s.1 ≡ rotate r.rand a)

      by_header : (h : Option Bytes) → P (rtsp_auth_check md5 r.rand r.stale r.method r.uri h a)
      by_header none = if_intro P (not a.enabled) (λ _. inl refl) (λ _. inl refl)
      by_header (some hdr) =
          if_intro P (not a.enabled) (λ _. inl refl)
            (λ _.
              if_intro P (not (has_prefix_nocase hdr (codes "Digest "))) (λ _. inl refl)
                (λ _. check_credentials-state r.rand r.stale r.method (parse_credentials hdr) a))

  -- The nonce is another one, and authentication is on.
  abbrev Past : Bytes → AuthState → Type 0
  Past nonce a = (a.nonce ≢ nonce) × (a.enabled ≡ true)

  after-Past :
      (nonce : Bytes) (rs : List Attempt) (a : AuthState)
      → All (λ r. generate_nonce r.rand nonce_len ≢ nonce) rs
      → Past nonce a
      → Past nonce (after rs a)
  unfolding after
  after-Past nonce [] a new h = h
  after-Past nonce (r ∷ rs) a new h =
      after-Past nonce rs (attempt r a).1 new.1 (elim (attempt-state r a) [
        | inl kept ↦ subst (Past nonce) (sym kept) h
        | inr rotated ↦ subst (Past nonce) (sym rotated) (new.0, h.1)
      ])

  verify-named :
      (stale : ℕ → ℕ) (method : Bytes) (c : Credentials) (a : AuthState)
      → verify md5 stale method c a ≡ true
      → str_eq c.nonce a.nonce ≡ true
  unfolding verify
  verify-named stale method c a good = ground (arith, good)

  verify-other :
      (stale : ℕ → ℕ) (method : Bytes) (c : Credentials) (a : AuthState)
      → str_eq c.nonce a.nonce ≡ false
      → verify md5 stale method c a ≡ false
  unfolding verify
  verify-other stale method c a other = ground (arith, other)

  module _ (rand stale : ℕ → ℕ) (method uri hdr : Bytes) (a : AuthState)
      (on : a.enabled ≡ true) where
    -- A header that is accepted names the nonce that is out, which is replaced.
    accepted_lem :
        (rtsp_auth_check md5 rand stale method uri (some hdr) a).0 ≡ success
        → ((c : Credentials) × (parse_credentials hdr ≡ some c) × (c.nonce ≡ a.nonce))
          × ((rtsp_auth_check md5 rand stale method uri (some hdr) a).1 ≡ rotate rand a)
    unfolding rtsp_auth_check
    accepted_lem ok = elim (Bool-cases (has_prefix_nocase hdr (codes "Digest "))) [
      | inr no_scheme ↦ absurd (let e = rw (no_scheme, on) at ok in cc e)
      | inl scheme ↦ elim (Option-cases (parse_credentials hdr)) [
        | inl bad ↦ absurd (let e = rw (bad, check_credentials, scheme, on) at ok in cc e)
        | inr (c, parsed) ↦ elim (Bool-cases (verify md5 stale method c a)) [
          | inr wrong ↦
              absurd (let e = rw (parsed, check_credentials, wrong, scheme, on) at ok in cc e)
          | inl good ↦ (
            (c, parsed, (str_eq_iff c.nonce a.nonce).0 (verify-named stale method c a good)),
            rw (parsed, check_credentials, good, scheme, on) refl,
          )
        ]
      ]
    ]

    -- A header that names another nonce is refused.
    refused_lem :
        (c : Credentials)
        → parse_credentials hdr ≡ some c
        → a.nonce ≢ c.nonce
        → rtsp_auth_check md5 rand stale method uri (some hdr) a ≡ (eacces, a)
    unfolding rtsp_auth_check
    refused_lem c parsed other = elim (Bool-cases (str_eq c.nonce a.nonce)) [
      | inl same ↦ absurd (other (sym ((str_eq_iff c.nonce a.nonce).0 same)))
      | inr differs ↦
          let wrong = verify-other stale method c a differs in
          elim (Bool-cases (has_prefix_nocase hdr (codes "Digest "))) [
            | inr no_scheme ↦ rw (no_scheme, on) refl
            | inl scheme ↦ rw (parsed, check_credentials, wrong, scheme, on) refl
          ]
    ]

  -- With authentication on, a header that was accepted once is refused from then on, whatever other
  -- requests come in between and for whatever request it comes with, as long as each nonce that is
  -- drawn from then on differs from the one that it was accepted for. Refusal changes nothing.
  pub rtsp_auth_check_replay :
      (first : Attempt) (hdr : Bytes) (a : AuthState) (between : List Attempt) (rand stale : ℕ → ℕ)
      (method uri : Bytes)
      → a.enabled ≡ true
      → first.header ≡ some hdr
      → (attempt first a).0 ≡ success
      → All (λ r. generate_nonce r.rand nonce_len ≢ a.nonce) (first ∷ between)
      → let later = after between (attempt first a).1 in
        rtsp_auth_check md5 rand stale method uri (some hdr) later ≡ (eacces, later)
  rtsp_auth_check_replay first hdr a between rand stale method uri on its ok new =
      let check = λ (h : Option Bytes).
        rtsp_auth_check md5 first.rand first.stale first.method first.uri h a in
      let ((c, parsed, named), rotated) =
        accepted_lem first.rand first.stale first.method first.uri hdr a on
          (subst (λ h. (check h).0 ≡ success) its ok) in
      let start : Past a.nonce (attempt first a).1 =
        subst (Past a.nonce) (sym (ap (λ h. (check h).1) its ∙ rotated)) (new.0, on) in
      let later = after between (attempt first a).1 in
      let past = after-Past a.nonce between (attempt first a).1 new.1 start in
      refused_lem rand stale method uri hdr later past.1 c parsed (λ e. past.0 (e ∙ named))
