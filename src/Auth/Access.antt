-- ===== src/Auth/Access.antt =====
-- `rtsp_auth_check` of rtsp_auth.c as a whole: its answers and the nonces that it uses up.
use smart_lock_intercom.Base.{
  length, ◌≤◌, ℕ, ◌≡◌, ◌↔◌, ◌⊎◌, refl, sym, ap, ◌∙◌, inl, inr, Bool, true, false, ◌&&◌, not, some,
  Bytes, arith, take, Bool-cases, Option-cases,
}
use smart_lock_intercom.CString.{codes, has_prefix_nocase}
use smart_lock_intercom.CString.Equality.{str_eq_iff}
use smart_lock_intercom.Status.{success, eacces}
use smart_lock_intercom.Auth.{
  AuthState, Credentials, differs, expected_response, parse_credentials, verify, check_credentials,
  rtsp_auth_check, rotate,
}
use smart_lock_intercom.Auth.Sizes.{parse_credentials-sizes}
use smart_lock_intercom.Auth.Digest.{rfc_digest, digest_uri, HasRoom, expected_response-rfc}
use smart_lock_intercom.Auth.Challenge.{
  IsDigest, differs_iff, length-expected_response, expected_response_pos,
}

-- The credentials prove knowledge of the password, for the nonce that is out: the response begins
-- with the digest of RFC 2617, with the method of the request and the URI of the header as far as
-- it gets into the digest.
pub record Proves (md5 : Bytes → Bytes) (method : Bytes) (a : AuthState) (c : Credentials)
    : Type 0 where
  pub user : c.username ≡ a.username
  pub fresh : c.nonce ≡ a.nonce
  pub digest :
      take 32 c.response
      ≡ rfc_digest md5 a.username c.realm a.password c.nonce method (digest_uri method c.uri)

and_left : (a b : Bool) → (a && b) ≡ true → a ≡ true
and_left a b h = ground arith

and_right : (a b : Bool) → (a && b) ≡ true → b ≡ true
and_right a b h = ground arith

not-true : (b : Bool) → not b ≡ true → b ≡ false
not-true b h = ground arith

module _ (md5 : Bytes → Bytes) (stale : ℕ → ℕ) (method : Bytes) (c : Credentials) (a : AuthState)
    (is_digest : IsDigest md5) where
  differs_iff_digest :
      (differs stale c.response (expected_response md5 a method c) 32 ≡ false)
      ↔ (take 32 c.response ≡ expected_response md5 a method c)
  differs_iff_digest =
      differs_iff stale c.response (expected_response md5 a method c)
        (length-expected_response md5 a method c is_digest)
        (expected_response_pos md5 a method c is_digest)

  verify_iff :
      HasRoom method a
      → length c.realm ≤ 63
      → length c.nonce ≤ 63
      → (verify md5 stale method c a ≡ true) ↔ Proves md5 method a c
  unfolding verify
  verify_iff room realm nonce =
      let rfc = expected_response-rfc md5 a method c is_digest room realm nonce in
      (
        λ h. record {
          user = (str_eq_iff c.username a.username).0 (and_left _ _ h);
          fresh = (str_eq_iff c.nonce a.nonce).0 (and_left _ _ (and_right _ _ h));
          digest = differs_iff_digest.0 (not-true _ (and_right _ _ (and_right _ _ h))) ∙ rfc;
        },
        λ p.
            rw
              (
                (str_eq_iff c.username a.username).1 p.user,
                (str_eq_iff c.nonce a.nonce).1 p.fresh,
                differs_iff_digest.1 (p.digest ∙ sym rfc),
              )
              refl,
      )

-- The header has the scheme and five fields, and they prove knowledge of the password.
abbrev pub Authorizes : (Bytes → Bytes) → Bytes → AuthState → Bytes → Type 0
Authorizes md5 method a hdr =
    (has_prefix_nocase hdr (codes "Digest ") ≡ true)
    × (c : Credentials) × (parse_credentials hdr ≡ some c)
    × Proves md5 method a c

module _ (md5 : Bytes → Bytes) (rand stale : ℕ → ℕ) (method uri hdr : Bytes) (a : AuthState)
    (is_digest : IsDigest md5) (room : HasRoom method a) (on : a.enabled ≡ true) where
  verify_parsed :
      (c : Credentials)
      → parse_credentials hdr ≡ some c
      → (verify md5 stale method c a ≡ true) ↔ Proves md5 method a c
  verify_parsed c parsed =
      let (realm, nonce) = parse_credentials-sizes hdr c parsed in
      verify_iff md5 stale method c a is_digest room realm nonce

  pub check-success :
      Authorizes md5 method a hdr
      → rtsp_auth_check md5 rand stale method uri (some hdr) a ≡ (success, rotate rand a)
  unfolding rtsp_auth_check
  check-success (scheme, c, parsed, p) =
      rw (parsed, check_credentials, (verify_parsed c parsed).1 p, scheme, on) refl

  check-cases :
      (rtsp_auth_check md5 rand stale method uri (some hdr) a ≡ (eacces, a))
      ⊎ Authorizes md5 method a hdr
  unfolding rtsp_auth_check
  check-cases = elim (Bool-cases (has_prefix_nocase hdr (codes "Digest "))) [
    | inr no_scheme ↦ inl (rw (no_scheme, on) refl)
    | inl scheme ↦ elim (Option-cases (parse_credentials hdr)) [
      | inl bad ↦ inl (rw (bad, check_credentials, scheme, on) refl)
      | inr (c, parsed) ↦ elim (Bool-cases (verify md5 stale method c a)) [
        | inl good ↦ inr (scheme, c, parsed, (verify_parsed c parsed).0 good)
        | inr wrong ↦ inl (rw (parsed, check_credentials, wrong, scheme, on) refl)
      ]
    ]
  ]

  pub rtsp_auth_check-Authorizes :
      (Authorizes md5 method a hdr
        × (rtsp_auth_check md5 rand stale method uri (some hdr) a ≡ (success, rotate rand a)))
      ⊎ ((¬ Authorizes md5 method a hdr)
          × (rtsp_auth_check md5 rand stale method uri (some hdr) a ≡ (eacces, a)))
  rtsp_auth_check-Authorizes = elim check-cases [
    | inl refused ↦
        inr (λ z. absurd (let e = ap (λ r. r.0) (sym refused ∙ check-success z) in cc e), refused)
    | inr z ↦ inl (z, check-success z)
  ]
