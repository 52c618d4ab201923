-- ===== src/Auth/Digest.antt =====
-- The digest of RFC 2617, without `qop`, and the texts that rtsp_auth.c hashes for it.
use smart_lock_intercom.Base.{
  ◌-◌, ℕ, ◌+◌, ◌≤◌, ◌≡◌, refl, ap, ap₂, ◌∙◌, [], ◌∷◌, ◌++◌, append-nil, Bytes, arith, leb, le→ltb,
  lt→ltb, if◌then◌else◌, length, if_intro,
}
use smart_lock_intercom.CString.{codes}
use smart_lock_intercom.Libre.{print_pieces}
use smart_lock_intercom.Libre.Whole.{length-concat, print_pieces-concat}
use smart_lock_intercom.Auth.{AuthState, Credentials, md5_hex, expected_response}
use smart_lock_intercom.Auth.Challenge.{IsDigest, length-hex_bytes}

abbrev colon : Bytes → Bytes → Bytes
colon s t = s ++ (b':' ∷ t)

-- H(H(user:realm:password):nonce:H(method:uri)).
abbrev pub rfc_digest : (Bytes → Bytes) → Bytes → Bytes → Bytes → Bytes → Bytes → Bytes → Bytes
rfc_digest md5 user realm password nonce method uri =
    let a1 = md5_hex md5 (colon user (colon realm password)) in
    let a2 = md5_hex md5 (colon method uri) in md5_hex md5 (colon a1 (colon nonce a2))

-- What of the URI gets into the digest: all of it, or nothing if method, colon and URI have more
-- than 255 bytes together.
abbrev pub digest_uri : Bytes → Bytes → Bytes
digest_uri method uri = if leb (length method + 1 + length uri) 255 then uri else []

-- The user and the password fit their arrays, and the method that of the request.
pub record HasRoom (method : Bytes) (a : AuthState) : Type 0 where
  pub user_le : length a.username ≤ 63
  pub password_le : length a.password ≤ 63
  pub method_le : length method ≤ 15

three :
    (room : ℕ) (s t u : Bytes)
    → length s + length t + length u + 2 ≤ room
    → print_pieces room (s ∷ codes ":" ∷ t ∷ codes ":" ∷ u ∷ []) ≡ colon s (colon t u)
three room s t u le =
    let ps = s ∷ codes ":" ∷ t ∷ codes ":" ∷ u ∷ [] in
    print_pieces-concat room ps (omega (arith, length-concat ps))
    ∙ ap (λ v. colon s (colon t v)) (append-nil u)

method_uri :
    (method uri : Bytes)
    → length method ≤ 15
    → print_pieces 255 (method ∷ codes ":" ∷ uri ∷ []) ≡ colon method (digest_uri method uri)
unfolding print_pieces
method_uri method uri le =
    let ps = method ∷ codes ":" ∷ uri ∷ [] in
    if_intro (λ (u : Bytes). print_pieces 255 ps ≡ colon method u)
      (leb (length method + 1 + length uri) 255)
      (λ fits.
        print_pieces-concat 255 ps (ground (arith, fits, length-concat ps))
        ∙ ap (colon method) (append-nil uri))
      (λ cut.
        rw
          (
            le→ltb 255 (length method) (omega arith),
            le→ltb (255 - length method) 1 (omega arith),
            lt→ltb (255 - length method - 1) (length uri) (ground (arith, cut)),
          )
          refl)

-- What the server expects is the digest of the RFC, but for a URI that does not fit.
pub expected_response-rfc :
    (md5 : Bytes → Bytes) (a : AuthState) (method : Bytes) (c : Credentials)
    → IsDigest md5
    → HasRoom method a
    → length c.realm ≤ 63
    → length c.nonce ≤ 63
    → expected_response md5 a method c
      ≡ rfc_digest md5 a.username c.realm a.password c.nonce method (digest_uri method c.uri)
unfolding expected_response
expected_response-rfc md5 a method c d room realm nonce =
    let a1 =
      three 255 a.username c.realm a.password (omega (arith, room.user_le, room.password_le)) in
    let a2 = method_uri method c.uri room.method_le in
    let h1 =
      md5_hex md5
        (print_pieces 255 (a.username ∷ codes ":" ∷ c.realm ∷ codes ":" ∷ a.password ∷ [])) in
    let h2 = md5_hex md5 (print_pieces 255 (method ∷ codes ":" ∷ c.uri ∷ [])) in
    let fits : length h1 + length c.nonce + length h2 + 2 ≤ 511 =
      omega (arith, length-hex_bytes (md5 _), d _) in
    ap (md5_hex md5) (
      three 511 h1 c.nonce h2 fits
      ∙ ap₂ (λ s t. colon (md5_hex md5 s) (colon c.nonce (md5_hex md5 t))) a1 a2)
