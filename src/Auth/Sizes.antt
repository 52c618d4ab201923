-- ===== src/Auth/Sizes.antt =====
-- What `parse_digest_field` of rtsp_auth.c copies fits the array that it is given.
use smart_lock_intercom.Base.{
  ℕ, ◌-◌, ◌≤◌, ◌≡◌, subst, inl, inr, Option, some, [], ◌∷◌, Bytes, arith, length, length-take, drop,
  Option-cases,
}
use smart_lock_intercom.CString.{codes, strstr, strchr}
use smart_lock_intercom.Libre.{snprintf}
use smart_lock_intercom.Auth.{
  Field, found, missing, Credentials, copied, quoted_field, unquoted_field, unquoted_value,
  parse_digest_field, parse_credentials, ◌>>=◌,
}

abbrev HasSize : ℕ → Field → Type 0
HasSize n (found v) = length v ≤ n - 1
HasSize n (missing e) = Unit

copied-HasSize : (n : ℕ) (v : Bytes) → HasSize n (copied n v)
copied-HasSize n v = ground (arith, length-take (n - 1) v)

quoted_field-HasSize : (n : ℕ) (start : Bytes) → HasSize n (quoted_field n start)
unfolding quoted_field
quoted_field-HasSize n start = elim (Option-cases (strchr start b'"')) [
  | inl e ↦ rw (e, quoted_field) tt
  | inr ((value, end_), e) ↦ rw (e, quoted_field) (copied-HasSize n value)
]

unquoted_field-HasSize : (hdr field : Bytes) (n : ℕ) → HasSize n (unquoted_field hdr field n)
unfolding unquoted_field
unquoted_field-HasSize hdr field n =
    let pattern = snprintf 64 (field ∷ codes "=" ∷ []) in
    elim (Option-cases (strstr hdr pattern)) [
      | inl e ↦ rw (e, unquoted_field) tt
      | inr ((before, p), e) ↦
          rw (e, unquoted_field) (copied-HasSize n (unquoted_value (drop (length pattern) p)))
    ]

parse_digest_field-HasSize :
    (hdr field : Bytes) (n : ℕ) → HasSize n (parse_digest_field hdr field n)
unfolding parse_digest_field
parse_digest_field-HasSize hdr field n =
    let pattern = snprintf 64 (field ∷ codes "=\"" ∷ []) in
    elim (Option-cases (strstr hdr pattern)) [
      | inl e ↦ rw (e, parse_digest_field) (unquoted_field-HasSize hdr field n)
      | inr ((before, p), e) ↦
          rw (e, parse_digest_field) (quoted_field-HasSize n (drop (length pattern) p))
    ]

-- A field that was read, with what follows it.
bind-inv :
    (n : ℕ) (x : Field) (f : Bytes → Option Credentials) {c : Credentials}
    → HasSize n x
    → (x >>= f) ≡ some c
    → (v : Bytes) × (length v ≤ n - 1) × (f v ≡ some c)
bind-inv n (found v) f h e = (v, h, e)
bind-inv n (missing s) f h e = cc e

-- The realm and the nonce of a header that is read have at most 63 bytes.
pub parse_credentials-sizes :
    (hdr : Bytes) (c : Credentials)
    → parse_credentials hdr ≡ some c
    → (length c.realm ≤ 63) × (length c.nonce ≤ 63)
unfolding parse_credentials
parse_credentials-sizes hdr c e =
    let read = parse_digest_field-HasSize hdr in
    let (u, _, e1) =
      bind-inv 64 (parse_digest_field hdr (codes "username") 64) _ (read (codes "username") 64) e in
    let (r, r_le, e2) =
      bind-inv 64 (parse_digest_field hdr (codes "realm") 64) _ (read (codes "realm") 64) e1 in
    let (n, n_le, e3) =
      bind-inv 64 (parse_digest_field hdr (codes "nonce") 64) _ (read (codes "nonce") 64) e2 in
    let (p, _, e4) =
      bind-inv 64 (parse_digest_field hdr (codes "response") 64) _ (read (codes "response") 64)
        e3 in
    let (i, _, e5) =
      bind-inv 256 (parse_digest_field hdr (codes "uri") 256) _ (read (codes "uri") 256) e4 in
    let same = some-inv e5 in
    (
      subst (λ (d : Credentials). length d.realm ≤ 63) same r_le,
      subst (λ (d : Credentials). length d.nonce ≤ 63) same n_le,
    )
  where
    some-inv : {a b : Credentials} → some a ≡ some b → a ≡ b
    some-inv h = cc h
