-- ===== src/Auth/Challenge.antt =====
-- The comparison of the response with the expected digest in `rtsp_auth_check`.
use smart_lock_intercom.Base.{
  ℕ, zero, suc, ◌*◌, ◌<◌, ◌≤◌, ◌≡◌, ◌↔◌, refl, sym, ap, ap₂, ◌∙◌, inl, inr, false, [], ◌∷◌, Bytes,
  arith, ltb, ◌==◌, length, take, get_or, Bool-cases, ==_iff,
}
use smart_lock_intercom.Auth.{
  AuthState, Credentials, array_at, hex_digit, hex_bytes, differs, expected_response,
}

-- `md5` writes 16 bytes.
abbrev pub IsDigest : (Bytes → Bytes) → Type 0
IsDigest md5 = (t : Bytes) → length (md5 t) ≡ 16

pub length-hex_bytes : (ds : Bytes) → length (hex_bytes ds) ≡ 2 * length ds
unfolding hex_bytes
length-hex_bytes [] = refl
length-hex_bytes (d ∷ ds) = omega (arith, length-hex_bytes ds)

hex_digit_pos : (d : ℕ) → 0 < hex_digit d
hex_digit_pos d = ground arith

hex_bytes_pos : (ds : Bytes) (i : ℕ) → i < 2 * length ds → 0 < get_or (hex_bytes ds) i 0
unfolding hex_bytes
hex_bytes_pos [] i lt = absurd (omega arith)
hex_bytes_pos (d ∷ ds) zero lt = hex_digit_pos _
hex_bytes_pos (d ∷ ds) (suc zero) lt = hex_digit_pos _
hex_bytes_pos (d ∷ ds) (suc (suc i)) lt = hex_bytes_pos ds i (omega arith)

module _ (stale : ℕ → ℕ) (r e : Bytes) where
  differs-same :
      (n : ℕ) → differs stale r e n ≡ false → (i : ℕ) → i < n → array_at stale r i ≡ get_or e i 0
  unfolding differs
  differs-same zero h i lt = absurd (omega arith)
  differs-same (suc n) h i lt = elim (Bool-cases (i == n)) [
    | inl at ↦ rw ((==_iff i n).0 at) (ground arith)
    | inr before ↦ differs-same n (ground arith) i (ground arith)
  ]

  same-differs :
      (n : ℕ) → ((i : ℕ) → i < n → array_at stale r i ≡ get_or e i 0) → differs stale r e n ≡ false
  unfolding differs
  same-differs zero h = refl
  same-differs (suc n) h =
      rw (same-differs n (λ i lt. h i (omega arith)), h n (omega arith)) (ground arith)

take-eq :
    (n : ℕ) (r e : Bytes)
    → length e ≡ n
    → n ≤ length r
    → ((i : ℕ) → i < n → get_or r i 0 ≡ get_or e i 0)
    → take n r ≡ e
take-eq zero r [] le lr h = refl
take-eq zero r (x ∷ e) le lr h = absurd (omega arith)
take-eq (suc n) r [] le lr h = absurd (omega arith)
take-eq (suc n) [] (x ∷ e) le lr h = absurd (omega arith)
take-eq (suc n) (y ∷ r) (x ∷ e) le lr h =
    ap₂ (λ a b. a ∷ b) (h zero (omega arith))
      (take-eq n r e (omega arith) (omega arith) (λ i lt. h (suc i) (omega arith)))

take-get_or : (n i : ℕ) (r : Bytes) → i < n → get_or (take n r) i 0 ≡ get_or r i 0
take-get_or zero i r lt = absurd (omega arith)
take-get_or (suc n) i [] lt = refl
take-get_or (suc n) zero (y ∷ r) lt = refl
take-get_or (suc n) (suc i) (y ∷ r) lt = take-get_or n i r (omega arith)

length-take-le : (n : ℕ) (r : Bytes) → length (take n r) ≤ length r
length-take-le zero r = omega arith
length-take-le (suc n) [] = omega arith
length-take-le (suc n) (y ∷ r) = omega (arith, length-take-le n r)

module _ (stale : ℕ → ℕ) (r e : Bytes) (len : length e ≡ 32)
    (pos : (i : ℕ) → i < 32 → 0 < get_or e i 0) where
  -- The stale bytes never decide: a short response fails at its own NUL.
  long_enough : differs stale r e 32 ≡ false → 32 ≤ length r
  long_enough h = elim (Bool-cases (ltb (length r) 32)) [
    | inl short ↦
        let at = differs-same stale r e 32 h (length r) (ground arith) in
        let p = pos (length r) (ground arith) in ground arith
    | inr long ↦ ground arith
  ]

  pub differs_iff : (differs stale r e 32 ≡ false) ↔ (take 32 r ≡ e)
  differs_iff = (
    λ h.
        let long = long_enough h in
        take-eq 32 r e len long (λ i lt. let s = differs-same stale r e 32 h i lt in ground arith),
    λ h. same-differs stale r e 32 (λ i lt.
        let long : 32 ≤ length r = omega (arith, ap length h, length-take-le 32 r) in
        let same : get_or r i 0 ≡ get_or e i 0 =
          sym (take-get_or 32 i r lt) ∙ ap (λ t. get_or t i 0) h in
        ground arith),
  )

pub length-expected_response :
    (md5 : Bytes → Bytes) (a : AuthState) (method : Bytes) (c : Credentials)
    → IsDigest md5
    → length (expected_response md5 a method c) ≡ 32
unfolding expected_response
length-expected_response md5 a method c h = length-hex_bytes _ ∙ ap (λ n. 2 * n) (h _)

pub expected_response_pos :
    (md5 : Bytes → Bytes) (a : AuthState) (method : Bytes) (c : Credentials)
    → IsDigest md5
    → (i : ℕ) → i < 32
    → 0 < get_or (expected_response md5 a method c) i 0
unfolding expected_response
expected_response_pos md5 a method c h i lt = hex_bytes_pos _ i (rw (h _) (omega arith))
