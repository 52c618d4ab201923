-- ===== src/CString/Find.antt =====
-- What the searches find.
use smart_lock_intercom.Base.{
  ℕ, ◌≤◌, ◌≡◌, refl, ap, ◌∙◌, inl, inr, true, false, Option, some, none, [], ◌∷◌, ◌++◌, Bytes,
  arith, ◌==◌, ==_iff, drop, length, Bool-cases, length-append,
}
use smart_lock_intercom.CString.{has_prefix, put_before, strstr, strchr}

-- The two parts make up the text, and the pattern stands where it was found.
abbrev FindSplits : Bytes → Bytes → Option (Bytes × Bytes) → Type 0
FindSplits s p none = Unit
FindSplits s p (some (before, at)) = (s ≡ before ++ at) × (has_prefix at p ≡ true)

put_before-FindSplits :
    (c : ℕ) (s p : Bytes) (r : Option (Bytes × Bytes))
    → FindSplits s p r
    → FindSplits (c ∷ s) p (put_before c r)
put_before-FindSplits c s p none h = tt
put_before-FindSplits c s p (some (before, at)) h = (ap (◌∷◌ c) h.0, h.1)

strstr-FindSplits : (s p : Bytes) → FindSplits s p (strstr s p)
unfolding strstr
strstr-FindSplits [] p = elim (Bool-cases (has_prefix [] p)) [
  | inl hit ↦ rw hit (refl, hit)
  | inr miss ↦ rw miss tt
]
strstr-FindSplits (c ∷ cs) p = elim (Bool-cases (has_prefix (c ∷ cs) p)) [
  | inl hit ↦ rw hit (refl, hit)
  | inr miss ↦ rw miss (put_before-FindSplits c cs p (strstr cs p) (strstr-FindSplits cs p))
]

pub strstr_lem :
    (s p : Bytes) {before at : Bytes}
    → strstr s p ≡ some (before, at)
    → (s ≡ before ++ at) × (has_prefix at p ≡ true)
strstr_lem s p e = rw e at (strstr-FindSplits s p)

pub has_prefix-append : (s p t : Bytes) → has_prefix s p ≡ true → has_prefix (s ++ t) p ≡ true
unfolding has_prefix
has_prefix-append s [] t h = refl
has_prefix-append [] (y ∷ p) t h = cc
has_prefix-append (x ∷ s) (y ∷ p) t h = ground (arith, has_prefix-append s p t)

pub has_prefix-length : (s p : Bytes) → has_prefix s p ≡ true → length p ≤ length s
unfolding has_prefix
has_prefix-length s [] h = omega arith
has_prefix-length [] (y ∷ p) h = cc
has_prefix-length (x ∷ s) (y ∷ p) h = ground (arith, has_prefix-length s p)

-- A longer text can only show a prefix that a short one lacks by going past its end.
pub has_prefix-append_false :
    (s p t : Bytes) → length p ≤ length s → has_prefix s p ≡ false → has_prefix (s ++ t) p ≡ false
unfolding has_prefix
has_prefix-append_false s [] t le h = cc
has_prefix-append_false [] (y ∷ p) t le h = absurd (omega arith)
has_prefix-append_false (x ∷ s) (y ∷ p) t le h = ground (arith, has_prefix-append_false s p t)

strstr-length :
    (s p : Bytes) {before at : Bytes} → strstr s p ≡ some (before, at) → length p ≤ length s
strstr-length s p {before} {at} e =
    let h = strstr_lem s p e in
    omega (arith, ap length h.0, length-append before at, has_prefix-length at p h.1)

pub put_before_inv :
    (c : ℕ) (r : Option (Bytes × Bytes)) {before at : Bytes}
    → put_before c r ≡ some (before, at)
    → (b : Bytes) × (r ≡ some (b, at)) × (before ≡ c ∷ b)
put_before_inv c none e = cc
put_before_inv c (some (b, a)) e = (b, ground arith, ground arith)

strstr-nil : (t : Bytes) → strstr t [] ≡ some ([], t)
unfolding strstr
strstr-nil [] = refl
strstr-nil (c ∷ t) = refl

-- What was found in a text is found at the same place in a longer one.
pub strstr-append :
    (s p t : Bytes) {before at : Bytes}
    → strstr s p ≡ some (before, at)
    → strstr (s ++ t) p ≡ some (before, at ++ t)
unfolding strstr
strstr-append [] [] t e = strstr-nil t ∙ ground arith
strstr-append [] (y ∷ p) t e = cc
strstr-append (c ∷ cs) p t {before} {at} e = elim (Bool-cases (has_prefix (c ∷ cs) p)) [
  | inl hit ↦
      let h : some ([], c ∷ cs) ≡ some (before, at) = rw hit at e in
      rw (has_prefix-append (c ∷ cs) p t hit) (ground arith)
  | inr miss ↦
      let (b, found, e') = put_before_inv c (strstr cs p) (rw miss at e) in
      let le = strstr-length cs p found in
      rw (has_prefix-append_false (c ∷ cs) p t (omega arith) miss, strstr-append cs p t found, e')
        refl
]

-- A byte that was found splits the text.
pub strchr_lem :
    (s : Bytes) (c : ℕ) {before at : Bytes} → strchr s c ≡ some (before, at) → s ≡ before ++ at
unfolding strchr
strchr_lem [] c e = cc
strchr_lem (x ∷ xs) c {before} {at} e = elim (Bool-cases (x == c)) [
  | inl hit ↦ let h : some ([], x ∷ xs) ≡ some (before, at) = rw hit at e in ground arith
  | inr miss ↦
      let (b, found, e') = put_before_inv x (strchr xs c) (rw miss at e) in
      rw e' (ap (◌∷◌ x) (strchr_lem xs c found))
]

-- The text from a byte that was found on begins with it.
pub strchr-head :
    (s : Bytes) (c : ℕ) {before at : Bytes} → strchr s c ≡ some (before, at) → at ≡ c ∷ drop 1 at
unfolding strchr
strchr-head [] c e = cc e
strchr-head (x ∷ xs) c {before} {at} e = elim (Bool-cases (x == c)) [
  | inl hit ↦
      let found : some ([], x ∷ xs) ≡ some (before, at) = rw hit at e in
      let xc = (==_iff x c).0 hit in let here : at ≡ x ∷ xs = ground arith in rw (here, xc) refl
  | inr miss ↦
      let (b, found, e') = put_before_inv x (strchr xs c) (rw miss at e) in strchr-head xs c found
]
