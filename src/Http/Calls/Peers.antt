-- ===== src/Http/Calls/Peers.antt =====
-- The peer that http_server.c reads in the body of a request for a call.
use smart_lock_intercom.Base.{
  ℕ, zero, suc, ◌-◌, ◌≤◌, ◌<◌, ◌≡◌, ◌≢◌, refl, ap, subst, ◌∙◌, true, false, some, [], ◌∷◌, ◌++◌,
  Bytes, arith, All, length, length-append, lt→ltb, ne→false, append_assoc,
}
use smart_lock_intercom.CString.{c_str, has_prefix, strstr, strchr}
use smart_lock_intercom.Http.Calls.{
  peer_key, is_separator, skip_separators, read_peer, or_default, peer_str,
}

-- A text without a NUL is read to its end.
c_str-append : (s t : Bytes) → All (λ c. c ≢ 0) s → c_str (s ++ t) ≡ s ++ c_str t
unfolding c_str
c_str-append [] t h = refl
c_str-append (c ∷ s) t h = rw (ne→false c 0 h.0) (ap (◌∷◌ c) (c_str-append s t h.1))

abbrev IsSeparator : ℕ → Type 0
IsSeparator c = is_separator c ≡ true

-- The run of separators is left out, if it ends before the body does.
skip_separators-append :
    (left : ℕ) (seps : Bytes) (c : ℕ) (t : Bytes)
    → All IsSeparator seps
    → is_separator c ≡ false
    → length seps ≤ left
    → skip_separators left (seps ++ (c ∷ t)) ≡ c ∷ t
unfolding skip_separators
skip_separators-append zero [] c t h k le = refl
skip_separators-append (suc left) [] c t h k le = rw k refl
skip_separators-append zero (x ∷ seps) c t h k le = absurd (omega arith)
skip_separators-append (suc left) (x ∷ seps) c t h k le =
    rw h.0 (skip_separators-append left seps c t h.1 k (omega arith))

strchr_first :
    (s : Bytes) (c : ℕ) (t : Bytes) → All (λ x. x ≢ c) s → strchr (s ++ (c ∷ t)) c ≡ some (s, c ∷ t)
unfolding strchr
strchr_first [] c t h = ground arith
strchr_first (x ∷ s) c t h = rw (ne→false x c h.0, strchr_first s c t h.1) refl

separators-nonzero : (seps : Bytes) → All IsSeparator seps → All (λ c. c ≢ 0) seps
separators-nonzero [] h = tt
separators-nonzero (c ∷ seps) h =
    ((λ e. let k : IsSeparator 0 = subst IsSeparator e h.0 in cc), separators-nonzero seps h.1)

module _ (seps : Bytes) (c : ℕ) (addr : Bytes) (sep : All IsSeparator seps)
    (first : is_separator c ≡ false) where
  c_str-tail :
      (rest stale : Bytes)
      → All (λ x. x ≢ 0) (c ∷ addr)
      → c_str ((seps ++ ((c ∷ addr) ++ (b'"' ∷ rest))) ++ stale)
        ≡ seps ++ ((c ∷ addr) ++ (b'"' ∷ c_str (rest ++ stale)))
  unfolding c_str
  c_str-tail rest stale whole =
      ap c_str (
        append_assoc seps ((c ∷ addr) ++ (b'"' ∷ rest)) stale
        ∙ ap (λ (t : Bytes). seps ++ t) (append_assoc (c ∷ addr) (b'"' ∷ rest) stale))
      ∙ c_str-append seps ((c ∷ addr) ++ (b'"' ∷ (rest ++ stale))) (separators-nonzero seps sep)
      ∙ ap (λ (t : Bytes). seps ++ t) (c_str-append (c ∷ addr) (b'"' ∷ (rest ++ stale)) whole)

  read_peer_lem :
      (left : ℕ) (t : Bytes)
      → length seps ≤ left
      → All (λ x. x ≢ b'"') (c ∷ addr)
      → length (c ∷ addr) < 64
      → read_peer left (seps ++ ((c ∷ addr) ++ (b'"' ∷ t))) ≡ c ∷ addr
  read_peer_lem left t le unquoted short =
      rw
        (
          skip_separators-append left seps c (addr ++ (b'"' ∷ t)) sep first le,
          strchr_first (c ∷ addr) b'"' t unquoted,
          lt→ltb (length (c ∷ addr)) 64 short,
        )
        refl

-- A body that is `{"peer"`, then a run of blanks, colons and quotes, then an address of at most 63
-- bytes and a quote, is read as this address, whatever follows it in the body and in memory. The
-- address does not start with one of the separators and holds no quote and no NUL.
pub peer_str_reads :
    (seps : Bytes) (c : ℕ) (addr rest stale : Bytes)
    → All (λ x. is_separator x ≡ true) seps
    → is_separator c ≡ false
    → All (λ x. x ≢ b'"') (c ∷ addr)
    → All (λ x. x ≢ 0) (c ∷ addr)
    → length (c ∷ addr) < 64
    → peer_str (b'{' ∷ (peer_key ++ (seps ++ ((c ∷ addr) ++ (b'"' ∷ rest))))) stale ≡ c ∷ addr
unfolding peer_str c_str strstr has_prefix
peer_str_reads seps c addr rest stale sep first unquoted whole short =
    let body = b'{' ∷ (peer_key ++ (seps ++ ((c ∷ addr) ++ (b'"' ∷ rest)))) in
    rw (c_str-tail seps c addr sep first rest stale whole) (
      ap or_default (
        read_peer_lem seps c addr sep first (length body - 7) (c_str (rest ++ stale))
          (omega (arith, length-append seps ((c ∷ addr) ++ (b'"' ∷ rest)))) unquoted short))
