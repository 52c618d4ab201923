-- ===== src/Http/Files/Confined.antt =====
-- The paths under which http_server.c opens a file.
use smart_lock_intercom.Base.{
  ℕ, ◌+◌, ◌-◌, ◌≡◌, ◌≢◌, refl, sym, ap, ◌∙◌, inl, inr, true, false, ◌||◌, Option, some, none, [],
  ◌∷◌, ◌++◌, Bytes, arith, leb, ltb, ◌==◌, take, drop, length, Bool-cases, append-nil,
}
use smart_lock_intercom.CString.{codes, c_str, str_eq, has_prefix, put_before, strstr}
use smart_lock_intercom.Libre.{print_pieces, snprintf}
use smart_lock_intercom.Status.{Status}
use smart_lock_intercom.Http.{HttpReply}
use smart_lock_intercom.Http.Files.{
  OpenFile, found, starts_with, open_file, is_traversal, serve_file, get_static,
}

-- The text has `p` nowhere.
abbrev pub Lacks : Bytes → Bytes → Type 0
Lacks s p = (a b : Bytes) → s ≢ a ++ (p ++ b)

-- A name that leads to no directory above the one it is looked up in.
pub record IsInside (name : Bytes) : Type 0 where
  pub no_parent : Lacks name (codes "..")
  no_backslash : Lacks name (codes "\\")
  relative : (b : Bytes) → name ≢ b'/' ∷ b

has_prefix_self : (p b : Bytes) → has_prefix (p ++ b) p ≡ true
unfolding has_prefix
has_prefix_self [] b = refl
has_prefix_self (x ∷ p) b = ground (arith, has_prefix_self p b)

put_before-none : (c : ℕ) (r : Option (Bytes × Bytes)) → put_before c r ≡ none → r ≡ none
put_before-none c none e = refl
put_before-none c (some x) e = cc

strstr-none_head : (s p : Bytes) → has_prefix s p ≡ true → strstr s p ≢ none
unfolding strstr
strstr-none_head [] p h e = let e' : some ([], []) ≡ none = rw h at e in cc
strstr-none_head (c ∷ cs) p h e = let e' : some ([], c ∷ cs) ≡ none = rw h at e in cc

strstr-none_tail : (c : ℕ) (cs p : Bytes) → strstr (c ∷ cs) p ≡ none → strstr cs p ≡ none
unfolding strstr
strstr-none_tail c cs p e = elim (Bool-cases (has_prefix (c ∷ cs) p)) [
  | inl hit ↦ let e' : some ([], c ∷ cs) ≡ none = rw hit at e in cc
  | inr miss ↦ put_before-none c (strstr cs p) (rw miss at e)
]

-- The search finds a text that is there.
strstr_complete : (p a b : Bytes) → strstr (a ++ (p ++ b)) p ≢ none
strstr_complete p [] b e = strstr-none_head (p ++ b) p (has_prefix_self p b) e
strstr_complete p (x ∷ a) b e = strstr_complete p a b (strstr-none_tail x (a ++ (p ++ b)) p e)

found-false : (r : Option (Bytes × Bytes)) → found r ≡ false → r ≡ none
unfolding found
found-false none e = refl
found-false (some x) e = cc

Lacks_lem : (s p : Bytes) → found (strstr s p) ≡ false → Lacks s p
Lacks_lem s p h a b e =
    strstr_complete p a b (ap (λ (t : Bytes). strstr t p) (sym e) ∙ found-false (strstr s p) h)

starts_false : (s : Bytes) (c : ℕ) → starts_with c s ≡ false → (b : Bytes) → s ≢ c ∷ b
unfolding starts_with
starts_false [] c h b e = cc
starts_false (x ∷ s) c h b e = let e' : (x == c) ≡ (c == c) = ap (starts_with c) e in ground arith

is_traversal-IsInside : (name : Bytes) → is_traversal name ≡ false → IsInside name
unfolding is_traversal
is_traversal-IsInside name h = record {
  no_parent = Lacks_lem name (codes "..") (ground arith);
  no_backslash = Lacks_lem name (codes "\\") (ground arith);
  relative = starts_false name b'/' (ground arith);
}

path_of :
    (www name : Bytes)
    → leb 512 (length www + length name + 2) ≡ false
    → snprintf 512 (www ∷ codes "/" ∷ name ∷ []) ≡ www ++ (codes "/" ++ name)
unfolding print_pieces
path_of www name h =
    let a : ltb 511 (length www) ≡ false = ground arith in
    let b : ltb (511 - length www) 1 ≡ false = ground arith in
    let c : ltb (511 - length www - 1) (length name) ≡ false = ground arith in
    rw (a, b, c, append-nil name) refl

-- Two file systems that hold the same files under the paths of the names inside `www`.
abbrev pub Agree : Bytes → (Bytes → Option OpenFile) → (Bytes → Option OpenFile) → Type 0
Agree www f g =
    (name : Bytes) → IsInside name → f (www ++ (codes "/" ++ name)) ≡ g (www ++ (codes "/" ++ name))

serve_file-confined :
    (www : Bytes) (f g : Bytes → Option OpenFile) (sent : Status) (name : Bytes)
    → Agree www f g
    → serve_file www f sent name ≡ serve_file www g sent name
unfolding serve_file
serve_file-confined www f g sent name agree = elim (Bool-cases (is_traversal name)) [
  | inl bad ↦ rw bad refl
  | inr good ↦ elim (Bool-cases (leb 512 (length www + length name + 2))) [
    | inl long ↦ rw (good, long) refl
    | inr fits ↦
        rw (good, fits, path_of www name fits)
          (ap (open_file sent name) (agree name (is_traversal-IsInside name good)))
  ]
]

-- A GET of a static file is answered alike by two file systems that hold the same files inside
-- the directory of the pages, under the paths that join the directory, a slash and a name without
-- two dots in a row, without a backslash and not starting with a slash.
pub get_static-confined :
    (www : Bytes) (f g : Bytes → Option OpenFile) (sent : Status) (path : Bytes)
    → Agree www f g
    → get_static www f sent path ≡ get_static www g sent path
unfolding get_static
get_static-confined www f g sent path agree =
    elim (Bool-cases (str_eq path (codes "/") || str_eq path (codes "/index.html"))) [
      | inl index ↦ rw index (
          ap (λ (r : Status × HttpReply). r.1)
            (serve_file-confined www f g sent (codes "index.html") agree))
      | inr other ↦ elim (Bool-cases (ltb 1 (length path))) [
        | inl long ↦
            rw (other, long)
              (ap (λ (r : Status × HttpReply). r.1)
                (serve_file-confined www f g sent (c_str (take 255 (drop 1 path))) agree))
        | inr short ↦ rw (other, short) refl
      ]
    ]
