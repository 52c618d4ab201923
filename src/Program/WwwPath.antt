-- ===== src/Program/WwwPath.antt =====
-- The directory of the pages that main.c finds from the program's own path.
use smart_lock_intercom.Base.{
  ℕ, ◌+◌, ◌-◌, ◌≤◌, ◌≡◌, ◌≢◌, refl, sym, ap, some, none, [], ◌∷◌, ◌++◌, append_assoc, Bytes, arith,
  All, All-append, length, length-append, take-append, take-all, le→ltb, ne→false,
}
use smart_lock_intercom.CString.{codes, c_str, strrchr}
use smart_lock_intercom.Libre.{print_pieces}
use smart_lock_intercom.Program.{last_separator, parent_dir, resolve_www_path}

abbrev Lacks : ℕ → Bytes → Type 0
Lacks c s = All (λ x. x ≢ c) s

strrchr-none : (s : Bytes) (c : ℕ) → Lacks c s → strrchr s c ≡ none
unfolding strrchr
strrchr-none [] c h = refl
strrchr-none (x ∷ s) c h = rw (strrchr-none s c h.1, ne→false x c h.0) refl

strrchr_last :
    (d : Bytes) (c : ℕ) (name : Bytes)
    → Lacks c name
    → strrchr (d ++ (c ∷ name)) c ≡ some (c ∷ name)
unfolding strrchr
strrchr_last [] c name h = rw (strrchr-none name c h) (ground arith)
strrchr_last (x ∷ d) c name h = rw (strrchr_last d c name h) refl

c_str_whole : (s : Bytes) → Lacks 0 s → c_str s ≡ s
unfolding c_str
c_str_whole [] h = refl
c_str_whole (x ∷ s) h = rw (ne→false x 0 h.0) (ap (◌∷◌ x) (c_str_whole s h.1))

parent_dir_lem :
    (d name : Bytes)
    → Lacks b'/' name
    → Lacks b'\\' (d ++ (b'/' ∷ name))
    → parent_dir (d ++ (b'/' ∷ name)) ≡ d
unfolding parent_dir last_separator
parent_dir_lem d name slash backslash =
    let path = d ++ (b'/' ∷ name) in
    let count : length path - length (b'/' ∷ name) ≡ length d =
      omega (arith, length-append d (b'/' ∷ name)) in
    rw (strrchr-none path b'\\' backslash, strrchr_last d b'/' name slash, count)
      (take-append d (b'/' ∷ name))

-- A name of a file or a directory: no separator and no NUL.
abbrev pub IsName : Bytes → Type 0
IsName s = Lacks b'/' s × Lacks b'\\' s × Lacks 0 s

-- For a program that stands in a directory of the directory `d`, the pages are in the directory
-- `www` of `d`. There is no backslash in the path, it fits 511 bytes, and with `/www` so does `d`.
pub resolve_www_path-www :
    (d dir name : Bytes)
    → All (λ x. x ≢ b'\\') d
    → All (λ x. x ≢ 0) d
    → IsName dir
    → IsName name
    → length d + length dir + length name + 2 ≤ 511
    → length d ≤ 507
    → resolve_www_path (some (d ++ (b'/' ∷ (dir ++ (b'/' ∷ name))))) 512 ≡ d ++ codes "/www"
unfolding resolve_www_path print_pieces
resolve_www_path-www d dir name backslash nul isdir isname short fits =
    let upper = d ++ (b'/' ∷ dir) in
    let path = d ++ (b'/' ∷ (dir ++ (b'/' ∷ name))) in
    let regroup : path ≡ upper ++ (b'/' ∷ name) = sym (append_assoc d (b'/' ∷ dir) (b'/' ∷ name)) in
    let tail_nul =
      All-append (λ x. x ≢ 0) dir (b'/' ∷ name) isdir.2 ((λ e. absurd (omega arith)), isname.2) in
    let whole =
      All-append (λ x. x ≢ 0) d (b'/' ∷ (dir ++ (b'/' ∷ name))) nul
        ((λ e. absurd (omega arith)), tail_nul) in
    let upper_clean =
      All-append (λ x. x ≢ b'\\') d (b'/' ∷ dir) backslash ((λ e. absurd (omega arith)), isdir.1) in
    let clean =
      All-append (λ x. x ≢ b'\\') upper (b'/' ∷ name) upper_clean
        ((λ e. absurd (omega arith)), isname.1) in
    let size = length-append d (b'/' ∷ (dir ++ (b'/' ∷ name))) in
    let size' = length-append dir (b'/' ∷ name) in
    rw
      (
        take-all 511 path (omega arith),
        c_str_whole path whole,
        regroup,
        parent_dir_lem upper name isname.0 clean,
        parent_dir_lem d dir isdir.0 upper_clean,
        le→ltb 511 (length d) (omega arith),
        le→ltb (511 - length d) 4 (omega arith),
      )
      refl
