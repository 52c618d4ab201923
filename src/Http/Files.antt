-- ===== src/Http/Files.antt =====
-- The static files of http_server.c: `mime_type`, `serve_file` and the branch of
-- `http_req_handler` that calls it.
pub mod Confined
use smart_lock_intercom.Base.{
  ℕ, ◌+◌, ◌-◌, ◌*◌, Bool, true, false, ◌&&◌, ◌||◌, not, Option, some, none, [], ◌∷◌, Bytes, leb,
  ltb, ◌==◌, if◌then◌else◌, take, drop, length,
}
use smart_lock_intercom.Base.Int.{ℤ, pos, negsuc}
use smart_lock_intercom.CString.{codes, c_str, str_eq, str_eq_nocase, strstr, strrchr}
use smart_lock_intercom.Libre.{snprintf}
use smart_lock_intercom.Status.{Status, success, eperm, enoent, eio, enomem, einval}
use smart_lock_intercom.Http.{
  MimeType, html, javascript, css, json, icon, png, octet_stream, HttpReply, ereply, not_found,
  file,
}

suffix_type : Bytes → MimeType
unfolding str_eq_nocase
suffix_type dot =
    if str_eq_nocase dot (codes ".html")
    then html
    else if str_eq_nocase dot (codes ".js")
    then javascript
    else if str_eq_nocase dot (codes ".css")
    then css
    else if str_eq_nocase dot (codes ".json")
    then json
    else if str_eq_nocase dot (codes ".ico")
    then icon
    else if str_eq_nocase dot (codes ".png")
    then png
    else octet_stream

unfoldable pub mime_type : Bytes → MimeType
unfolding suffix_type strrchr
mime_type path = elim (strrchr path b'.') [ none ↦ octet_stream | some dot ↦ suffix_type dot ]

-- What the system answers about a file that it opens: `ftell` at its end, `mem_alloc`, the bytes
-- that `fread` delivers.
pub record OpenFile : Type 0 where
  pub size : ℤ
  pub allocated : Bool
  pub contents : Bytes

unfoldable pub found : Option (Bytes × Bytes) → Bool
found none = false
found (some _) = true

unfoldable pub starts_with : ℕ → Bytes → Bool
starts_with c [] = false
starts_with c (x ∷ xs) = x == c

-- The first guard of `serve_file`. Its last test, that the name ends where it ends, is false of
-- every C string.
unfoldable pub is_traversal : Bytes → Bool
unfolding found starts_with
is_traversal filename =
    found (strstr filename (codes ".."))
    || (found (strstr filename (codes "\\"))
        || (starts_with b'/' filename || starts_with b'\\' filename))

-- `fsize` bytes are read, if they are between 1 and a megabyte.
read_file : Status → Bytes → OpenFile → Status × HttpReply
unfolding mime_type
read_file sent filename f = elim f.size [
  | negsuc _ ↦ (einval, ereply 500)
  | pos fsize ↦
      if fsize == 0 || ltb (1024 * 1024) fsize
      then (einval, ereply 500)
      else if not f.allocated
      then (enomem, ereply 500)
      else if not (length f.contents == fsize)
      then (eio, ereply 500)
      else (sent, file (mime_type filename) f.contents)
]

unfoldable pub open_file : Status → Bytes → Option OpenFile → Status × HttpReply
unfolding read_file
open_file sent filename none = (enoent, ereply 404)
open_file sent filename (some f) = read_file sent filename f

-- `fopen` is what the system has under each path, `sent` what `http_reply` returns.
unfoldable pub serve_file : Bytes → (Bytes → Option OpenFile) → Status → Bytes → Status × HttpReply
unfolding open_file
serve_file www_path fopen sent filename =
    if is_traversal filename
    then (eperm, ereply 403)
    else if leb 512 (length www_path + length filename + 2)
    then (einval, ereply 414)
    else open_file sent filename (fopen (snprintf 512 (www_path ∷ codes "/" ∷ filename ∷ [])))

-- The branch for GET of a path that no other branch of `http_req_handler` takes.
unfoldable pub get_static : Bytes → (Bytes → Option OpenFile) → Status → Bytes → HttpReply
get_static www_path fopen sent path =
    if str_eq path (codes "/") || str_eq path (codes "/index.html")
    then (serve_file www_path fopen sent (codes "index.html")).1
    else if ltb 1 (length path)
    then (serve_file www_path fopen sent (c_str (take 255 (drop 1 path)))).1
    else not_found
