-- ===== src/Status.antt =====
-- What the C functions return as an `int`: 0, an error of <errno.h> that the sources name, or an
-- error of a library's own.
use smart_lock_intercom.Base.{ℕ, ◌≡◌, ◌≢◌, refl, Bool, true, false, not}

pub data Status : Type 0 where
  success : Status
  eperm enoent eio eagain enomem eacces enodev einval ealready eoverflow : Status
  other : ℕ → Status

-- `err == 0`.
abbrev pub is_ok : Status → Bool
is_ok success = true
is_ok _ = false

pub ok-success : (e : Status) → not (is_ok e) ≡ false → e ≡ success
ok-success success h = refl
ok-success _ h = cc

pub not_ok-ne : (e : Status) → not (is_ok e) ≡ true → e ≢ success
not_ok-ne success h = cc
not_ok-ne _ h = λ e. cc
