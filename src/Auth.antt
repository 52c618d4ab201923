-- ===== src/Auth.antt =====
-- intercom_test/src/rtsp_auth.c: server-side Digest authentication. `md5` is libre's and `rand` the
-- C library's; both are parameters. A `char *` that may be NULL is an `Option`.
pub mod Challenge
pub mod Sizes
pub mod Digest
pub mod Access
pub mod Replay
use smart_lock_intercom.Base.{
  ℕ, zero, suc, ◌+◌, ◌-◌, ◌/◌, ◌%◌, Bool, true, false, ◌&&◌, ◌||◌, not, Option, some, none, List,
  [], ◌∷◌, ◌++◌, Bytes, leb, ltb, ◌==◌, if◌then◌else◌, length, take, drop, get_or,
}
use smart_lock_intercom.CString.{codes, str_eq, has_prefix_nocase, strstr, strchr, str_ncpy}
use smart_lock_intercom.Libre.{snprintf}
use smart_lock_intercom.Status.{Status, success, eacces, enoent, einval}

abbrev pub realm : Bytes
realm = codes "SmartLockIntercom"

abbrev pub nonce_len : ℕ
nonce_len = 32

-- `g_auth`.
pub record AuthState : Type 0 where
  pub username : Bytes
  pub password : Bytes
  pub nonce : Bytes
  pub enabled : Bool

-- "0123456789abcdef"[d]
abbrev pub hex_digit : ℕ → ℕ
hex_digit d = if ltb d 10 then b'0' + d else b'a' + (d - 10)

-- `rand k` is the k-th call of `rand` from here on.
unfoldable pub generate_nonce : (ℕ → ℕ) → ℕ → Bytes
generate_nonce rand zero = []
generate_nonce rand (suc len) = hex_digit (rand 0 % 16) ∷ generate_nonce (λ k. rand (suc k)) len

abbrev is_empty : Bytes → Bool
is_empty [] = true
is_empty (c ∷ cs) = false

unfoldable pub rtsp_auth_init : (ℕ → ℕ) → Option Bytes → Option Bytes → AuthState → AuthState
rtsp_auth_init rand (some username) (some password) a =
    if is_empty username || is_empty password then record a { enabled = false } else record {
      username = str_ncpy 64 username;
      password = str_ncpy 64 password;
      nonce = generate_nonce rand nonce_len;
      enabled = true;
    }
rtsp_auth_init rand _ _ a = record a { enabled = false }

-- Two digits, `%02x`.
abbrev hex_byte : ℕ → Bytes
hex_byte d = hex_digit (d / 16) ∷ hex_digit (d % 16) ∷ []

unfoldable pub hex_bytes : Bytes → Bytes
hex_bytes [] = []
hex_bytes (d ∷ ds) = hex_byte d ++ hex_bytes ds

abbrev pub md5_hex : (Bytes → Bytes) → Bytes → Bytes
md5_hex md5 text = hex_bytes (md5 text)

-- The value runs to a comma, a blank, a CR or the end.
unfoldable pub unquoted_value : Bytes → Bytes
unquoted_value [] = []
unquoted_value (c ∷ cs) = if c == b',' || c == b' ' || c == 13 then [] else c ∷ unquoted_value cs

pub data Field : Type 0 where
  found : Bytes → Field
  missing : Status → Field

abbrev copied : ℕ → Bytes → Field
copied out_sz value = found (take (out_sz - 1) value)

quoted_field : ℕ → Bytes → Field
quoted_field out_sz start = elim (strchr start b'"') [
  | none ↦ missing einval
  | some (value, end) ↦ copied out_sz value
]

unquoted_field : Bytes → Bytes → ℕ → Field
unquoted_field hdr field out_sz =
    let pattern = snprintf 64 (field ∷ codes "=" ∷ []) in
    elim (strstr hdr pattern) [
      | none ↦ missing enoent
      | some (before, p) ↦ copied out_sz (unquoted_value (drop (length pattern) p))
    ]

unfoldable pub parse_digest_field : Bytes → Bytes → ℕ → Field
unfolding quoted_field unquoted_field
parse_digest_field hdr field out_sz =
    let pattern = snprintf 64 (field ∷ codes "=\"" ∷ []) in
    let unquoted = unquoted_field hdr field out_sz in
    elim (strstr hdr pattern) [
      | none ↦ unquoted
      | some (before, p) ↦ quoted_field out_sz (drop (length pattern) p)
    ]

-- What the array of 64 chars behind `response` holds at `i`: the value, its NUL, and behind that
-- what the stack held before, `stale`.
abbrev pub array_at : (ℕ → ℕ) → Bytes → ℕ → ℕ
array_at stale s i = if ltb i (length s) then get_or s i 0 else if i == length s then 0 else stale i

-- The loop over the first `n` chars; the result is `cmp != 0`, and `cmp` gathers the differing bits.
unfoldable pub differs : (ℕ → ℕ) → Bytes → Bytes → ℕ → Bool
differs stale response expected zero = false
differs stale response expected (suc i) =
    differs stale response expected i || not (array_at stale response i == get_or expected i 0)

-- What the header says, once all five fields are there.
pub record Credentials : Type 0 where
  pub username : Bytes
  pub realm : Bytes
  pub nonce : Bytes
  pub response : Bytes
  pub uri : Bytes

-- MD5(HA1:nonce:HA2), in hexadecimal.
unfoldable pub expected_response : (Bytes → Bytes) → AuthState → Bytes → Credentials → Bytes
expected_response md5 a method c =
    let colon = codes ":" in
    let ha1 = md5_hex md5 (snprintf 256 (a.username ∷ colon ∷ c.realm ∷ colon ∷ a.password ∷ [])) in
    let ha2 = md5_hex md5 (snprintf 256 (method ∷ colon ∷ c.uri ∷ [])) in
    md5_hex md5 (snprintf 512 (ha1 ∷ colon ∷ c.nonce ∷ colon ∷ ha2 ∷ []))

infixl 5 ◌>>=◌
abbrev ◌>>=◌ : Field → (Bytes → Option Credentials) → Option Credentials
found v >>= f = f v
missing e >>= f = none

-- The five calls of `parse_digest_field`, in order; each failure is `return EACCES`.
unfoldable pub parse_credentials : Bytes → Option Credentials
parse_credentials hdr = do
  username ← parse_digest_field hdr (codes "username") 64
  realm ← parse_digest_field hdr (codes "realm") 64
  nonce ← parse_digest_field hdr (codes "nonce") 64
  response ← parse_digest_field hdr (codes "response") 64
  uri ← parse_digest_field hdr (codes "uri") 256
  some
      (record { username = username; realm = realm; nonce = nonce; response = response; uri = uri })

-- The checks behind the parsing.
unfoldable pub verify : (Bytes → Bytes) → (ℕ → ℕ) → Bytes → Credentials → AuthState → Bool
verify md5 stale method c a =
    str_eq c.username a.username
    && (str_eq c.nonce a.nonce
        && not (differs stale c.response (expected_response md5 a method c) 32))

abbrev pub rotate : (ℕ → ℕ) → AuthState → AuthState
rotate rand a = record a { nonce = generate_nonce rand nonce_len }

-- The result is the status and the state after.
unfoldable pub check_credentials :
    (Bytes → Bytes)
    → (ℕ → ℕ)
    → (ℕ → ℕ)
    → Bytes
    → Option Credentials
    → AuthState
    → Status × AuthState
check_credentials md5 rand stale method none a = (eacces, a)
check_credentials md5 rand stale method (some c) a =
    if verify md5 stale method c a then (success, rotate rand a) else (eacces, a)

-- `uri` is the request's; the code does not read it.
unfoldable pub rtsp_auth_check :
    (Bytes → Bytes)
    → (ℕ → ℕ)
    → (ℕ → ℕ)
    → Bytes
    → Bytes
    → Option Bytes
    → AuthState
    → Status × AuthState
unfolding check_credentials
rtsp_auth_check md5 rand stale method uri none a =
    if not a.enabled then (success, a) else (eacces, a)
rtsp_auth_check md5 rand stale method uri (some hdr) a =
    if not a.enabled
    then (success, a)
    else if not (has_prefix_nocase hdr (codes "Digest "))
    then (eacces, a)
    else check_credentials md5 rand stale method (parse_credentials hdr) a

-- The header of a 401 response, for a buffer of `buf_sz` bytes.
abbrev pub rtsp_auth_challenge : ℕ → AuthState → Bytes
rtsp_auth_challenge buf_sz a = snprintf buf_sz (
    codes "WWW-Authenticate: Digest realm=\""
    ∷ realm
    ∷ codes "\", nonce=\""
    ∷ a.nonce
    ∷ codes "\"\r\n"
    ∷ [])
