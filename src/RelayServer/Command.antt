-- ===== src/RelayServer/Command.antt =====
-- The first line of a connection to relay_server.c: `readline` and what `handle_connection` makes
-- of the line.
pub mod Lines
pub mod Access
use smart_lock_intercom.Base.{
  ℕ, zero, suc, ◌-◌, Bool, true, false, ◌&&◌, ◌||◌, not, Option, some, none, List, [], ◌∷◌, ◌++◌,
  Bytes, ◌==◌, leb, if◌then◌else◌, length, take, drop,
}
use smart_lock_intercom.CString.{codes, c_str, within, has_prefix, strchr, str_eq}

abbrev pub max_line : ℕ
max_line = 256

-- `if (pos > 0 && buf[pos - 1] == '\r') pos--`.
abbrev pub drop_cr : Bytes → Bytes
drop_cr [] = []
drop_cr (c ∷ []) = if c == 13 then [] else c ∷ []
drop_cr (c ∷ d ∷ s) = c ∷ drop_cr (d ∷ s)

-- The loop of `readline`: `line` is what is in the buffer, and there is room for `room` more chars.
-- The connection gives `input` and then its end, where the result is -1. The text behind the line
-- stays on the connection.
unfoldable pub readline_loop : ℕ → Bytes → Bytes → Option (Bytes × Bytes)
readline_loop zero line input = some (line, input)
readline_loop (suc room) line [] = none
readline_loop (suc room) line (c ∷ input) =
    let more = readline_loop room (line ++ (c ∷ [])) input in
    if c == 10 then some (drop_cr line, input) else more

abbrev pub readline : ℕ → Bytes → Option (Bytes × Bytes)
readline bufsz input = readline_loop (bufsz - 1) [] input

-- What the line asks for; `fails` has the text that is sent before the connection is closed.
pub data Command : Type 0 where
  registers : Bytes → Command
  connects : Bytes → Command
  fails : Bytes → Command

abbrev pub auth_token : Bytes
auth_token = codes "smartlock2026"

-- One char of a device id.
abbrev pub is_id_char : ℕ → Bool
is_id_char c =
    within b'a' b'z' c || (within b'A' b'Z' c || (within b'0' b'9' c || (c == b'-' || c == b'_')))

unfoldable pub valid_id : Bytes → Bool
valid_id [] = true
valid_id (c ∷ cs) = is_id_char c && valid_id cs

abbrev auth_failed : Command
auth_failed = fails (codes "ERROR auth_failed\r\n")

abbrev invalid_id : Command
invalid_id = fails (codes "ERROR invalid_id\r\n")

-- `line + 9`: the id runs to the first blank, and the token is what follows it.
unfoldable pub parse_register : Bytes → Command
unfolding valid_id
parse_register args = elim (strchr args b' ') [
  | none ↦ auth_failed
  | some (device_id, at) ↦
      if not (str_eq (drop 1 at) auth_token)
      then auth_failed
      else if valid_id device_id
      then registers device_id
      else invalid_id
]

-- The text for an unknown command is cut by the length that is given for it.
unfoldable pub parse_command : Bytes → Command
unfolding parse_register
parse_command line =
    if has_prefix line (codes "REGISTER ")
    then parse_register (drop 9 line)
    else if has_prefix line (codes "CONNECT ")
    then (if valid_id (drop 8 line) then connects (drop 8 line) else invalid_id)
    else fails (take 22 (codes "ERROR unknown_command\r\n"))

-- A line that is empty or did not come is the end of the connection; the rest of the code reads the
-- line up to a NUL.
unfoldable pub read_command : Bytes → Option (Command × Bytes)
unfolding parse_command
read_command input = elim (readline max_line input) [
  | none ↦ none
  | some ([], rest) ↦ none
  | some (c ∷ line, rest) ↦ some (parse_command (c_str (c ∷ line)), rest)
]
