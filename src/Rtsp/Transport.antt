-- ===== src/Rtsp/Transport.antt =====
-- The readers of the Transport header in rtsp_server.c. `none` is `ENOENT`.
use smart_lock_intercom.Base.{
  ℕ, ◌+◌, ◌%◌, ◌^◌, Bool, true, false, ◌||◌, Option, some, none, Bytes, drop,
}
use smart_lock_intercom.Base.Int.{to_word}
use smart_lock_intercom.CString.{codes, strstr, strchr, atoi}

-- Whether `strstr` finds `p`.
unfoldable pub contains : Bytes → Bytes → Bool
contains s p = elim (strstr s p) [ none ↦ false | some (before, at) ↦ true ]

-- Two numbers of `w` bits at `p`, the second after the next dash, or one more than the first if
-- there is no dash.
abbrev number_pair : ℕ → Bytes → ℕ × ℕ
number_pair w p =
    let first = to_word w (atoi p) in
    (
      first,
      elim (strchr p b'-') [
        | none ↦ (first + 1) % 2 ^ w
        | some (before, dash) ↦ to_word w (atoi (drop 1 dash))
      ],
    )

-- `pattern` has twelve bytes.
abbrev pair_after : ℕ → Bytes → Bytes → Option (ℕ × ℕ)
pair_after w transport pattern = elim (strstr transport pattern) [
  | none ↦ none
  | some (before, p) ↦ some (number_pair w (drop 12 p))
]

unfoldable pub parse_client_port : Bytes → Option (ℕ × ℕ)
parse_client_port transport = pair_after 16 transport (codes "client_port=")

unfoldable pub parse_interleaved : Bytes → Option (ℕ × ℕ)
parse_interleaved transport = pair_after 8 transport (codes "interleaved=")

unfoldable pub is_tcp_transport : Bytes → Bool
unfolding contains
is_tcp_transport transport =
    contains transport (codes "RTP/AVP/TCP") || contains transport (codes "interleaved=")
