-- ===== src/RelayServer/Bridge.antt =====
-- `bridge_one_dir` of relay_server.c: what one side sends goes to the other.
pub mod Forwarding
use smart_lock_intercom.Base.{
  ℕ, zero, suc, ◌+◌, ◌-◌, ◌*◌, ◌≤◌, ◌<◌, ◌≡◌, refl, sym, ap, ◌∙◌, inl, inr, Bool, true, false, List,
  [], ◌∷◌, ◌++◌, append_assoc, append-nil, Bytes, ◌==◌, ==_iff, if◌then◌else◌, length, take, drop,
  arith, Bool-cases, length-drop, take-append-drop, All,
}

-- `send k` is what the k-th `send` from here on returns, with 0 for an error; it is no more than
-- what was handed over. What is sent, the
-- answers that are left, and whether it all went. Fuel: each round sends a byte, so the length of
-- the buffer is enough.
unfoldable pub send_chunk : ℕ → (ℕ → ℕ) → Bytes → Bytes × (ℕ → ℕ) × Bool
send_chunk zero send buf = ([], send, true)
send_chunk (suc fuel) send [] = ([], send, true)
send_chunk (suc fuel) send (b ∷ bs) =
    let w = send 0 in
    let later : ℕ → ℕ = λ k. send (suc k) in
    let more = send_chunk fuel later (drop w (b ∷ bs)) in
    if w == 0 then ([], later, false) else (take w (b ∷ bs) ++ more.0, more.1, more.2)

abbrev is_nil : Bytes → Bool
is_nil [] = true
is_nil (b ∷ bs) = false

-- `chunks` are what `recv` brings, up to its end or its first empty one.
unfoldable pub bridge_one_dir : (ℕ → ℕ) → List Bytes → Bytes
bridge_one_dir send [] = []
bridge_one_dir send (chunk ∷ chunks) =
    let r = send_chunk (length chunk) send chunk in
    let more = bridge_one_dir r.1 chunks in
    if is_nil chunk then [] else if r.2 then r.0 ++ more else r.0
