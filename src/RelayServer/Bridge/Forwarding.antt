-- ===== src/RelayServer/Bridge/Forwarding.antt =====
-- What comes out of `bridge_one_dir` of relay_server.c against what went in.
use smart_lock_intercom.Base.{
  ℕ, zero, suc, ◌≤◌, ◌<◌, ◌≡◌, refl, sym, ap, ◌∙◌, inl, inr, true, false, List, [], ◌∷◌, ◌++◌,
  append_assoc, append-nil, Bytes, ◌==◌, length, take, drop, arith, Bool-cases, length-drop,
  take-append-drop, All,
}
use smart_lock_intercom.RelayServer.Bridge.{send_chunk, bridge_one_dir}

abbrev pub concat : List Bytes → Bytes
concat [] = []
concat (c ∷ cs) = c ++ concat cs

send_chunk-prefix :
    (fuel : ℕ) (send : ℕ → ℕ) (buf : Bytes)
    → length buf ≤ fuel
    → (lost : Bytes) × ((send_chunk fuel send buf).0 ++ lost ≡ buf)
      × ((send_chunk fuel send buf).2 ≡ true → lost ≡ [])
unfolding send_chunk
send_chunk-prefix zero send [] le = ([], refl, λ h. refl)
send_chunk-prefix zero send (b ∷ bs) le = absurd (omega arith)
send_chunk-prefix (suc fuel) send [] le = ([], refl, λ h. refl)
send_chunk-prefix (suc fuel) send (b ∷ bs) le = elim (Bool-cases (send 0 == 0)) [
  | inl fails ↦ (b ∷ bs, rw fails refl, λ h. cc (rw fails at h))
  | inr goes ↦
      let w = send 0 in
      let buf = b ∷ bs in
      let pos : 0 < w = ground arith in
      let (lost, e, all_) =
        send_chunk-prefix fuel (λ k. send (suc k)) (drop w buf)
          (omega (arith, length-drop w buf)) in
      (
        lost,
        rw goes (
            append_assoc (take w buf) _ lost
            ∙ ap (λ t. take w buf ++ t) e
            ∙ take-append-drop w buf),
        λ h. all_ (rw goes at h),
      )
]

-- What comes out at the other side is the beginning of what one side sent, in order and with
-- nothing in between, however `send` cuts it up.
pub bridge_one_dir-prefix :
    (send : ℕ → ℕ) (chunks : List Bytes)
    → (lost : Bytes) × (bridge_one_dir send chunks ++ lost ≡ concat chunks)
unfolding bridge_one_dir
bridge_one_dir-prefix send [] = ([], refl)
bridge_one_dir-prefix send ([] ∷ chunks) = (concat chunks, refl)
bridge_one_dir-prefix send ((b ∷ bs) ∷ chunks) =
    let chunk = b ∷ bs in
    let r = send_chunk (length chunk) send chunk in
    let (lost, e, all_) = send_chunk-prefix (length chunk) send chunk (omega arith) in
    elim (Bool-cases r.2) [
      | inr broken ↦ (
        lost ++ concat chunks,
        rw broken (sym (append_assoc r.0 lost (concat chunks)) ∙ ap (λ t. t ++ concat chunks) e),
      )
      | inl whole ↦
          let (later, f) = bridge_one_dir-prefix r.1 chunks in
          let sent : r.0 ≡ chunk =
            sym (append-nil r.0) ∙ ap (λ t. r.0 ++ t) (sym (all_ whole)) ∙ e in
          (
            later,
            rw whole (
                append_assoc r.0 (bridge_one_dir r.1 chunks) later
                ∙ ap (λ t. r.0 ++ t) f
                ∙ ap (λ t. t ++ concat chunks) sent),
          )
    ]

send_chunk-whole :
    (fuel : ℕ) (send : ℕ → ℕ) (buf : Bytes)
    → ((k : ℕ) → 0 < send k)
    → ((k : ℕ) → 0 < (send_chunk fuel send buf).1 k) × ((send_chunk fuel send buf).2 ≡ true)
unfolding send_chunk
send_chunk-whole zero send buf h = (h, refl)
send_chunk-whole (suc fuel) send [] h = (h, refl)
send_chunk-whole (suc fuel) send (b ∷ bs) h =
    let goes : (send 0 == 0) ≡ false = ground (arith, h 0) in
    rw goes (send_chunk-whole fuel (λ k. send (suc k)) (drop (send 0) (b ∷ bs)) (λ k. h (suc k)))

-- If no `send` fails and no chunk is empty, all of it comes out.
pub bridge_one_dir-whole :
    (send : ℕ → ℕ) (chunks : List Bytes)
    → ((k : ℕ) → 0 < send k)
    → All (λ c. 0 < length c) chunks
    → bridge_one_dir send chunks ≡ concat chunks
unfolding bridge_one_dir
bridge_one_dir-whole send [] h full = refl
bridge_one_dir-whole send ([] ∷ chunks) h full = absurd (omega (arith, full.0))
bridge_one_dir-whole send ((b ∷ bs) ∷ chunks) h full =
    let chunk = b ∷ bs in
    let r = send_chunk (length chunk) send chunk in
    let (later, whole) = send_chunk-whole (length chunk) send chunk h in
    let (lost, e, all_) = send_chunk-prefix (length chunk) send chunk (omega arith) in
    let sent : r.0 ≡ chunk = sym (append-nil r.0) ∙ ap (λ t. r.0 ++ t) (sym (all_ whole)) ∙ e in
    rw whole (
      ap (λ t. t ++ bridge_one_dir r.1 chunks) sent
      ∙ ap (λ t. chunk ++ t) (bridge_one_dir-whole r.1 chunks later full.1))
