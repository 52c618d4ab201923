-- ===== src/RelayClient/Lines.antt =====
-- The loop over the lines in `relay_recv_handler` of relay_client.c as a whole.
use smart_lock_intercom.Base.{
  ℕ, zero, suc, ◌+◌, ◌≤◌, ◌<◌, ◌≡◌, refl, ap, inl, inr, Bool, ◌&&◌, not, Option, some, none, List,
  [], ◌∷◌, Bytes, if_intro, Bool-cases, Option-cases, arith, length, length-append, drop,
  length-drop, ltb,
}
use smart_lock_intercom.CString.{codes, strchr, str_eq}
use smart_lock_intercom.CString.Find.{strchr_lem, strchr-head}
use smart_lock_intercom.RelayClient.{
  Relay, Action, start_bridge, process_lines, line_of, note_ok, with_buffer, relay_recv_handler,
  relay_close_handler,
}

-- What is kept has no whole line.
abbrev pub NoLine : Option Bytes → Type 0
NoLine none = Unit
NoLine (some buf) = strchr buf 10 ≡ none

none-NoLine : (o : Option Bytes) → o ≡ none → NoLine o
none-NoLine none e = tt
none-NoLine (some buf) e = cc e

none-strchr : (buf : Bytes) → length buf ≤ 0 → strchr buf 10 ≡ none
unfolding strchr
none-strchr [] le = refl
none-strchr (c ∷ buf) le = absurd (omega arith)

shorter :
    (buf : Bytes) {text nl : Bytes}
    → strchr buf 10 ≡ some (text, nl)
    → length (drop 1 nl) < length buf
shorter buf {text} {nl} e = omega (
  arith,
  ap length (strchr_lem buf 10 e),
  length-append text nl,
  ap length (strchr-head buf 10 e),
  length-drop 1 nl,
)

process_lines-NoLine :
    (fuel : ℕ) (buf : Bytes) (r : Relay)
    → length buf ≤ fuel
    → NoLine (process_lines fuel buf r).0.rbuf
unfolding process_lines
process_lines-NoLine zero buf r le = none-strchr buf le
process_lines-NoLine (suc fuel) buf r le = elim (Option-cases (strchr buf 10)) [
  | inl nothing ↦ rw (nothing, process_lines) nothing
  | inr ((text, nl), found) ↦ elim (Bool-cases (str_eq (line_of text) (codes "BRIDGE"))) [
    | inl bridge ↦ rw (found, bridge, process_lines) tt
    | inr other ↦
        rw (found, other, process_lines)
          (process_lines-NoLine fuel (drop 1 nl) (note_ok (line_of text) r)
            (omega (arith, shorter buf found)))
  ]
]

close-NoLine : (r : Relay) → NoLine (relay_close_handler r).rbuf
unfolding relay_close_handler smart_lock_intercom.RelayClient.schedule_reconnect
close-NoLine r =
    if_intro (λ (q : Relay). NoLine q.rbuf) (r.running && not r.bridging)
      (λ h. if_intro (λ (q : Relay). NoLine q.rbuf) (not r.running) (λ h'. tt) (λ h'. tt)) (λ h. tt)

with_buffer-NoLine : (buf received : Bytes) (r : Relay) → NoLine (with_buffer buf received r).0.rbuf
with_buffer-NoLine buf received r =
    if_intro (λ (q : Relay × List Action). NoLine q.0.rbuf)
      (ltb 8192 (length buf + length received)) (λ h. close-NoLine (record r { rbuf = some buf }))
      (λ h.
        process_lines-NoLine _ _ (record r { rbuf = some buf })
          (omega (arith, length-append buf received)))

-- After a receive, whatever came and whatever buffer there was, no whole line waits in the buffer;
-- where the buffer could not be allocated there is none.
pub relay_recv_handler-NoLine :
    (allocs : Bool) (received : Bytes) (r : Relay)
    → NoLine (relay_recv_handler allocs received r).0.rbuf
unfolding relay_recv_handler
relay_recv_handler-NoLine allocs received r = elim (Option-cases r.rbuf) [
  | inl missing ↦
      rw (missing, relay_recv_handler)
        (if_intro (λ (q : Relay × List Action). NoLine q.0.rbuf) allocs
          (λ h. with_buffer-NoLine [] received r) (λ h. none-NoLine r.rbuf missing))
  | inr (buf, kept) ↦ rw (kept, relay_recv_handler) (with_buffer-NoLine buf received r)
]
