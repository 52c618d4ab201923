-- ===== src/RelayClient/Liveness.antt =====
-- What keeps relay_client.c trying while it runs: its timers and its connection.
use smart_lock_intercom.Base.{
  ℕ, zero, suc, ◌+◌, ◌≤◌, ◌≡◌, refl, sym, ◌∙◌, inl, inr, Bool, true, false, ◌&&◌, ◌||◌, not, Option,
  some, none, List, Bytes, ltb, length, drop, min, arith, Bool-cases, Option-cases, if_intro,
}
use smart_lock_intercom.CString.{codes, strchr, str_eq}
use smart_lock_intercom.RelayClient.{
  Relay, Action, backoff_delay, schedule_reconnect, relay_close_handler, start_bridge,
  process_lines, relay_do_connect, line_of, note_ok, with_buffer, disconnected,
}

abbrev pub is_some {ℓ} : {A : Type ℓ} → Option A → Bool
is_some none = false
is_some (some a) = true

-- A delay between five seconds and five minutes, if there is one.
abbrev pub DelayFits : Option ℕ → Type 0
DelayFits none = Unit
DelayFits (some d) = (5000 ≤ d) × (d ≤ 300000)

-- While it runs there is a connection or the timer of the next try; when it does not run there is
-- neither; a registration stands on a connection.
pub record IsAlive (r : Relay) : Type 0 where
  pub trying : r.running ≡ true → (is_some r.tc || is_some r.tmr_reconnect) ≡ true
  pub stopped : r.running ≡ false → (is_some r.tc || is_some r.tmr_reconnect) ≡ false
  pub registration : r.registered ≡ true → is_some r.tc ≡ true
  pub no_bridge : r.bridging ≡ false
  pub delay : DelayFits r.tmr_reconnect

backoff_delay-fits : (n : ℕ) → (5000 ≤ backoff_delay n) × (backoff_delay n ≤ 300000)
unfolding backoff_delay
backoff_delay-fits zero = (omega arith, omega arith)
backoff_delay-fits (suc zero) = (omega arith, omega arith)
backoff_delay-fits (suc (suc zero)) = (omega arith, omega arith)
backoff_delay-fits (suc (suc (suc zero))) = (omega arith, omega arith)
backoff_delay-fits (suc (suc (suc (suc zero)))) = (omega arith, omega arith)
backoff_delay-fits (suc (suc (suc (suc (suc zero))))) = (omega arith, omega arith)
backoff_delay-fits (suc (suc (suc (suc (suc (suc n)))))) =
    let e : min (suc (suc (suc (suc (suc (suc n)))))) 6 ≡ 6 = omega arith in
    rw e (omega arith, omega arith)

or_true : (a : Bool) → (a || true) ≡ true
or_true true = refl
or_true false = refl

or_right : (a b : Bool) → (a || b) ≡ false → b ≡ false
or_right a b h = ground arith

-- There is a connection, so the client runs.
runs : (r : Relay) → IsAlive r → is_some r.tc ≡ true → r.running ≡ false → ⊥
runs r a there off =
    let s = a.stopped off in
    let t : (true || is_some r.tmr_reconnect) ≡ false = rw there at s in cc t

schedule-IsAlive :
    (r : Relay)
    → r.running ≡ true
    → (r.registered ≡ true → is_some r.tc ≡ true)
    → r.bridging ≡ false
    → IsAlive (schedule_reconnect r)
unfolding schedule_reconnect
schedule-IsAlive r on reg quiet =
    if_intro IsAlive (not r.running) (λ h. absurd (let f : not true ≡ true = rw on at h in cc f))
      (λ h. record {
        trying = λ o. or_true (is_some r.tc);
        stopped = λ off. absurd (cc (sym on ∙ off));
        registration = reg;
        no_bridge = quiet;
        delay = backoff_delay-fits r.backoff_count;
      })

pub connect-IsAlive :
    (resolves : Bool) (connects : Option ℕ) (r : Relay)
    → r.running ≡ true
    → (r.registered ≡ true → is_some r.tc ≡ true)
    → r.bridging ≡ false
    → DelayFits r.tmr_reconnect
    → IsAlive (relay_do_connect resolves connects r)
unfolding relay_do_connect
connect-IsAlive resolves connects r on reg quiet delay =
    if_intro IsAlive (not resolves) (λ h. schedule-IsAlive r on reg quiet)
      (λ h. elim (Option-cases connects) [
        | inl failed ↦ rw failed (schedule-IsAlive r on reg quiet)
        | inr (tc, made) ↦ rw made (record {
          trying = λ o. refl;
          stopped = λ off. absurd (cc (sym on ∙ off));
          registration = λ o. refl;
          no_bridge = quiet;
          delay = delay;
        })
      ])

pub close-IsAlive : (r : Relay) → IsAlive r → IsAlive (relay_close_handler r)
unfolding relay_close_handler
close-IsAlive r a =
    if_intro IsAlive (r.running && not r.bridging)
      (λ h. schedule-IsAlive (disconnected r) (and_left _ _ h) (λ o. absurd (cc o)) a.no_bridge)
      (λ h. record {
        trying = λ on. absurd (
            let f : (true && not r.bridging) ≡ false = rw on at h in
            let g : (true && not false) ≡ false = rw (a.no_bridge) at f in cc g);
        stopped = λ off. or_right (is_some r.tc) _ (a.stopped off);
        registration = λ o. absurd (cc o);
        no_bridge = a.no_bridge;
        delay = a.delay;
      })
  where
    and_left : (x y : Bool) → (x && y) ≡ true → x ≡ true
    and_left x y h = ground arith

bridge-IsAlive : (r : Relay) → IsAlive r → is_some r.tc ≡ true → IsAlive (start_bridge r)
bridge-IsAlive r a there = record {
  trying = λ on. rw on refl;
  stopped = λ off. absurd (runs r a there off);
  registration = λ o. absurd (cc o);
  no_bridge = refl;
  delay = if_intro DelayFits r.running (λ h. (omega arith, omega arith)) (λ h. a.delay);
}

buffer-IsAlive : (buf : Option Bytes) (r : Relay) → IsAlive r → IsAlive (record r { rbuf = buf })
buffer-IsAlive buf r a = record {
  trying = a.trying;
  stopped = a.stopped;
  registration = a.registration;
  no_bridge = a.no_bridge;
  delay = a.delay;
}

-- A line other than BRIDGE.
note_ok-IsAlive :
    (line : Bytes) (r : Relay)
    → IsAlive r × (is_some r.tc ≡ true)
    → IsAlive (note_ok line r) × (is_some (note_ok line r).tc ≡ true)
note_ok-IsAlive line r (a, there) =
    if_intro (λ q. IsAlive q × (is_some q.tc ≡ true)) (str_eq line (codes "OK") && not r.registered)
      (λ h. (
        record {
          trying = a.trying;
          stopped = a.stopped;
          registration = λ o. there;
          no_bridge = a.no_bridge;
          delay = a.delay;
        },
        there,
      ))
      (λ h. (a, there))

process_lines-IsAlive :
    (fuel : ℕ) (buf : Bytes) (r : Relay)
    → IsAlive r × (is_some r.tc ≡ true)
    → IsAlive (process_lines fuel buf r).0
unfolding process_lines
process_lines-IsAlive zero buf r (a, there) = buffer-IsAlive (some buf) r a
process_lines-IsAlive (suc fuel) buf r (a, there) = elim (Option-cases (strchr buf 10)) [
  | inl nothing ↦ rw (nothing, process_lines) (buffer-IsAlive (some buf) r a)
  | inr ((text, nl), found) ↦ elim (Bool-cases (str_eq (line_of text) (codes "BRIDGE"))) [
    | inl bridge ↦ rw (found, bridge, process_lines) (bridge-IsAlive r a there)
    | inr other ↦
        rw (found, other, process_lines)
          (process_lines-IsAlive fuel (drop 1 nl) (note_ok (line_of text) r)
            (note_ok-IsAlive (line_of text) r (a, there)))
  ]
]

pub with_buffer-IsAlive :
    (buf received : Bytes) (r : Relay)
    → IsAlive r × (is_some r.tc ≡ true)
    → IsAlive (with_buffer buf received r).0
with_buffer-IsAlive buf received r (a, there) =
    if_intro (λ (q : Relay × List Action). IsAlive q.0) (ltb 8192 (length buf + length received))
      (λ h. close-IsAlive (record r { rbuf = some buf }) (buffer-IsAlive (some buf) r a))
      (λ h.
        process_lines-IsAlive _ _ (record r { rbuf = some buf })
          (buffer-IsAlive (some buf) r a, there))
