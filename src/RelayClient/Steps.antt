-- ===== src/RelayClient/Steps.antt =====
-- The events of relay_client.c as steps, from the state before its start on.
use smart_lock_intercom.Base.{
  ℕ, ◌≡◌, refl, inl, inr, Bool, true, false, ◌||◌, not, Option, none, List, [], Bytes, if_intro,
  Bool-cases, Option-cases,
}
use smart_lock_intercom.RelayClient.{
  Relay, Action, relay_close_handler, relay_recv_handler, relay_estab_handler, relay_reconnect,
  relay_client_start, relay_client_stop, disconnected,
}
use smart_lock_intercom.RelayClient.Liveness.{
  IsAlive, is_some, connect-IsAlive, close-IsAlive, with_buffer-IsAlive,
}

abbrev pub zeroed : Relay
zeroed = record {
  tc = none;
  tmr_reconnect = none;
  rbuf = none;
  relay_host = [];
  relay_port = 0;
  device_id = [];
  auth_token = [];
  registered = false;
  running = false;
  bridging = false;
  backoff_count = 0;
  relay_addr = [];
}

-- A connection's handlers run only while it is the client's, and the timer only when it was
-- started.
pub data Step : Relay → Relay → Type 0 where
  starts :
      (resolves : Bool) (connects : Option ℕ) (host : Bytes) (port : ℕ) (id token : Bytes)
      {r : Relay}
      → Step r (relay_client_start resolves connects host port id token r)
  establishes :
      (allocs : Bool) {r : Relay} → is_some r.tc ≡ true → Step r (relay_estab_handler allocs r).0
  receives :
      (allocs : Bool) (received : Bytes) {r : Relay}
      → is_some r.tc ≡ true
      → Step r (relay_recv_handler allocs received r).0
  closes : {r : Relay} → is_some r.tc ≡ true → Step r (relay_close_handler r)
  retries :
      (resolves : Bool) (connects : Option ℕ) {r : Relay}
      → is_some r.tmr_reconnect ≡ true
      → Step r (relay_reconnect resolves connects r)
  stops : {r : Relay} → Step r (relay_client_stop r)

pub data Reachable : Relay → Type 0 where
  begins : Reachable zeroed
  steps : {r r' : Relay} → Reachable r → Step r r' → Reachable r'

zeroed-IsAlive : IsAlive zeroed
zeroed-IsAlive = record {
  trying = λ on. cc on;
  stopped = λ off. refl;
  registration = λ o. cc o;
  no_bridge = refl;
  delay = tt;
}

recv-IsAlive :
    (allocs : Bool) (received : Bytes) (r : Relay)
    → IsAlive r
    → is_some r.tc ≡ true
    → IsAlive (relay_recv_handler allocs received r).0
unfolding relay_recv_handler
recv-IsAlive allocs received r a there = elim (Option-cases r.rbuf) [
  | inl missing ↦
      rw (missing, relay_recv_handler)
        (if_intro (λ (q : Relay × List Action). IsAlive q.0) allocs
          (λ h. with_buffer-IsAlive [] received r (a, there)) (λ h. a))
  | inr (buf, kept) ↦ rw (kept, relay_recv_handler) (with_buffer-IsAlive buf received r (a, there))
]

reconnect-IsAlive :
    (resolves : Bool) (connects : Option ℕ) (r : Relay)
    → IsAlive r
    → is_some r.tmr_reconnect ≡ true
    → IsAlive (relay_reconnect resolves connects r)
unfolding relay_reconnect
reconnect-IsAlive resolves connects r a armed = elim (Bool-cases r.running) [
  | inl on ↦
      if_intro IsAlive (not r.running) (λ h. absurd (let f : not true ≡ true = rw on at h in cc f))
        (λ h.
          connect-IsAlive resolves connects (disconnected (record r { tmr_reconnect = none })) on
            (λ o. absurd (cc o)) a.no_bridge tt)
  | inr off ↦
      let f : (is_some r.tc || true) ≡ false = rw armed at (a.stopped off) in
      absurd (or_true (is_some r.tc) f)
]
  where
    or_true : (x : Bool) → (x || true) ≡ false → ⊥
    or_true true e = cc e
    or_true false e = cc e

Step-IsAlive : {r r' : Relay} → Step r r' → IsAlive r → IsAlive r'
unfolding relay_client_start relay_client_stop relay_estab_handler
Step-IsAlive {r} (starts resolves connects host port id token) a =
    connect-IsAlive resolves connects _ refl a.registration refl tt
Step-IsAlive {r} (establishes allocs there) a = record {
  trying = a.trying;
  stopped = a.stopped;
  registration = a.registration;
  no_bridge = a.no_bridge;
  delay = a.delay;
}
Step-IsAlive {r} (receives allocs received there) a = recv-IsAlive allocs received r a there
Step-IsAlive {r} (closes there) a = close-IsAlive r a
Step-IsAlive {r} (retries resolves connects armed) a = reconnect-IsAlive resolves connects r a armed
Step-IsAlive {r} stops a = record {
  trying = λ on. absurd (cc on);
  stopped = λ off. refl;
  registration = λ o. absurd (cc o);
  no_bridge = a.no_bridge;
  delay = tt;
}

-- In every state that the client gets to, it has a connection or a started timer for the next try
-- if it runs, and neither if it does not; a registration stands on a connection; and a delay is
-- between five seconds and five minutes.
pub Reachable-IsAlive : {r : Relay} → Reachable r → IsAlive r
Reachable-IsAlive begins = zeroed-IsAlive
Reachable-IsAlive (steps before s) = Step-IsAlive s (Reachable-IsAlive before)
