-- ===== src/Http/Doorbell/Rings.antt =====
-- The rings of the doorbell of http_server.c over a history of requests.
use smart_lock_intercom.Base.{
  ℕ, suc, ◌+◌, ◌-◌, ◌%◌, ◌^◌, ◌<◌, ◌≤◌, ◌≡◌, ◌⊎◌, inl, inr, refl, sym, subst, Bool, true, false,
  ◌&&◌, List, [], ◌∷◌, arith, length, ltb, if◌then◌else◌, Bool-cases, if_intro, ◌++◌,
}
use smart_lock_intercom.Http.{HttpReply, rate_limited, accepted, ringing}
use smart_lock_intercom.Http.Doorbell.{
  Doorbell, doorbell_min_interval_ms, handle_doorbell_trigger, handle_doorbell_status,
}

-- The requests to the doorbell: the first with the time at which it comes.
pub data Event : Type 0 where
  trigger : ℕ → Event
  status : Event

is_accepted : HttpReply → Bool
is_accepted accepted = true
is_accepted _ = false

is_ringing : HttpReply → Bool
is_ringing (ringing b) = b
is_ringing _ = false

abbrev next : Event → Doorbell → Doorbell × HttpReply
next (trigger now) d = handle_doorbell_trigger now d
next status d = handle_doorbell_status d

-- The times at which a history rings.
unfoldable pub ring_times : Doorbell → List Event → List ℕ
unfolding is_accepted
ring_times d [] = []
ring_times d (trigger now ∷ es) =
    let r = handle_doorbell_trigger now d in
    let rest = ring_times r.0 es in if is_accepted r.1 then now ∷ rest else rest
ring_times d (status ∷ es) = ring_times (handle_doorbell_status d).0 es

-- How many answers of a history say that the bell rings.
unfoldable pub answers : Doorbell → List Event → ℕ
unfolding is_ringing
answers d [] = 0
answers d (e ∷ es) =
    let r = next e d in let rest = answers r.0 es in if is_ringing r.1 then suc rest else rest

-- The clock does not go back from `t` on, and is a `uint64_t`.
abbrev pub Timed : ℕ → List Event → Type 0
Timed t [] = Unit
Timed t (trigger now ∷ es) = (t ≤ now) × (now < 2 ^ 64) × Timed now es
Timed t (status ∷ es) = Timed t es

-- Each ring comes at least five seconds after the one before it, `t` being the last so far; time 0
-- stands for none.
abbrev pub Spaced : ℕ → List ℕ → Type 0
Spaced t [] = Unit
Spaced t (x ∷ xs) = ((t ≡ 0) ⊎ (t + doorbell_min_interval_ms ≤ x)) × Spaced x xs

trigger_cases :
    (now : ℕ) (d : Doorbell)
    → d.timestamp ≤ now
    → now < 2 ^ 64
    → (handle_doorbell_trigger now d ≡ (d, rate_limited))
      ⊎ ((handle_doorbell_trigger now d ≡ (record { pending = true; timestamp = now }, accepted))
          × ((d.timestamp ≡ 0) ⊎ (d.timestamp + doorbell_min_interval_ms ≤ now)))
unfolding handle_doorbell_trigger
trigger_cases now d le lt =
    elim (Bool-cases
      (ltb 0 d.timestamp && ltb ((now + 2 ^ 64 - d.timestamp) % 2 ^ 64) doorbell_min_interval_ms)) [
        | inl e ↦ rw e (inl refl)
        | inr e ↦ rw e (inr (refl, ground arith))
      ]

Timed-weaken : (t u : ℕ) (es : List Event) → t ≤ u → Timed u es → Timed t es
Timed-weaken t u [] le h = tt
Timed-weaken t u (trigger now ∷ es) le (first, lt, rest) = (omega arith, lt, rest)
Timed-weaken t u (status ∷ es) le h = Timed-weaken t u es le h

status_timestamp : (d : Doorbell) → (handle_doorbell_status d).0.timestamp ≡ d.timestamp
unfolding handle_doorbell_status
status_timestamp d =
    if_intro (λ (r : Doorbell × HttpReply). r.0.timestamp ≡ d.timestamp) d.pending (λ h. refl)
      (λ h. refl)

-- While the clock does not go back, two rings of the doorbell that follow one another are at least
-- five seconds apart, and so is the first from the last ring before; but a ring at the time 0 of
-- the clock counts as none, so the one behind it can come at once.
pub ring_times-Spaced :
    (d : Doorbell) (es : List Event) → Timed d.timestamp es → Spaced d.timestamp (ring_times d es)
unfolding ring_times is_accepted
ring_times-Spaced d [] h = tt
ring_times-Spaced d (trigger now ∷ es) (le, lt, rest) = elim (trigger_cases now d le lt) [
  | inl e ↦ rw e (ring_times-Spaced d es (Timed-weaken d.timestamp now es le rest))
  | inr (e, gap) ↦
      rw e (gap, ring_times-Spaced (record { pending = true; timestamp = now }) es rest)
]
ring_times-Spaced d (status ∷ es) h =
    let d' = (handle_doorbell_status d).0 in
    let same = status_timestamp d in
    subst (λ (t : ℕ). Spaced t (ring_times d' es)) same
      (ring_times-Spaced d' es (subst (λ (t : ℕ). Timed t es) (sym same) h))

abbrev pub waiting : Bool → ℕ
waiting true = 1
waiting false = 0

-- Requests that answer at most once for each ring.
abbrev OncePerRing : List Event → Type 0
OncePerRing es = (d : Doorbell) → answers d es ≤ waiting d.pending + length (ring_times d es)

once_status :
    (d : Doorbell) (es : List Event)
    → OncePerRing es
    → answers d (status ∷ es) ≤ waiting d.pending + length (ring_times d (status ∷ es))
unfolding answers ring_times handle_doorbell_status is_ringing
once_status d es ih = elim (Bool-cases d.pending) [
  | inl e ↦ rw e (omega (arith, ih (record d { pending = false })))
  | inr e ↦ rw e (omega (arith, rw e at (ih d)))
]

once_trigger :
    (now : ℕ) (d : Doorbell) (es : List Event)
    → OncePerRing es
    → answers d (trigger now ∷ es) ≤ waiting d.pending + length (ring_times d (trigger now ∷ es))
unfolding answers ring_times handle_doorbell_trigger is_ringing is_accepted
once_trigger now d es ih =
    let limited =
      ltb 0 d.timestamp && ltb ((now + 2 ^ 64 - d.timestamp) % 2 ^ 64) doorbell_min_interval_ms in
    if_intro
      (λ (r : Doorbell × HttpReply).
        (if is_ringing r.1 then suc (answers r.0 es) else answers r.0 es)
        ≤ waiting d.pending
          + length (if is_accepted r.1 then now ∷ ring_times r.0 es else ring_times r.0 es))
      limited (λ h. ih d) (λ h. omega (arith, ih (record { pending = true; timestamp = now })))

once : (es : List Event) → OncePerRing es
unfolding answers ring_times
once [] d = omega arith
once (trigger now ∷ es) d = once_trigger now d es (once es)
once (status ∷ es) d = once_status d es (once es)

trigger_pending :
    (now : ℕ) (d : Doorbell) → d.pending ≡ true → (handle_doorbell_trigger now d).0.pending ≡ true
unfolding handle_doorbell_trigger
trigger_pending now d h =
    if_intro (λ (r : Doorbell × HttpReply). r.0.pending ≡ true)
      (ltb 0 d.timestamp && ltb ((now + 2 ^ 64 - d.timestamp) % 2 ^ 64) doorbell_min_interval_ms)
      (λ _. h) (λ _. refl)

answered : (d : Doorbell) (es : List Event) → d.pending ≡ true → 1 ≤ answers d (es ++ (status ∷ []))
unfolding answers handle_doorbell_status is_ringing
answered d [] h = rw h (omega arith)
answered d (trigger now ∷ es) h =
    let ih = answered (handle_doorbell_trigger now d).0 es (trigger_pending now d h) in
    if_intro (λ (n : ℕ). 1 ≤ n) (is_ringing (handle_doorbell_trigger now d).1) (λ _. omega arith)
      (λ _. ih)
answered d (status ∷ es) h = rw h (omega arith)

waiting-le : (b : Bool) (n : ℕ) → (b ≡ true → 1 ≤ n) → waiting b ≤ n
waiting-le true n h = h refl
waiting-le false n h = omega arith

-- A history of requests is told of no more rings than there were, counting one that was waiting
-- before it; and when a query ends the history, it is told of one that was waiting, if there is one.
pub answers-rings :
    (d : Doorbell) (es : List Event)
    → (answers d es ≤ waiting d.pending + length (ring_times d es))
      × (waiting d.pending ≤ answers d (es ++ (status ∷ [])))
answers-rings d es = (once es d, waiting-le d.pending _ (answered d es))
