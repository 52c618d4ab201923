-- ===== src/Http/Doorbell.antt =====
-- The doorbell of http_server.c: `handle_doorbell_trigger` and `handle_doorbell_status`.
pub mod Rings
use smart_lock_intercom.Base.{ℕ, ◌+◌, ◌-◌, ◌%◌, ◌^◌, Bool, true, false, ◌&&◌, ltb, if◌then◌else◌}
use smart_lock_intercom.Http.{HttpReply, rate_limited, accepted, ringing}

abbrev pub doorbell_min_interval_ms : ℕ
doorbell_min_interval_ms = 5000

pub record Doorbell : Type 0 where
  pub pending : Bool
  pub timestamp : ℕ

-- `now` is `tmr_jiffies()`; the difference is of type `uint64_t`.
unfoldable pub handle_doorbell_trigger : ℕ → Doorbell → Doorbell × HttpReply
handle_doorbell_trigger now d =
    if ltb 0 d.timestamp && ltb ((now + 2 ^ 64 - d.timestamp) % 2 ^ 64) doorbell_min_interval_ms
    then (d, rate_limited)
    else (record { pending = true; timestamp = now }, accepted)

unfoldable pub handle_doorbell_status : Doorbell → Doorbell × HttpReply
handle_doorbell_status d =
    if d.pending then (record d { pending = false }, ringing true) else (d, ringing false)
