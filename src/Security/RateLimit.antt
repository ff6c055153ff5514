-- ===== src/Security/RateLimit.antt =====
-- `EmergencyReadRateLimiter` of backend/app/security/rate_limit.py. Times are milliseconds of the
-- monotonic clock; the limiter's lock makes each call one step.
pub mod Window
mod Tests
use model_lib.Base.{
  ℕ, ◌+◌, ◌-◌, ◌*◌, ◌/◌, max, String, Bool, Option, none, some, ltb, leb, if◌then◌else◌,
}
use model_lib.Base.Eq.{◌==◌, string_eq}

-- When a window began, and how many calls it has admitted.
pub record Entry : Type 0 where
  pub started : ℕ
  pub count : ℕ

pub record EmergencyReadRateLimiter : Type 0 where
  pub capacity : ℕ
  pub window_seconds : ℕ
  pub entries : String → Option Entry

pub record RateLimitDecision : Type 0 where
  pub allowed : Bool
  pub remaining : ℕ
  pub retry_after_seconds : ℕ
  pub reset_after_seconds : ℕ

-- The entry before the call, with a new window where there is none or it has ended.
current : EmergencyReadRateLimiter → Option Entry → ℕ → Entry
current l none now = record { started = now; count = 0 }
current l (some e) now =
    if leb (l.window_seconds * 1000) (now - e.started)
    then record { started = now; count = 0 }
    else e

counted : EmergencyReadRateLimiter → Entry → Entry
counted l e = if ltb e.count l.capacity then record e { count = e.count + 1 } else e

set_entry : (String → Option Entry) → String → Entry → String → Option Entry
set_entry entries key e other = if other == key then some e else entries other

-- `max(1, ceil(window - elapsed))` in seconds
retry_after : EmergencyReadRateLimiter → Entry → ℕ → ℕ
retry_after l e now = max 1 ((l.window_seconds * 1000 - (now - e.started) + 999) / 1000)

decide : EmergencyReadRateLimiter → Entry → ℕ → RateLimitDecision
decide l e now = record {
  allowed = ltb e.count l.capacity;
  remaining = l.capacity - (counted l e).count;
  retry_after_seconds = if ltb e.count l.capacity then 0 else retry_after l e now;
  reset_after_seconds = retry_after l e now;
}

-- `admit`, for the key of a subject and an operation
pub admit : EmergencyReadRateLimiter → String → ℕ → EmergencyReadRateLimiter × RateLimitDecision
admit l key now =
    let e = current l (l.entries key) now in
    (record l { entries = set_entry l.entries key (counted l e) }, decide l e now)
