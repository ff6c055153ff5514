-- ===== src/Security/RateLimit/Tests.antt =====
-- A limiter of two calls in a minute.
use model_lib.Base.{ℕ, suc, min, String, ◌≡◌, refl, none, List, [], ◌∷◌, arith}
use model_lib.Security.RateLimit.{EmergencyReadRateLimiter}
use model_lib.Security.RateLimit.Window.{admitted, asked, admitted_window}

abbrev limiter : EmergencyReadRateLimiter
limiter = record { capacity = 2; window_seconds = 60; entries = λ key. none }

abbrev calls : List (String × ℕ)
calls = ("a", 1200) ∷ ("b", 1300) ∷ ("a", 1400) ∷ ("a", 2000) ∷ []

admitted_window_example : admitted limiter "a" (("a", 1000) ∷ calls) ≡ min (suc (asked "a" calls)) 2
admitted_window_example = admitted_window limiter "a" 1000 calls refl (
  (omega arith, omega arith),
  ((omega arith, omega arith), ((omega arith, omega arith), ((omega arith, omega arith), tt))),
)
