-- ===== src/Security/RateLimit/Window.antt =====
-- How many calls one window admits.
use model_lib.Base.{
  ℕ, suc, ◌+◌, ◌-◌, ◌*◌, ◌≤◌, ◌<◌, min, String, ◌≡◌, refl, sym, ap, ◌∙◌, Bool, false, Option, none,
  some, List, [], ◌∷◌, ltb, if◌then◌else◌, All, arith, Bool-cases, ◌&&◌, inl, inr,
}
use model_lib.Base.Eq.{◌==◌, string_eq, ==_iff, eq_refl}
use model_lib.Security.RateLimit.{
  Entry, EmergencyReadRateLimiter, current, counted, set_entry, decide, admit,
}

-- The calls, each with its key and its time, one after the other.
pub admitted : EmergencyReadRateLimiter → String → List (String × ℕ) → ℕ
admitted l key [] = 0
admitted l key ((k, now) ∷ calls) =
    let rest = admitted (admit l k now).0 key calls in
    if k == key && (admit l k now).1.allowed then suc rest else rest

-- How many of the calls have a key.
pub asked : String → List (String × ℕ) → ℕ
asked key [] = 0
asked key ((k, now) ∷ calls) = let rest = asked key calls in if k == key then suc rest else rest

-- Every call of a key lies in the window that began at a time.
abbrev pub Within : ℕ → ℕ → String × ℕ → Type 0
Within start seconds (k, now) = (start ≤ now) × (now < start + seconds * 1000)

current-running :
    (l : EmergencyReadRateLimiter) (start count now : ℕ) (found : Option Entry)
    → found ≡ some (record { started = start; count = count })
    → now < start + l.window_seconds * 1000
    → start ≤ now
    → current l found now ≡ record { started = start; count = count }
unfolding current
current-running l start count now none e w v = ground arith
current-running l start count now (some x) e w v = ground arith

-- The count after a call of the key.
next_count : EmergencyReadRateLimiter → ℕ → ℕ
next_count l count = if ltb count l.capacity then count + 1 else count

set_entry-same :
    (entries : String → Option Entry) (key : String) (e : Entry)
    → set_entry entries key e key ≡ some e
unfolding set_entry
set_entry-same entries key e = ground (arith, eq_refl key)

admit-same :
    (l : EmergencyReadRateLimiter) (key : String) (start count now : ℕ)
    → current l (l.entries key) now ≡ record { started = start; count = count }
    → ((admit l key now).1.allowed ≡ ltb count l.capacity)
      × ((admit l key now).0.entries key
          ≡ some (record { started = start; count = next_count l count }))
unfolding admit decide counted next_count
admit-same l key start count now c = (
  ap (λ (x : Entry). ltb x.count l.capacity) c,
  set_entry-same l.entries key (counted l (current l (l.entries key) now))
      ∙ ap (λ (x : Entry). some (counted l x)) c
      ∙ ground arith,
)

admit-other :
    (l : EmergencyReadRateLimiter) (key k : String) (now : ℕ)
    → (key == k) ≡ false
    → (admit l k now).0.entries key ≡ l.entries key
unfolding admit set_entry
admit-other l key k now q = ground arith

admit-sizes :
    (l : EmergencyReadRateLimiter) (k : String) (now : ℕ)
    → ((admit l k now).0.capacity ≡ l.capacity)
      × ((admit l k now).0.window_seconds ≡ l.window_seconds)
unfolding admit
admit-sizes l k now = (refl, refl)

min_step :
    (capacity count n a : ℕ) (ok : Bool)
    → ok ≡ ltb count capacity
    → a ≡ min n (capacity - (if ltb count capacity then count + 1 else count))
    → (if ok then suc a else a) ≡ min (suc n) (capacity - count)
min_step capacity count n a ok e h = ground arith

-- The calls of the key come after a state in which its window has a count.
admitted-Within :
    (l : EmergencyReadRateLimiter) (key : String) (start count : ℕ) (calls : List (String × ℕ))
    → l.entries key ≡ some (record { started = start; count = count })
    → All (Within start l.window_seconds) calls
    → admitted l key calls ≡ min (asked key calls) (l.capacity - count)
unfolding admitted asked admit next_count
admitted-Within l key start count [] e w = omega arith
admitted-Within l key start count ((k, now) ∷ calls) e w = elim (Bool-cases (k == key)) [
  | inl q ↦
      let same = (==_iff k key).0 q in
      let s =
        admit-same l k start count now
          (current-running l start count now (l.entries k) (ap l.entries same ∙ e) w.0.1 w.0.0) in
      let after = (admit l k now).0 in
      rw q (
        min_step l.capacity count (asked key calls) (admitted after key calls)
          (admit l k now).1.allowed s.0
          (admitted-Within after key start (next_count l count) calls
            (ap after.entries (sym same) ∙ s.1) w.1))
  | inr q ↦ ground (
    arith,
    admitted-Within (admit l k now).0 key start count calls
        (admit-other l key k now (ground (arith, ==_iff key k, ==_iff k key)) ∙ e) w.1,
  )
]

current-opened :
    (l : EmergencyReadRateLimiter) (now : ℕ) (found : Option Entry)
    → found ≡ none
    → current l found now ≡ record { started = now; count = 0 }
unfolding current
current-opened l now none e = refl
current-opened l now (some x) e = ground arith

-- The first call of a key opens a window: of it and the calls of the key in that window, as many are
-- admitted as the capacity allows, whatever calls of other keys come in between.
pub admitted_window :
    (l : EmergencyReadRateLimiter) (key : String) (start : ℕ) (calls : List (String × ℕ))
    → l.entries key ≡ none
    → All (Within start l.window_seconds) calls
    → admitted l key ((key, start) ∷ calls) ≡ min (suc (asked key calls)) l.capacity
unfolding admit admitted next_count
admitted_window l key start calls e w =
    let s = admit-same l key start 0 start (current-opened l start (l.entries key) e) in
    let after = (admit l key start).0 in
    rw (eq_refl key) (
      min_step l.capacity 0 (asked key calls) (admitted after key calls)
        (admit l key start).1.allowed s.0
        (admitted-Within after key start (next_count l 0) calls s.1 w)
      ∙ omega arith)
