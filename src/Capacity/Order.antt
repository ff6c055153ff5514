-- ===== src/Capacity/Order.antt =====
-- When a load is taken, and what more load does.
use model_lib.Base.{ℕ, ◌≤◌, ◌<◌, ◌≡◌, ◌↔◌, Bool, true, false, not, ◌||◌, Option, none, some, arith}
use model_lib.Base.Eq.{string_eq, option_eq}
use model_lib.Capacity.{
  CapacitySnapshot, CapacityStatus, unavailable, limited, available, CapacityService, Request,
  make_result, reaches, is_loaded, is_faulty, lacks_payload, lacks_capability, assess,
}

-- A station without a ratio counts as one below every threshold.
abbrev pub Below : Option ℕ → ℕ → Type 0
Below none threshold = Unit
Below (some ratio) threshold = ratio < threshold

abbrev pub Fits : Option ℕ → Option ℕ → Type 0
Fits (some cargo) (some remaining) = cargo ≤ remaining
Fits _ _ = Unit

-- What an available vehicle is.
pub record IsAvailable (c : CapacityService) (r : Request) (s : CapacitySnapshot) : Type 0 where
  pub sound : is_faulty r.vehicle_status ≡ false
  pub driver : s.driver_available ≡ true
  pub vehicle : s.vehicle_available ≡ true
  pub fits : Fits r.cargo_weight_kg s.remaining_load_kg
  pub capable : lacks_capability r.cargo_type s.cargo_capability ≡ false
  pub load : (s.load_ratio < c.unavailable_threshold) × (s.load_ratio < c.limited_threshold)
  pub station :
      Below s.station_load_ratio c.unavailable_threshold
      × Below s.station_load_ratio c.limited_threshold

lacks_payload-Fits :
    (cargo remaining : Option ℕ) → (lacks_payload remaining cargo ≡ false) ↔ Fits cargo remaining
unfolding lacks_payload
lacks_payload-Fits (some cargo) (some remaining) = ground arith
lacks_payload-Fits none remaining = ground arith
lacks_payload-Fits (some cargo) none = ground arith

is_loaded-Below :
    (threshold load : ℕ) (station : Option ℕ)
    → (is_loaded threshold load station ≡ false) ↔ ((load < threshold) × Below station threshold)
unfolding is_loaded reaches
is_loaded-Below threshold load none = ground arith
is_loaded-Below threshold load (some ratio) = ground arith

-- The tests that must all fail for a vehicle to be available.
abbrev refused : CapacityService → Request → CapacitySnapshot → Bool
refused c r s =
    is_faulty r.vehicle_status
    || not s.driver_available
    || not s.vehicle_available
    || lacks_payload s.remaining_load_kg r.cargo_weight_kg
    || lacks_capability r.cargo_type s.cargo_capability
    || is_loaded c.unavailable_threshold s.load_ratio s.station_load_ratio
    || is_loaded c.limited_threshold s.load_ratio s.station_load_ratio

module _ (c : CapacityService) (r : Request) (s : CapacitySnapshot) where
  available_unless_refused : ((assess c r s).capacity_status ≡ available) ↔ (refused c r s ≡ false)
  unfolding assess make_result
  available_unless_refused = ground arith

  unrefused-IsAvailable : refused c r s ≡ false → IsAvailable c r s
  unrefused-IsAvailable h =
      let u = is_loaded-Below c.unavailable_threshold s.load_ratio s.station_load_ratio in
      let l = is_loaded-Below c.limited_threshold s.load_ratio s.station_load_ratio in
      let us = u.0 (ground arith) in
      let ls = l.0 (ground arith) in
      record {
        sound = ground arith;
        driver = ground arith;
        vehicle = ground arith;
        fits = (lacks_payload-Fits r.cargo_weight_kg s.remaining_load_kg).0 (ground arith);
        capable = ground arith;
        load = (us.0, ls.0);
        station = (us.1, ls.1);
      }

  IsAvailable-unrefused : IsAvailable c r s → refused c r s ≡ false
  IsAvailable-unrefused a = ground (
    arith,
    a.sound,
    a.driver,
    a.vehicle,
    a.capable,
    (lacks_payload-Fits r.cargo_weight_kg s.remaining_load_kg).1 a.fits,
    (is_loaded-Below c.unavailable_threshold s.load_ratio s.station_load_ratio).1
        (a.load.0, a.station.0),
    (is_loaded-Below c.limited_threshold s.load_ratio s.station_load_ratio).1
        (a.load.1, a.station.1),
  )

  -- A vehicle is available exactly when it has no fault, the driver and the vehicle are there, the
  -- cargo fits what is known of the vehicle, and both loads are below both thresholds.
  pub assess-available_iff : ((assess c r s).capacity_status ≡ available) ↔ IsAvailable c r s
  assess-available_iff = (
    (λ h. unrefused-IsAvailable (available_unless_refused.0 h)),
    (λ a. available_unless_refused.1 (IsAvailable-unrefused a)),
  )

pub rank : CapacityStatus → ℕ
rank available = 0
rank limited = 1
rank unavailable = 2

-- More load on the vehicle never makes the status better.
pub assess_monotone :
    (c : CapacityService) (r : Request) (s : CapacitySnapshot) (more : ℕ)
    → s.load_ratio ≤ more
    → rank (assess c r s).capacity_status
      ≤ rank (assess c r (record s { load_ratio = more })).capacity_status
unfolding assess make_result rank is_loaded
assess_monotone c r s more h = ground arith
