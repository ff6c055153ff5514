-- ===== src/Capacity.antt =====
-- backend/app/capacity/service.py: whether a driver and a vehicle can take a load. Ratios, thresholds
-- and weights are numbers of one scale each. The provider's answer is an argument.
pub mod Order
mod Tests
use model_lib.Base.{
  ℕ, String, Bool, true, false, not, ◌&&◌, ◌||◌, Option, none, some, ltb, leb, if◌then◌else◌,
}
use model_lib.Base.Eq.{◌==◌, string_eq, option_eq}

pub record CapacitySnapshot : Type 0 where
  pub driver_available : Bool
  pub vehicle_available : Bool
  pub load_ratio : ℕ
  pub station_load_ratio : Option ℕ
  pub provider_name : String
  pub remaining_load_kg : Option ℕ
  pub cargo_capability : Option String

pub data CapacityStatus : Type 0 where
  unavailable limited available : CapacityStatus

pub data RiskLevel : Type 0 where
  high medium low : RiskLevel

pub data Reason : Type 0 where
  vehicle_runtime_status : String → Reason
  driver_unavailable vehicle_unavailable insufficient_payload : Reason
  lacks_cargo_capability exceeds_capacity approaching_capacity : Reason

pub record CapacityResult : Type 0 where
  pub driver_available : Bool
  pub vehicle_available : Bool
  pub load_ratio : ℕ
  pub station_load_ratio : Option ℕ
  pub capacity_status : CapacityStatus
  pub risk_level : RiskLevel
  pub reason : Option Reason
  pub provider_name : String

pub record CapacityService : Type 0 where
  pub limited_threshold : ℕ
  pub unavailable_threshold : ℕ

-- What the evaluation is asked about, besides the provider's snapshot.
pub record Request : Type 0 where
  pub vehicle_status : String
  pub cargo_weight_kg : Option ℕ
  pub cargo_type : Option String

-- `_result`
make_result : CapacitySnapshot → CapacityStatus → RiskLevel → Option Reason → CapacityResult
make_result s status risk reason = record {
  driver_available = s.driver_available;
  vehicle_available = s.vehicle_available;
  load_ratio = s.load_ratio;
  station_load_ratio = s.station_load_ratio;
  capacity_status = status;
  risk_level = risk;
  reason = reason;
  provider_name = s.provider_name;
}

reaches : Option ℕ → ℕ → Bool
reaches none threshold = false
reaches (some ratio) threshold = leb threshold ratio

-- `_is_unavailable` and `_is_limited`, by their threshold
pub is_loaded : ℕ → ℕ → Option ℕ → Bool
is_loaded threshold load_ratio station_load_ratio =
    leb threshold load_ratio || reaches station_load_ratio threshold

pub is_faulty : String → Bool
is_faulty status = status == "BROKEN" || status == "UNAVAILABLE" || status == "MAINTENANCE"

pub lacks_payload : Option ℕ → Option ℕ → Bool
lacks_payload (some remaining) (some cargo) = ltb remaining cargo
lacks_payload _ _ = false

pub lacks_capability : Option String → Option String → Bool
lacks_capability cargo_type none = false
lacks_capability cargo_type (some capability) =
    cargo_type == some "COLD_CHAIN" && not (capability == "COLD_CHAIN")

pub assess : CapacityService → Request → CapacitySnapshot → CapacityResult
assess c r s =
    if is_faulty r.vehicle_status
    then make_result (record s { vehicle_available = false }) unavailable high
        (some (vehicle_runtime_status r.vehicle_status))
    else if not s.driver_available
    then make_result s unavailable high (some driver_unavailable)
    else if not s.vehicle_available
    then make_result s unavailable high (some vehicle_unavailable)
    else if lacks_payload s.remaining_load_kg r.cargo_weight_kg
    then make_result s unavailable high (some insufficient_payload)
    else if lacks_capability r.cargo_type s.cargo_capability
    then make_result s unavailable high (some lacks_cargo_capability)
    else if is_loaded c.unavailable_threshold s.load_ratio s.station_load_ratio
    then make_result s unavailable high (some exceeds_capacity)
    else if is_loaded c.limited_threshold s.load_ratio s.station_load_ratio
    then make_result s limited medium (some approaching_capacity)
    else make_result s available low none

-- `evaluate`: without the provider's answer there is no result.
pub evaluate : CapacityService → Request → Option CapacitySnapshot → Option CapacityResult
evaluate c r none = none
evaluate c r (some s) = some (assess c r s)
