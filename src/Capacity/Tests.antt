-- ===== src/Capacity/Tests.antt =====
-- A vehicle with a small load.
use model_lib.Base.{◌≤◌, ◌↔◌, ◌≡◌, true, none, some, arith}
use model_lib.Capacity.{CapacitySnapshot, available, CapacityService, Request, assess}
use model_lib.Capacity.Order.{IsAvailable, rank, assess-available_iff, assess_monotone}

abbrev service : CapacityService
service = record { limited_threshold = 80; unavailable_threshold = 100 }

abbrev request : Request
request = record {
  vehicle_status = "NORMAL";
  cargo_weight_kg = some 40;
  cargo_type = some "COLD_CHAIN";
}

abbrev snapshot : CapacitySnapshot
snapshot = record {
  driver_available = true;
  vehicle_available = true;
  load_ratio = 30;
  station_load_ratio = none;
  provider_name = "fleet";
  remaining_load_kg = some 50;
  cargo_capability = some "COLD_CHAIN";
}

assess-available_iff_example :
    ((assess service request snapshot).capacity_status ≡ available)
    ↔ IsAvailable service request snapshot
assess-available_iff_example = assess-available_iff service request snapshot

assess_monotone_example :
    rank (assess service request snapshot).capacity_status
    ≤ rank (assess service request (record snapshot { load_ratio = 90 })).capacity_status
assess_monotone_example = assess_monotone service request snapshot 90 (omega arith)
