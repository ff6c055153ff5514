-- ===== src/Vehicles/Status.antt =====
-- backend/app/vehicle_operations/models.py: the statuses of vehicles, rescue missions and maintenance
-- orders, and which changes of them are allowed.
use model_lib.Base.{ℕ, ◌-◌, Bool, true, false, Option, none, some}

pub data VehicleOperationalStatus : Type 0 where
  available reserved in_transit dispatching broken waiting_rescue : VehicleOperationalStatus
  in_rescue maintenance qa_pending out_of_service : VehicleOperationalStatus

pub data RescueStatus : Type 0 where
  created dispatched arrived loaded delivered failed cancelled : RescueStatus

pub data MaintenanceStatus : Type 0 where
  scheduled waiting_bay diagnosing repairing qa_pending completed failed cancelled :
      MaintenanceStatus

-- `target in _VEHICLE_TRANSITIONS.get(current, frozenset())`
unfoldable pub vehicle_transition : VehicleOperationalStatus → VehicleOperationalStatus → Bool
vehicle_transition available reserved = true
vehicle_transition available dispatching = true
vehicle_transition available broken = true
vehicle_transition reserved dispatching = true
vehicle_transition dispatching in_transit = true
vehicle_transition in_transit broken = true
vehicle_transition broken waiting_rescue = true
vehicle_transition waiting_rescue in_rescue = true
vehicle_transition in_rescue maintenance = true
vehicle_transition maintenance VehicleOperationalStatus.qa_pending = true
vehicle_transition VehicleOperationalStatus.qa_pending available = true
vehicle_transition VehicleOperationalStatus.qa_pending out_of_service = true
vehicle_transition _ _ = false

unfoldable pub rescue_transition : RescueStatus → RescueStatus → Bool
rescue_transition created dispatched = true
rescue_transition created RescueStatus.cancelled = true
rescue_transition dispatched arrived = true
rescue_transition dispatched RescueStatus.failed = true
rescue_transition dispatched RescueStatus.cancelled = true
rescue_transition arrived loaded = true
rescue_transition arrived RescueStatus.failed = true
rescue_transition arrived RescueStatus.cancelled = true
rescue_transition loaded delivered = true
rescue_transition loaded RescueStatus.failed = true
rescue_transition loaded RescueStatus.cancelled = true
rescue_transition _ _ = false

unfoldable pub maintenance_transition : MaintenanceStatus → MaintenanceStatus → Bool
maintenance_transition scheduled waiting_bay = true
maintenance_transition scheduled MaintenanceStatus.cancelled = true
maintenance_transition waiting_bay diagnosing = true
maintenance_transition waiting_bay MaintenanceStatus.cancelled = true
maintenance_transition diagnosing repairing = true
maintenance_transition diagnosing MaintenanceStatus.failed = true
maintenance_transition repairing MaintenanceStatus.qa_pending = true
maintenance_transition repairing MaintenanceStatus.failed = true
maintenance_transition MaintenanceStatus.qa_pending completed = true
maintenance_transition MaintenanceStatus.qa_pending MaintenanceStatus.failed = true
maintenance_transition _ _ = false

-- `RescueMissionSnapshot.progress_percent`
pub rescue_progress : RescueStatus → ℕ
rescue_progress created = 0
rescue_progress dispatched = 25
rescue_progress arrived = 50
rescue_progress loaded = 75
rescue_progress delivered = 100
rescue_progress RescueStatus.failed = 100
rescue_progress RescueStatus.cancelled = 100

-- `MaintenanceOrderSnapshot.progress_percent`
pub maintenance_progress : MaintenanceStatus → ℕ
maintenance_progress scheduled = 0
maintenance_progress waiting_bay = 15
maintenance_progress diagnosing = 35
maintenance_progress repairing = 68
maintenance_progress MaintenanceStatus.qa_pending = 90
maintenance_progress completed = 100
maintenance_progress MaintenanceStatus.failed = 100
maintenance_progress MaintenanceStatus.cancelled = 100

-- `MaintenanceOrderSnapshot.seconds_remaining`, in whole seconds of one clock
pub seconds_remaining : Option ℕ → ℕ → Option ℕ
seconds_remaining none now = none
seconds_remaining (some deadline) now = some (deadline - now)
