-- ===== src/Vehicles/Workshop/Tests.antt =====
-- A town whose one broken vehicle waits for its quality inspection.
use model_lib.Base.{◌≡◌, ◌≤◌, refl, true, none, some, [], ◌∷◌}
use model_lib.Vehicles.Status.{
  qa_pending, available, delivered, dispatched, scheduled, vehicle_transition,
  maintenance_transition,
}
use model_lib.Vehicles.Tables.{
  RescueMission, MaintenanceOrder, VehicleStatusHistory, Database, vehicle_for_update, find, change,
  change_order, change_vehicle, change_bay, add_event, move_vehicle, transition_vehicle,
}
use model_lib.Vehicles.Cases.{
  mission_of, case_of, case_of_task, is_replacement_of, make_case, order_of, replacement_event,
  replacement_in, replacement_of, status_of, status_of_row,
}
use model_lib.Vehicles.Workshop.{
  record_inspection, in_qa, outcome_of, release_vehicle_and_bay, release_bay, result_of,
}
use model_lib.Vehicles.Opening.Tests.{van, town}
use model_lib.Vehicles.Runs.{start, then_step, inspected, newest, of_vehicle, available_after_qa}
use model_lib.Vehicles.Tables.Keyed.{Unique}
use model_lib.Vehicles.Work.{work}
use model_lib.Vehicles.Progress.{busy_rounds}
use model_lib.Vehicles.Progress.Bound.{busy_rounds-bound}

abbrev pub mission : RescueMission
mission = record {
  id = 1;
  mission_no = "JY-1";
  task_id = "T-7";
  vehicle_id = "V-1";
  rescue_unit_id = "RU-001";
  status = delivered;
  incident_node_id = "N04";
  station_node_id = "N15";
  outbound_edge_ids = [];
  tow_edge_ids = [];
  next_transition_at = none;
  attempt_count = 3;
  failure_reason = none;
}

abbrev pub order : MaintenanceOrder
order = record {
  id = 1;
  order_no = "WX-1";
  task_id = "T-7";
  vehicle_id = "V-1";
  bay_code = some "B-1";
  status = qa_pending;
  fault_code = "BRAKE_FAILURE";
  diagnosis = none;
  repair_minutes = 120;
  manual_inspection_required = true;
  inspection_result = none;
  next_transition_at = none;
  available_after = none;
}

abbrev workshop_town : Database
workshop_town = record town {
  vehicles = van qa_pending "V-1" ∷ [];
  missions = mission ∷ [];
  orders = order ∷ [];
}

abbrev last_change : VehicleStatusHistory
last_change = record {
  vehicle_id = "V-1";
  task_id = "T-7";
  from_status = qa_pending;
  to_status = available;
  reason = "安全质检通过，自动恢复可调度";
  changed_at = 500;
}

available_after_qa_example : last_change.from_status ≡ qa_pending
unfolding record_inspection in_qa outcome_of release_vehicle_and_bay release_bay result_of find
    vehicle_for_update transition_vehicle move_vehicle change change_vehicle add_event change_bay
    change_order vehicle_transition maintenance_transition newest of_vehicle mission_of case_of
    case_of_task is_replacement_of make_case order_of replacement_event replacement_in
    replacement_of status_of status_of_row
available_after_qa_example =
    available_after_qa workshop_town _ "V-1" last_change refl
      (then_step workshop_town _ start (inspected "WX-1" true 500 "inspector" _ refl)) refl refl

-- A rescue on its way, with its order.
abbrev pub rescue_town : Database
rescue_town = record town {
  missions = record mission { status = dispatched; next_transition_at = some 108 } ∷ [];
  orders = record order { status = scheduled } ∷ [];
}

busy_rounds-bound_example : busy_rounds (100 ∷ 200 ∷ 300 ∷ []) rescue_town ≤ work rescue_town
unfolding Unique find
busy_rounds-bound_example =
    busy_rounds-bound (100 ∷ 200 ∷ 300 ∷ []) rescue_town
      (record { missions_differ = (refl, tt); orders_differ = (refl, tt) })
