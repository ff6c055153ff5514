-- ===== src/Vehicles/Opening/Tests.antt =====
-- A town with one broken vehicle, its rescue unit and one bay.
use model_lib.Base.{String, ◌≡◌, refl, false, none, some, [], ◌∷◌}
use model_lib.Vehicles.Status.{VehicleOperationalStatus, available, in_transit, vehicle_transition}
use model_lib.Vehicles.Tables.{
  FleetVehicle, Database, Outcome, returned, find, vehicle_for_update, transition_vehicle,
  move_vehicle, change, change_vehicle, add_event, change_bay, change_unit,
}
use model_lib.Vehicles.Cases.{
  OperationCaseSnapshot, mission_of, case_of, case_of_task, is_replacement_of, make_case, order_of,
  replacement_event, replacement_in, replacement_of, status_of, status_of_row,
}
use model_lib.Vehicles.History.{Told}
use model_lib.Vehicles.Runs.{start, then_step, opened, Reaches-Told}
use model_lib.Vehicles.Opening.{
  BreakdownCaseRequest, Numbers, create_breakdown_case, create_new, unit_is_available, unit_of,
  free_bay, open_case, send_replacement, add_case, numbers_taken, any_number, announce_replacement,
  new_mission, new_order,
}

abbrev pub van : VehicleOperationalStatus → String → FleetVehicle
van status id = record {
  vehicle_id = id;
  status = status;
  status_reason = none;
  status_changed_at = none;
  current_node_id = "N04";
  fault_code = none;
  available_after = none;
  maintenance_order_no = none;
}

abbrev pub town : Database
town = record {
  vehicles = van in_transit "V-1" ∷ van available "V-2" ∷ [];
  units = record { unit_id = "RU-001"; status = "AVAILABLE"; current_node_id = "N15" } ∷ [];
  bays = record { bay_code = "B-1"; status = "AVAILABLE"; current_order_no = none } ∷ [];
  missions = [];
  orders = [];
  history = [];
  outbox = [];
  next_id = 1;
}

abbrev pub numbers : Numbers
numbers = record { mission_no = λ r. "JY-20260101-007"; order_no = λ r. "WX-20260101-007" }

abbrev pub breakdown : BreakdownCaseRequest
breakdown = record {
  task_id = "T-7";
  vehicle_id = "V-1";
  replacement_vehicle_id = some "V-2";
  rescue_unit_id = "RU-001";
  incident_node_id = "N04";
  station_node_id = "N15";
  outbound_edge_ids = "E1" ∷ [];
  tow_edge_ids = "E1" ∷ [];
  fault_code = "ENGINE_COOLING";
  diagnosis = "cooling";
  repair_minutes = 120;
  manual_inspection_required = false;
  occurred_at = 100;
  replacement_edge_ids = [];
}

abbrev pub opening : Outcome OperationCaseSnapshot
opening = create_breakdown_case numbers breakdown town

opening_returns : (c : OperationCaseSnapshot) × ((db : Database) × (opening ≡ returned c db))
unfolding create_breakdown_case create_new unit_is_available unit_of free_bay open_case
    send_replacement add_case numbers_taken any_number announce_replacement new_mission new_order
    find vehicle_for_update transition_vehicle move_vehicle change change_vehicle add_event
    change_bay change_unit vehicle_transition mission_of case_of case_of_task is_replacement_of
    make_case order_of replacement_event replacement_in replacement_of status_of status_of_row
opening_returns = (_, (_, refl))

Reaches-Told_example : Told (status_of town) opening_returns.1.0
Reaches-Told_example =
    Reaches-Told town opening_returns.1.0 refl
      (then_step town _ start (opened numbers breakdown opening_returns.0 opening_returns.1.1))
