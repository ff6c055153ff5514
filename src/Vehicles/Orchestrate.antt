-- ===== src/Vehicles/Orchestrate.antt =====
-- backend/app/vehicle_operations/service.py and inspection.py: a breakdown becomes a case, with the
-- routes that Roads.Dijkstra finds. `strip().upper()` of a text is a parameter. The road network and
-- the time are what the two collaborators answer.
pub mod Again
mod Tests
use model_lib.Base.{
  ℕ, String, Bool, true, false, ◌&&◌, ◌||◌, Option, none, some, List, [], ◌∷◌, if◌then◌else◌,
}
use model_lib.Base.Eq.{◌==◌, string_eq}
use model_lib.Roads.Network.{RoadNetworkSnapshot, PathResult, RouteObjective, fastest}
use model_lib.Roads.Dijkstra.{Search, found, no_path, out_of_fuel, find_path}
use model_lib.Vehicles.Tables.{
  Database, Run, pure, raise, read, or_raise, ◌>>=◌, ◌>>◌, route_unavailable, RescueMission,
}
use model_lib.Vehicles.Cases.{OperationCaseSnapshot, get_case, vehicle_node}
use model_lib.Vehicles.Opening.{
  BreakdownCaseRequest, Numbers, create_breakdown_case, update_replacement_route,
}

pub record BreakdownOrchestrationInput : Type 0 where
  pub task_id : String
  pub vehicle_id : String
  pub replacement_vehicle_id : Option String
  pub incident_node_id : String
  pub cargo_type : String
  pub severity : String
  pub fault_code : String

pub record RescueOrchestrationService : Type 0 where
  pub snapshot : RoadNetworkSnapshot
  pub now : ℕ
  pub numbers : Numbers
  pub normalize : String → String
  pub rescue_unit_id : String
  pub rescue_node_id : String
  pub maintenance_node_id : String

-- `normalized_fault in self._policy.manual_fault_codes`
is_manual_fault : String → Bool
is_manual_fault code =
    code == "BRAKE_FAILURE" || code == "STEERING_FAILURE" || code == "ACCIDENT" || code == "INJURY"

path_in : Search → Option PathResult
path_in (found r) = some r
path_in no_path = none
path_in out_of_fuel = none

is_unrouted : OperationCaseSnapshot → Option String
is_unrouted c = missing c.replacement_vehicle_id c.replacement_edge_ids
  where
    missing : Option String → List String → Option String
    missing none edges = none
    missing (some id) [] = some id
    missing (some id) (e ∷ edges) = none

diagnosis_of : String → String
diagnosis_of code =
    if code == "ENGINE_COOLING"
    then "发动机冷却系统故障"
    else if code == "BRAKE_FAILURE"
    then "制动系统故障，必须人工安全复核"
    else if code == "STEERING_FAILURE"
    then "转向系统故障，必须人工安全复核"
    else "动力系统故障，等待维修诊断"

module _ (s : RescueOrchestrationService) where
  requires_manual : String → String → String → Bool
  requires_manual cargo_type severity fault_code =
      is_manual_fault (s.normalize fault_code)
      || (s.normalize cargo_type == "COLD_CHAIN" && s.normalize severity == "CRITICAL")

  -- The path finder's answer for a vehicle of 4.50 tons
  route : String → String → Option PathResult
  route from to = path_in (
      find_path (record {
        snapshot = s.snapshot;
        start_node_id = from;
        end_node_id = to;
        objective = fastest;
        vehicle_weight_tons = 450;
        excluded_edge_ids = [];
      }))

  route_or_raise : String → String → Run PathResult
  route_or_raise from to = or_raise route_unavailable (route from to)

  replacement_route : String → Option String → Run (List String)
  replacement_route incident none = pure []
  replacement_route incident (some id) = do
    origin ← vehicle_node id
    path ← route_or_raise origin incident
    pure path.edge_ids

  reroute :
      BreakdownOrchestrationInput
      → OperationCaseSnapshot
      → Option String
      → Run OperationCaseSnapshot
  reroute command c none = pure c
  reroute command c (some id) = do
    origin ← vehicle_node id
    path ← route_or_raise origin c.mission.incident_node_id
    update_replacement_route command.task_id path.edge_ids

  request_of :
      BreakdownOrchestrationInput → PathResult → PathResult → List String → BreakdownCaseRequest
  request_of command outbound tow replacement_edge_ids = record {
    task_id = command.task_id;
    vehicle_id = command.vehicle_id;
    replacement_vehicle_id = command.replacement_vehicle_id;
    rescue_unit_id = s.rescue_unit_id;
    incident_node_id = command.incident_node_id;
    station_node_id = s.maintenance_node_id;
    outbound_edge_ids = outbound.edge_ids;
    tow_edge_ids = tow.edge_ids;
    fault_code = s.normalize command.fault_code;
    diagnosis = diagnosis_of (s.normalize command.fault_code);
    repair_minutes = 120;
    manual_inspection_required =
        requires_manual command.cargo_type command.severity (s.normalize command.fault_code);
    occurred_at = s.now;
    replacement_edge_ids = replacement_edge_ids;
  }

  begin_case : BreakdownOrchestrationInput → Run OperationCaseSnapshot
  begin_case command = do
    outbound ← route_or_raise s.rescue_node_id command.incident_node_id
    tow ← route_or_raise command.incident_node_id s.maintenance_node_id
    replacement ← replacement_route command.incident_node_id command.replacement_vehicle_id
    create_breakdown_case s.numbers (request_of command outbound tow replacement)

  orchestrate_from :
      BreakdownOrchestrationInput → Option OperationCaseSnapshot → Run OperationCaseSnapshot
  orchestrate_from command (some existing) = reroute command existing (is_unrouted existing)
  orchestrate_from command none = begin_case command

  pub orchestrate : BreakdownOrchestrationInput → Run OperationCaseSnapshot
  orchestrate command = get_case command.task_id >>= orchestrate_from command
