-- ===== src/Vehicles/Orchestrate/Tests.antt =====
-- The breakdown of a vehicle whose rescue is on its way.
use model_lib.Base.{refl, none, some, []}
use model_lib.Vehicles.Status.{dispatched}
use model_lib.Vehicles.Tables.{find}
use model_lib.Vehicles.Tables.Keeps.{After}
use model_lib.Vehicles.Cases.{mission_of}
use model_lib.Vehicles.Opening.Tests.{numbers}
use model_lib.Vehicles.Workshop.Tests.{mission, rescue_town}
use model_lib.Vehicles.Orchestrate.{
  BreakdownOrchestrationInput, RescueOrchestrationService, orchestrate,
}
use model_lib.Vehicles.Orchestrate.Again.{SameTables, orchestrate_again}

abbrev service : RescueOrchestrationService
service = record {
  snapshot = record { nodes = []; edges = [] };
  now = 100;
  numbers = numbers;
  normalize = λ s. s;
  rescue_unit_id = "RU-001";
  rescue_node_id = "N15";
  maintenance_node_id = "N15";
}

abbrev command : BreakdownOrchestrationInput
command = record {
  task_id = "T-7";
  vehicle_id = "V-1";
  replacement_vehicle_id = none;
  incident_node_id = "N04";
  cargo_type = "GENERAL";
  severity = "HIGH";
  fault_code = "BRAKE_FAILURE";
}

orchestrate_again_example : After (SameTables rescue_town) (orchestrate service command rescue_town)
unfolding mission_of find
orchestrate_again_example =
    orchestrate_again rescue_town service command
      (record mission { status = dispatched; next_transition_at = some 108 }) refl
