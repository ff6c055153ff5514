-- ===== src/Vehicles.antt =====
-- backend/app/vehicle_operations: breakdown cases, from the rescue of a vehicle to its release.
pub mod Status
pub mod Tables
pub mod Cases
pub mod Due
pub mod Opening
pub mod Orchestrate
pub mod Progress
pub mod Rescue
pub mod History
pub mod Runs
pub mod Work
pub mod Workshop
