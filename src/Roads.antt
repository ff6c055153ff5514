-- ===== src/Roads.antt =====
-- The search for a path in the road network: backend/app/road_network.
pub mod Network
pub mod Order
pub mod Dijkstra
