-- ===== src/Roads/Dijkstra/Tests.antt =====
-- Three nodes: a long road between two of them, and two short ones by the third.
use model_lib.Base.{String, ℕ, refl, true, [], ◌∷◌}
use model_lib.Roads.Network.{RoadEdgeSnapshot, fastest, low}
use model_lib.Roads.Dijkstra.{Query, has_node, find_path}
use model_lib.Roads.Dijkstra.Cheapest.{Correct}
use model_lib.Roads.Dijkstra.Shortest.{find_path-Correct}

abbrev road : String → String → String → ℕ → RoadEdgeSnapshot
road id from to minutes = record {
  edge_id = id;
  from_node_id = from;
  to_node_id = to;
  distance_km = 100;
  base_minutes = minutes;
  risk_level = low;
  status = "OPEN";
  congestion_factor = 100;
  weight_limit_tons = 1000;
  bidirectional = true;
}

abbrev query : Query
query = record {
  snapshot = record {
    nodes = record { node_id = "N1" } ∷ record { node_id = "N2" } ∷ record { node_id = "N3" } ∷ [];
    edges = road "E1" "N1" "N3" 30 ∷ road "E2" "N1" "N2" 10 ∷ road "E3" "N3" "N2" 10 ∷ [];
  };
  start_node_id = "N1";
  end_node_id = "N3";
  objective = fastest;
  vehicle_weight_tons = 450;
  excluded_edge_ids = [];
}

find_path-Correct_example : Correct query (find_path query)
unfolding has_node
find_path-Correct_example = find_path-Correct query refl refl
