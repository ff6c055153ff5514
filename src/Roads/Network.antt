-- ===== src/Roads/Network.antt =====
-- backend/app/road_network/models.py, and the weights and the neighbours of dijkstra.py. Decimals are
-- numbers: kilometres, tons and factors in hundredths, so that weights of minutes are too. The
-- columns of a road edge hold no negative number; a risk level is one of the three that have a penalty.
use model_lib.Base.{
  ℕ, ◌+◌, ◌*◌, leb, String, Bool, true, false, not, ◌&&◌, List, [], ◌∷◌, ◌++◌, if◌then◌else◌,
}
use model_lib.Base.Eq.{◌==◌, string_eq}
use Prim.Native.Nat.{Ordering}
use Prim.Native.String.{compare, then as or_else}

pub data RouteObjective : Type 0 where
  fastest shortest safest : RouteObjective

pub data RiskLevel : Type 0 where
  low medium high : RiskLevel

-- The field of `RoadNodeSnapshot` that the search reads
pub record RoadNodeSnapshot : Type 0 where
  pub node_id : String

pub record RoadEdgeSnapshot : Type 0 where
  pub edge_id : String
  pub from_node_id : String
  pub to_node_id : String
  pub distance_km : ℕ
  pub base_minutes : ℕ
  pub risk_level : RiskLevel
  pub status : String
  pub congestion_factor : ℕ
  pub weight_limit_tons : ℕ
  pub bidirectional : Bool

pub record RoadNetworkSnapshot : Type 0 where
  pub nodes : List RoadNodeSnapshot
  pub edges : List RoadEdgeSnapshot

pub record PathResult : Type 0 where
  pub objective : RouteObjective
  pub node_ids : List String
  pub edge_ids : List String
  pub distance_km : ℕ
  pub estimated_minutes : ℕ
  pub risk_cost : ℕ
  pub visited_node_count : ℕ

-- `_risk_penalty`, in hundredths
pub risk_penalty : RoadEdgeSnapshot → ℕ
risk_penalty edge = of_level edge.risk_level
  where
    of_level : RiskLevel → ℕ
    of_level low = 0
    of_level medium = 400
    of_level high = 1200

-- `_weight`, in hundredths
pub weight : RouteObjective → RoadEdgeSnapshot → ℕ
weight shortest edge = edge.distance_km
weight fastest edge = edge.base_minutes * edge.congestion_factor
weight safest edge = edge.base_minutes * edge.congestion_factor + risk_penalty edge

unfoldable pub has_text : String → List String → Bool
has_text s [] = false
has_text s (t ∷ ts) = if t == s then true else has_text s ts

-- `_is_available`
pub is_available : RoadEdgeSnapshot → ℕ → List String → Bool
is_available edge vehicle_weight_tons excluded =
    not (has_text edge.edge_id excluded)
    && not (edge.status == "BLOCKED")
    && leb vehicle_weight_tons edge.weight_limit_tons

-- A neighbour, and the edge to it
pub record Link : Type 0 where
  pub next : String
  pub edge : RoadEdgeSnapshot

-- What an edge that is available adds to the neighbours of a node
unfoldable pub links_of : String → RoadEdgeSnapshot → List Link
links_of node edge =
    (if edge.from_node_id == node then record { next = edge.to_node_id; edge = edge } ∷ [] else [])
    ++ (if edge.bidirectional && edge.to_node_id == node
        then record { next = edge.from_node_id; edge = edge } ∷ []
        else [])

-- `(item[1].edge_id, item[0])`
unfoldable pub link_before : Link → Link → Bool
link_before a b = elim (or_else (compare a.edge.edge_id b.edge.edge_id) (compare a.next b.next)) [
  | Ordering.lt ↦ true
  | _ ↦ false
]

-- A stable sort
unfoldable pub insert_link : Link → List Link → List Link
insert_link a [] = a ∷ []
insert_link a (b ∷ rest) =
    let later = insert_link a rest in if link_before b a then b ∷ later else a ∷ b ∷ rest

unfoldable pub insert_links : List Link → List Link → List Link
insert_links [] sorted = sorted
insert_links (a ∷ more) sorted = insert_link a (insert_links more sorted)

unfoldable pub neighbours : (RoadEdgeSnapshot → Bool) → List RoadEdgeSnapshot → String → List Link
neighbours usable [] node = []
neighbours usable (edge ∷ rest) node =
    let others = neighbours usable rest node in
    if usable edge then insert_links (links_of node edge) others else others
