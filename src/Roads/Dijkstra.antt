-- ===== src/Roads/Dijkstra.antt =====
-- `DijkstraPathFinder` of backend/app/road_network/dijkstra.py. The heap is the list of its entries,
-- from which the least is taken.
pub mod Heap
pub mod Links
pub mod Invariant
pub mod Relax
pub mod Expand
pub mod Potential
pub mod Rounds
pub mod Cheapest
pub mod Running
pub mod Shortest
mod Tests
use model_lib.Base.{
  ℕ, zero, suc, ◌+◌, ◌*◌, ◌/◌, String, Bool, true, false, not, ◌||◌, Option, none, some, List, [],
  ◌∷◌, ◌++◌, length, if◌then◌else◌,
}
use model_lib.Base.Eq.{◌==◌, nat_eq, string_eq}
use Prim.Native.Nat.{Ordering, compare as compare_ℕ}
use Prim.Native.String.{compare, then as or_else}
use model_lib.Roads.Network.{
  RouteObjective, RoadNodeSnapshot, RoadEdgeSnapshot, RoadNetworkSnapshot, PathResult, risk_penalty,
  weight, is_available, Link, neighbours,
}
use model_lib.Roads.Order.{Key, compare_lists, compare_keys, key_before, extend}

-- The arguments of `find`
pub record Query : Type 0 where
  pub snapshot : RoadNetworkSnapshot
  pub start_node_id : String
  pub end_node_id : String
  pub objective : RouteObjective
  pub vehicle_weight_tons : ℕ
  pub excluded_edge_ids : List String

pub record Entry : Type 0 where
  pub key : Key
  pub node_id : String
  pub node_path : List String
  pub distance_km : ℕ
  pub risk_cost : ℕ

unfoldable pub compare_entries : Entry → Entry → Ordering
compare_entries a b = or_else (compare_keys a.key b.key) (
    or_else (compare a.node_id b.node_id) (
      or_else (compare_lists a.node_path b.node_path)
        (or_else (compare_ℕ a.distance_km b.distance_km) (compare_ℕ a.risk_cost b.risk_cost))))

unfoldable pub entry_before : Entry → Entry → Bool
entry_before a b = elim (compare_entries a b) [ Ordering.lt ↦ true | _ ↦ false ]

-- `heapq.heappop` of a heap that is not empty
unfoldable pub take_least : Entry → List Entry → Entry × List Entry
take_least e [] = (e, [])
take_least e (f ∷ rest) =
    let (least, others) = take_least f rest in
    if entry_before least e then (least, e ∷ others) else (e, least ∷ others)

-- One entry of the dictionary `best`
pub record Mark : Type 0 where
  pub node_id : String
  pub key : Key

unfoldable pub best_of : List Mark → String → Option Key
best_of [] node = none
best_of (m ∷ rest) node = if m.node_id == node then some m.key else best_of rest node

pub record State : Type 0 where
  pub best : List Mark
  pub heap : List Entry

unfoldable pub improves : Option Key → Key → Bool
improves none candidate = true
improves (some k) candidate = key_before candidate k

-- `best.get(node_id) != (cost, edge_ids)`, negated
unfoldable pub is_best : Option Key → Key → Bool
is_best none k = false
is_best (some b) k = elim (compare_keys b k) [ Ordering.eq ↦ true | _ ↦ false ]

unfoldable pub minutes_of : List RoadEdgeSnapshot → String → ℕ
minutes_of [] edge_id = 0
minutes_of (edge ∷ rest) edge_id =
    let later = minutes_of rest edge_id in
    if has_edge rest edge_id
    then later
    else if edge.edge_id == edge_id
    then edge.base_minutes * edge.congestion_factor
    else later
  where
    has_edge : List RoadEdgeSnapshot → String → Bool
    has_edge [] edge_id = false
    has_edge (edge ∷ rest) edge_id = if edge.edge_id == edge_id then true else has_edge rest edge_id

unfoldable pub total_minutes : List RoadEdgeSnapshot → List String → ℕ
total_minutes edges [] = 0
total_minutes edges (edge_id ∷ rest) = minutes_of edges edge_id + total_minutes edges rest

-- `_display_minutes`: hundredths, rounded up
unfoldable pub display_minutes : RoadNetworkSnapshot → List String → ℕ
display_minutes snapshot edge_ids = (total_minutes snapshot.edges edge_ids + 99) / 100

pub data Search : Type 0 where
  found : PathResult → Search
  no_path out_of_fuel : Search

unfoldable pub has_node : String → List RoadNodeSnapshot → Bool
has_node id [] = false
has_node id (n ∷ rest) = if n.node_id == id then true else has_node id rest

pub data Round : Type 0 where
  finished : Search → Round
  go_on : ℕ → State → Round

module _ (q : Query) where
  unfoldable pub links : String → List Link
  links node =
      neighbours (λ edge. is_available edge q.vehicle_weight_tons q.excluded_edge_ids)
        q.snapshot.edges node

  unfoldable pub next_entry : Entry → Link → Entry
  next_entry e l = record {
    key = extend e.key (weight q.objective l.edge) l.edge.edge_id;
    node_id = l.next;
    node_path = e.node_path ++ l.next ∷ [];
    distance_km = e.distance_km + l.edge.distance_km;
    risk_cost = e.risk_cost + risk_penalty l.edge;
  }

  unfoldable pub relax : Entry → State → Link → State
  relax e st l =
      if improves (best_of st.best l.next) (next_entry e l).key
      then record {
        best = record { node_id = l.next; key = (next_entry e l).key } ∷ st.best;
        heap = next_entry e l ∷ st.heap;
      }
      else st

  unfoldable pub relax_all : Entry → State → List Link → State
  relax_all e st [] = st
  relax_all e st (l ∷ ls) = relax_all e (relax e st l) ls

  unfoldable pub result_of : Entry → ℕ → PathResult
  result_of e visited = record {
    objective = q.objective;
    node_ids = e.node_path;
    edge_ids = e.key.edge_ids;
    distance_km = e.distance_km;
    estimated_minutes = display_minutes q.snapshot e.key.edge_ids;
    risk_cost = e.risk_cost;
    visited_node_count = visited;
  }

  unfoldable pub after_entry : ℕ → State → Entry → Bool → Bool → Round
  after_entry visited st e false ended = go_on visited st
  after_entry visited st e true true = finished (found (result_of e (suc visited)))
  after_entry visited st e true false = go_on (suc visited) (relax_all e st (links e.node_id))

  -- One round of the loop, on the heap without its least entry
  unfoldable pub round_of : ℕ → List Mark → Entry × List Entry → Round
  round_of visited best (least, others) =
      after_entry visited (record { best = best; heap = others }) least
        (is_best (best_of best least.node_id) least.key) (least.node_id == q.end_node_id)

  unfoldable pub one_round : ℕ → List Mark → List Entry → Round
  one_round visited best [] = finished no_path
  one_round visited best (e ∷ rest) = round_of visited best (take_least e rest)

  -- The loop, each round on one unit of fuel
  unfoldable pub search : ℕ → ℕ → State → Search
  search zero visited st = out_of_fuel
  search (suc fuel) visited st = elim (one_round visited st.best st.heap) [
    | finished r ↦ r
    | go_on now after ↦ search fuel now after
  ]

  unfoldable pub first_state : State
  first_state = record {
    best = record { node_id = q.start_node_id; key = record { cost = 0; edge_ids = [] } } ∷ [];
    heap =
        record {
          key = record { cost = 0; edge_ids = [] };
          node_id = q.start_node_id;
          node_path = q.start_node_id ∷ [];
          distance_km = 0;
          risk_cost = 0;
        }
        ∷ [];
  }

  -- `find`, on fuel
  unfoldable pub find_within : ℕ → Search
  find_within fuel =
      if not (has_node q.start_node_id q.snapshot.nodes)
        || not (has_node q.end_node_id q.snapshot.nodes)
      then no_path
      else if q.start_node_id == q.end_node_id
      then found (record {
        objective = q.objective;
        node_ids = q.start_node_id ∷ [];
        edge_ids = [];
        distance_km = 0;
        estimated_minutes = 0;
        risk_cost = 0;
        visited_node_count = 0;
      })
      else search fuel 0 first_state

  -- `find`. A node is expanded at most once, so an edge gives at most two entries of the heap.
  unfoldable pub find_path : Search
  find_path = find_within (2 * length q.snapshot.edges + 2)
