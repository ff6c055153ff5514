-- ===== src/Audit/Path.antt =====
-- `_road_edges_by_id`, `_path_connects` and `_path_edges_are_open` of backend/app/audit/service.py.
pub mod Walks
use model_lib.Base.{
  ℕ, ◌+◌, String, Bool, true, false, not, ◌&&◌, ◌||◌, Option, none, some, List, [], ◌∷◌, length,
  if◌then◌else◌,
}
use model_lib.Base.Eq.{◌==◌, nat_eq, string_eq, option_eq}
use model_lib.Audit.Value.{
  Value, sequence, mapping, Values, nil, cons, Entries, get, is_true, is_text, text_key,
}

-- The later of two edges with one id replaces the earlier one.
unfoldable pub later_or : Option Entries → Option Entries → Option Entries
later_or (some later) own = some later
later_or none own = own

unfoldable pub own_edge : Value → String → Option Entries
own_edge (mapping m) edge_id = if text_key m "edge_id" == some edge_id then some m else none
own_edge _ edge_id = none

unfoldable pub last_edge : Values → String → Option Entries
last_edge nil edge_id = none
last_edge (cons v vs) edge_id = later_or (last_edge vs edge_id) (own_edge v edge_id)

-- `_road_edges_by_id(road_edges).get(edge_id)`
unfoldable pub edge_by_id : Value → String → Option Entries
edge_by_id (sequence vs) edge_id = last_edge vs edge_id
edge_by_id _ edge_id = none

-- The edge leads from one node to the other, or back if it goes both ways.
unfoldable pub connects : Option Entries → String → String → Bool
connects none path_start path_end = false
connects (some edge) path_start path_end =
    (text_key edge "from_node_id" == some path_start && text_key edge "to_node_id" == some path_end)
    || (is_true (get edge "bidirectional")
        && (text_key edge "to_node_id" == some path_start
            && text_key edge "from_node_id" == some path_end))

-- The loop, from the node where the path stands.
unfoldable pub follows : Value → List String → List String → Bool
follows road_edges (start ∷ end ∷ nodes) (e ∷ es) =
    connects (edge_by_id road_edges e) start end && follows road_edges (end ∷ nodes) es
follows road_edges nodes [] = true
follows road_edges _ (e ∷ es) = false

unfoldable pub is_empty : List String → Bool
is_empty [] = true
is_empty _ = false

-- `_path_connects`
unfoldable pub path_connects : List String → List String → Value → Bool
path_connects node_ids edge_ids road_edges =
    if is_empty edge_ids || not (length node_ids == length edge_ids + 1)
    then false
    else follows road_edges node_ids edge_ids

unfoldable pub status_is_allowed : Option Entries → Bool
status_is_allowed none = false
status_is_allowed (some edge) =
    is_text (get edge "status") "OPEN"
    || is_text (get edge "status") "CONGESTED"
    || is_text (get edge "status") "RESTRICTED"

unfoldable pub all_open : Value → List String → Bool
all_open road_edges [] = true
all_open road_edges (e ∷ es) = status_is_allowed (edge_by_id road_edges e) && all_open road_edges es

-- `_path_edges_are_open`
unfoldable pub path_edges_are_open : List String → Value → Bool
path_edges_are_open edge_ids road_edges = not (is_empty edge_ids) && all_open road_edges edge_ids

unfoldable pub contains : List String → String → Bool
contains [] x = false
contains (y ∷ ys) x = y == x || contains ys x

-- `set(xs).isdisjoint(ys)`
unfoldable pub is_disjoint : List String → List String → Bool
is_disjoint [] ys = true
is_disjoint (x ∷ xs) ys = not (contains ys x) && is_disjoint xs ys
