-- ===== src/Roads/Dijkstra/Invariant.antt =====
-- The state of the search between two rounds.
use model_lib.Base.{ℕ, ◌+◌, String, ◌≡◌, true, false, some, List, [], ◌∷◌, ◌++◌}
use model_lib.Roads.Network.{Link, weight, has_text}
use model_lib.Roads.Order.{Key, extend}
use model_lib.Roads.Order.Keys.{AtMost}
use model_lib.Roads.Dijkstra.{Query, Entry, Mark, best_of, State}
use model_lib.Roads.Dijkstra.Heap.{Elem}
use model_lib.Roads.Dijkstra.Links.{Connects}

-- A way from the start along roads that the vehicle may take: the node that it reaches, its cost, its edges and its nodes
pub data Walk (q : Query) : String → ℕ → List String → List String → Type 0 where
  here : Walk q q.start_node_id 0 [] (q.start_node_id ∷ [])
  along :
      (node : String) (cost : ℕ) (edge_ids nodes : List String) (l : Link)
      → Walk q node cost edge_ids nodes
      → Connects q node l
      → Walk q l.next
          (cost + weight q.objective l.edge)
          (edge_ids ++ l.edge.edge_id ∷ [])
          (nodes ++ l.next ∷ [])

pub record Reached (best : List Mark) (node : String) (limit : Key) : Type 0 where
  pub key : Key
  pub marked : best_of best node ≡ some key
  pub within : AtMost key limit

pub record Waiting (heap : List Entry) (node : String) (k : Key) : Type 0 where
  pub entry : Entry
  pub stands : Elem entry heap
  pub at : entry.node_id ≡ node
  pub keyed : entry.key ≡ k

-- What holds when the nodes in `closed` have been expanded, of whose links those in `done` are
-- relaxed, and no key in the heap comes before `last`
pub record Holds (q : Query) (closed : List String) (done : String → Link → Type 0) (last : Key)
    (st : State) : Type 0 where
  pub frontier :
      (node : String) (k : Key)
      → best_of st.best node ≡ some k
      → has_text node closed ≡ false
      → Waiting st.heap node k
  pub settled : (node : String) → has_text node closed ≡ true → Reached st.best node last
  pub relaxed :
      (node : String) (k : Key) (l : Link)
      → has_text node closed ≡ true
      → done node l
      → best_of st.best node ≡ some k
      → Reached st.best l.next (extend k (weight q.objective l.edge) l.edge.edge_id)
  pub later : (e : Entry) → Elem e st.heap → AtMost last e.key
  pub walks : (e : Entry) → Elem e st.heap → Walk q e.node_id e.key.cost e.key.edge_ids e.node_path
  pub origin : Reached st.best q.start_node_id (record { cost = 0; edge_ids = [] })
  pub unfinished : has_text q.end_node_id closed ≡ false
