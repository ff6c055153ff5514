-- ===== src/Roads/Dijkstra/Shortest.antt =====
-- The search gives a cheapest way, and says that there is none only when there is none.
use mathlib.Core.Path.{subst}
use mathlib.Core.Bool.{true≢false}
use model_lib.Base.{
  ◌+◌, ◌*◌, String, ◌≡◌, refl, sym, true, some, List, [], ◌∷◌, length, inl, inr, arith, Bool-cases,
}
use model_lib.Base.Eq.{◌==◌, string_eq, eq_refl, ==_iff}
use model_lib.Roads.Network.{has_text}
use model_lib.Roads.Order.{Key}
use model_lib.Roads.Order.Keys.{AtMost, AtMost-same}
use model_lib.Roads.Dijkstra.{
  Query, Entry, Mark, best_of, search, first_state, has_node, find_within, find_path,
}
use model_lib.Roads.Dijkstra.Heap.{Elem}
use model_lib.Roads.Dijkstra.Invariant.{Walk, here, Waiting, Holds}
use model_lib.Roads.Dijkstra.Potential.{potential-bound}
use model_lib.Roads.Dijkstra.Rounds.{Full}
use model_lib.Roads.Dijkstra.Cheapest.{Cheapest, Correct}
use model_lib.Roads.Dijkstra.Running.{search-Correct, none_not}

abbrev no_key : Key
no_key = record { cost = 0; edge_ids = [] }

-- The first state: the start waits at no cost.
module _ (q : Query) where
  abbrev first_entry : Entry
  first_entry = record {
    key = no_key;
    node_id = q.start_node_id;
    node_path = q.start_node_id ∷ [];
    distance_km = 0;
    risk_cost = 0;
  }

  abbrev first_marks : List Mark
  first_marks = record { node_id = q.start_node_id; key = no_key } ∷ []

  first-frontier :
      (node : String) (k : Key)
      → best_of first_marks node ≡ some k
      → Waiting (first_entry ∷ []) node k
  unfolding best_of
  first-frontier node k m = elim (Bool-cases (q.start_node_id == node)) [
    | inl p ↦ record {
      entry = first_entry;
      stands = inl refl;
      at = (==_iff q.start_node_id node).0 p;
      keyed = ground (arith, m, p);
    }
    | inr p ↦ elim (none_not k (ground (arith, m, p))) [ ]
  ]

  first-later : (e : Entry) → Elem e (first_entry ∷ []) → AtMost no_key e.key
  first-later e (inl p) = subst (λ (x : Entry). AtMost no_key x.key) (sym p) (AtMost-same no_key)
  first-later e (inr m) = elim m [ ]

  first-walks :
      (e : Entry)
      → Elem e (first_entry ∷ [])
      → Walk q e.node_id e.key.cost e.key.edge_ids e.node_path
  first-walks e (inl p) =
      subst (λ (x : Entry). Walk q x.node_id x.key.cost x.key.edge_ids x.node_path) (sym p) here
  first-walks e (inr m) = elim m [ ]

  first-Holds : Holds q [] (Full q) no_key (record { best = first_marks; heap = first_entry ∷ [] })
  unfolding has_text best_of
  first-Holds = record {
    frontier = λ node k m c. first-frontier node k m;
    settled = λ node c. elim (true≢false (sym c)) [ ];
    relaxed = λ node k l c d m. elim (true≢false (sym c)) [ ];
    later = first-later;
    walks = first-walks;
    origin = record {
      key = no_key;
      marked = rw (eq_refl q.start_node_id) refl;
      within = AtMost-same no_key;
    };
    unfinished = refl;
  }

  first-Correct : Correct q (search q (2 * length q.snapshot.edges + 2) 0 (first_state q))
  unfolding first_state
  first-Correct = search-Correct q _ 0 _ (record {
    closed = [];
    last = no_key;
    holds = first-Holds;
    enough = omega (arith, potential-bound [] q.snapshot.edges);
  })

  stay-Cheapest : q.start_node_id ≡ q.end_node_id → Cheapest q 0 [] (q.start_node_id ∷ [])
  stay-Cheapest p = record {
    is_walk = subst (λ n. Walk q n 0 [] (q.start_node_id ∷ [])) p here;
    least = λ c es ns w. omega arith;
  }

  -- Between two nodes of the network, `find` ends and either gives the edges and the nodes of a way
  -- that costs no more than any other, or there is no way.
  pub find_path-Correct :
      has_node q.start_node_id q.snapshot.nodes ≡ true
      → has_node q.end_node_id q.snapshot.nodes ≡ true
      → Correct q (find_path q)
  unfolding find_path find_within Correct
  find_path-Correct from to = elim (Bool-cases (q.start_node_id == q.end_node_id)) [
    | inl p ↦ rw (from, to, p) (0, stay-Cheapest ((==_iff q.start_node_id q.end_node_id).0 p))
    | inr p ↦ rw (from, to, p) first-Correct
  ]
