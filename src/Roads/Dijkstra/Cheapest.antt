-- ===== src/Roads/Dijkstra/Cheapest.antt =====
-- What a cheapest way is, and that some entry of the heap is ahead of every way.
use mathlib.Core.Bool.{true≢false}
use model_lib.Base.{
  ℕ, ◌≤◌, String, ◌≡◌, sym, ap, ◌∙◌, true, some, List, ◌⊎◌, inl, inr, arith, Bool-cases,
}
use model_lib.Base.Eq.{string_eq}
use model_lib.Roads.Network.{weight, has_text}
use model_lib.Roads.Order.{Key, extend}
use model_lib.Roads.Order.Keys.{AtMost-cost}
use model_lib.Roads.Dijkstra.{Query, Entry, best_of, State, Search, found, no_path, out_of_fuel}
use model_lib.Roads.Dijkstra.Heap.{Elem}
use model_lib.Roads.Dijkstra.Links.{Connects-links}
use model_lib.Roads.Dijkstra.Invariant.{Walk, here, along, Reached, Holds}
use model_lib.Roads.Dijkstra.Rounds.{Full}

-- A cheapest way to a node
pub record Cheapest (q : Query) (cost : ℕ) (edge_ids nodes : List String) : Type 0 where
  pub is_walk : Walk q q.end_node_id cost edge_ids nodes
  pub least : (c : ℕ) (es ns : List String) → Walk q q.end_node_id c es ns → cost ≤ c

unfoldable pub Correct : Query → Search → Type 0
Correct q (found r) = (cost : ℕ) × Cheapest q cost r.edge_ids r.node_ids
Correct q no_path = (c : ℕ) (es ns : List String) → Walk q q.end_node_id c es ns → ⊥
Correct q out_of_fuel = ⊥

module _ (q : Query) (closed : List String) (last : Key) (st : State)
    (h : Holds q closed (Full q) last st) where
  -- A way within a cost is in the heap or known.
  abbrev pub Ahead : String → ℕ → Type 0
  Ahead node c =
      ((f : Entry) × Elem f st.heap × (f.key.cost ≤ c))
      ⊎ ((has_text node closed ≡ true) × (k : Key) × (best_of st.best node ≡ some k) × (k.cost ≤ c))

  Reached-Ahead :
      (node : String) (limit : Key) (c : ℕ)
      → Reached st.best node limit
      → limit.cost ≤ c
      → Ahead node c
  Reached-Ahead node limit c r le = elim (Bool-cases (has_text node closed)) [
    | inl p ↦ inr (p, r.key, r.marked, omega (arith, le, AtMost-cost r.key limit r.within))
    | inr p ↦
        let w = h.frontier node r.key r.marked p in
        inl (
          w.entry,
          w.stands,
          omega (arith, le, AtMost-cost r.key limit r.within, ap (λ (k : Key). k.cost) w.keyed),
        )
  ]

  Walk-Ahead : (node : String) (c : ℕ) (es ns : List String) → Walk q node c es ns → Ahead node c
  unfolding extend
  Walk-Ahead node c es ns here = Reached-Ahead q.start_node_id _ 0 h.origin (omega arith)
  Walk-Ahead node c es ns (along from cost edges nodes l w linked) =
      elim (Walk-Ahead from cost edges nodes w) [
        | inl (f, m, le) ↦ inl (f, m, omega (arith, le))
        | inr (c, k, m, le) ↦
            Reached-Ahead l.next (extend k (weight q.objective l.edge) l.edge.edge_id) _
              (h.relaxed from k l c (Connects-links q from l linked) m) (omega (arith, le))
      ]

  pub goal-Ahead :
      (c : ℕ) (es ns : List String)
      → Walk q q.end_node_id c es ns
      → (f : Entry) × Elem f st.heap × (f.key.cost ≤ c)
  goal-Ahead c es ns w = elim (Walk-Ahead q.end_node_id c es ns w) [
    | inl a ↦ a
    | inr (p, k, m, le) ↦ elim (true≢false (sym p ∙ h.unfinished)) [ ]
  ]
