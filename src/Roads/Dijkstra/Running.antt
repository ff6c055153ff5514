-- ===== src/Roads/Dijkstra/Running.antt =====
-- The loop ends, with a correct answer.
use mathlib.Core.Path.{subst}
use model_lib.Base.{
  ℕ, zero, suc, ◌+◌, ◌≤◌, ◌<◌, String, ◌≡◌, ap, false, none, some, List, [], ◌∷◌, length, inl, inr,
  arith, Bool-cases,
}
use model_lib.Base.Eq.{◌==◌, string_eq, ==_iff}
use model_lib.Roads.Network.{has_text, is_available}
use model_lib.Roads.Order.{Key}
use model_lib.Roads.Order.Keys.{AtMost-cost}
use model_lib.Roads.Dijkstra.{
  Query, Entry, Mark, best_of, is_best, State, links, relax_all, take_least, found, Round, finished,
  go_on, result_of, after_entry, round_of, one_round, search,
}
use model_lib.Roads.Dijkstra.Heap.{Taken, take_least-Taken, is_best-some}
use model_lib.Roads.Dijkstra.Invariant.{Walk, Holds}
use model_lib.Roads.Dijkstra.Expand.{relax_all-length}
use model_lib.Roads.Dijkstra.Potential.{potential, potential_less, length-neighbours}
use model_lib.Roads.Dijkstra.Rounds.{Full, skip-Holds, expand-Holds, expand_again}
use model_lib.Roads.Dijkstra.Cheapest.{Correct, goal-Ahead}

-- What is left to do: entries to take, and links of nodes that are not expanded.
abbrev pub remaining : Query → List String → List Entry → ℕ
remaining q closed heap = length heap + potential closed q.snapshot.edges

-- A state that the loop can be in, and its next round
pub record Running (q : Query) (fuel : ℕ) (st : State) : Type 0 where
  pub closed : List String
  pub last : Key
  pub holds : Holds q closed (Full q) last st
  pub enough : remaining q closed st.heap < fuel

GoodRound : Query → ℕ → Round → Type 0
GoodRound q fuel (finished r) = Correct q r
GoodRound q fuel (go_on visited st) = Running q fuel st

module _ (q : Query) (fuel : ℕ) (best : List Mark) (heap : List Entry)
    (r : Running q (suc fuel) (record { best = best; heap = heap })) (least : Entry)
    (others : List Entry) (t : Taken heap least others) where
  skip_round :
      is_best (best_of best least.node_id) least.key ≡ false
      → Running q fuel (record { best = best; heap = others })
  skip_round stale = record {
    closed = r.closed;
    last = r.last;
    holds = skip-Holds q r.closed r.last best heap least others r.holds t stale;
    enough = omega (arith, r.enough, t.shorter);
  }

  found_round :
      (visited : ℕ) → least.node_id ≡ q.end_node_id → Correct q (found (result_of q least visited))
  unfolding Correct result_of
  found_round visited at = (
    least.key.cost,
    record {
      is_walk =
          subst (λ n. Walk q n least.key.cost least.key.edge_ids least.node_path) at
            (r.holds.walks least t.stands);
      least = cheapest;
    },
  )
    where
      cheapest : (c : ℕ) (es ns : List String) → Walk q q.end_node_id c es ns → least.key.cost ≤ c
      cheapest c es ns w =
          let (f, m, le) = goal-Ahead q r.closed r.last _ r.holds c es ns w in
          elim (t.rest f m) [
            | inl p ↦ omega (arith, le, ap (λ (x : Entry). x.key.cost) p)
            | inr k ↦ omega (arith, le, AtMost-cost least.key f.key (t.first f k))
          ]

  expand_round :
      best_of best least.node_id ≡ some least.key
      → (least.node_id == q.end_node_id) ≡ false
      → Running q fuel
          (relax_all q least (record { best = best; heap = others }) (links q least.node_id))
  unfolding links
  expand_round own goes_on = record {
    closed = least.node_id ∷ r.closed;
    last = least.key;
    holds = expand-Holds q r.closed r.last best heap least others r.holds t own goes_on;
    enough = elim (Bool-cases (has_text least.node_id r.closed)) [
      | inl c ↦ rw (expand_again q r.closed r.last best heap least others r.holds t own goes_on c) (
          omega
            (arith, r.enough, t.shorter, potential_less least.node_id r.closed q.snapshot.edges))
      | inr c ↦ omega (
        arith,
        r.enough,
        t.shorter,
        relax_all-length q least (links q least.node_id) (record { best = best; heap = others }),
        length-neighbours (λ edge. is_available edge q.vehicle_weight_tons q.excluded_edge_ids)
            least.node_id r.closed q.snapshot.edges c,
      )
    ];
  }

  round_good : (visited : ℕ) → GoodRound q fuel (round_of q visited best (least, others))
  unfolding round_of after_entry GoodRound
  round_good visited = elim (Bool-cases (is_best (best_of best least.node_id) least.key)) [
    | inr stale ↦ rw stale (skip_round stale)
    | inl own ↦ elim (Bool-cases (least.node_id == q.end_node_id)) [
      | inl at ↦
          rw (own, at) (found_round (suc visited) ((==_iff least.node_id q.end_node_id).0 at))
      | inr on ↦ rw (own, on) (expand_round (is_best-some _ least.key own) on)
    ]
  ]

one_round_good :
    (q : Query) (fuel visited : ℕ) (best : List Mark) (heap : List Entry)
    → Running q (suc fuel) (record { best = best; heap = heap })
    → GoodRound q fuel (one_round q visited best heap)
unfolding one_round GoodRound Correct
one_round_good q fuel visited best [] r =
    λ c es ns w. let (f, m, le) = goal-Ahead q r.closed r.last _ r.holds c es ns w in m
one_round_good q fuel visited best (e ∷ rest) r =
    round_good q fuel best (e ∷ rest) r (take_least e rest).0 (take_least e rest).1
      (take_least-Taken e rest) visited

pub none_not : (k : Key) → none ≡ some k → ⊥
none_not k e = ground (arith, e)

not_less_zero : (n : ℕ) → n < 0 → ⊥
not_less_zero n h = omega (arith, h)

pub search-Correct :
    (q : Query) (fuel visited : ℕ) (st : State)
    → Running q fuel st
    → Correct q (search q fuel visited st)
unfolding search GoodRound
search-Correct q zero visited st r = elim (not_less_zero _ r.enough) [ ]
search-Correct q (suc fuel) visited st r =
    go (one_round q visited st.best st.heap) (one_round_good q fuel visited st.best st.heap r)
      (λ now after a. search-Correct q fuel now after a)
  where
    go :
        (x : Round)
        → GoodRound q fuel x
        → ((now : ℕ) (after : State) → Running q fuel after → Correct q (search q fuel now after))
        → Correct q (elim x [ finished r ↦ r | go_on now after ↦ search q fuel now after ])
    go (finished result) good rest = good
    go (go_on now after) good rest = rest now after good
