-- ===== src/Roads/Dijkstra/Expand.antt =====
-- Expanding an entry relaxes all its links.
use model_lib.Base.{
  ◌+◌, ◌≤◌, String, ◌≡◌, refl, ◌∙◌, true, some, List, [], ◌∷◌, length, ◌⊎◌, inl, inr, arith,
  Bool-cases,
}
use model_lib.Roads.Network.{Link, has_text}
use model_lib.Roads.Dijkstra.{
  Query, Entry, best_of, State, improves, links, next_entry, relax, relax_all,
}
use model_lib.Roads.Dijkstra.Heap.{Elem}
use model_lib.Roads.Dijkstra.Invariant.{Walk, Reached, Holds}
use model_lib.Roads.Dijkstra.Relax.{
  not_improves, best_of-other, Done, fresh, relax_better, relax_worse,
}

-- A state on the way through the links of an entry
pub record Expanding (q : Query) (closed : List String) (e : Entry) (done : String → Link → Type 0)
    (st : State) : Type 0 where
  pub holds : Holds q closed done e.key st
  pub own : best_of st.best e.node_id ≡ some e.key

module _ (q : Query) (closed : List String) (e : Entry)
    (isclosed : has_text e.node_id closed ≡ true)
    (walked : Walk q e.node_id e.key.cost e.key.edge_ids e.node_path) where
  relax-Expanding :
      (done : String → Link → Type 0) (st : State) (l : Link)
      → Elem l (links q e.node_id)
      → Expanding q closed e done st
      → Expanding q closed e (Done done e.node_id l) (relax q e st l)
  unfolding relax
  relax-Expanding done st l linked x =
      elim (Bool-cases (improves (best_of st.best l.next) (next_entry q e l).key)) [
        | inl b ↦ rw b (record {
          holds = relax_better q closed e done st x.holds l x.own walked linked b;
          own =
              best_of-other st.best l.next (next_entry q e l).key b e.node_id
                (fresh q closed e done st x.holds l x.own walked linked b e.node_id isclosed)
              ∙ x.own;
        })
        | inr b ↦ rw b (record {
          holds = relax_worse q closed e done st x.holds l x.own walked linked b;
          own = x.own;
        })
      ]

  abbrev pub DoneAll : (String → Link → Type 0) → List Link → String → Link → Type 0
  DoneAll done ls node link = done node link ⊎ ((node ≡ e.node_id) × Elem link ls)

  pub weaken :
      (a b : String → Link → Type 0) (st : State)
      → ((node : String) (link : Link) → has_text node closed ≡ true → b node link → a node link)
      → Expanding q closed e a st
      → Expanding q closed e b st
  weaken a b st f x = record {
    holds = record {
      frontier = x.holds.frontier;
      settled = x.holds.settled;
      relaxed = λ node k l c d m. x.holds.relaxed node k l c (f node l c d) m;
      later = x.holds.later;
      walks = x.holds.walks;
      origin = x.holds.origin;
      unfinished = x.holds.unfinished;
    };
    own = x.own;
  }

  pub relax_all-Expanding :
      (ls : List Link) (done : String → Link → Type 0) (st : State)
      → ((l : Link) → Elem l ls → Elem l (links q e.node_id))
      → Expanding q closed e done st
      → Expanding q closed e (DoneAll done ls) (relax_all q e st ls)
  unfolding relax_all
  relax_all-Expanding [] done st linked x = weaken done _ st drop x
    where
      drop :
          (node : String) (link : Link)
          → has_text node closed ≡ true
          → DoneAll done [] node link
          → done node link
      drop node link c (inl d) = d
      drop node link c (inr (p, m)) = elim m [ ]
  relax_all-Expanding (l ∷ ls) done st linked x = weaken _ _ _ split (
      relax_all-Expanding ls (Done done e.node_id l) (relax q e st l) (λ k m. linked k (inr m))
        (relax-Expanding done st l (linked l (inl refl)) x))
    where
      split :
          (node : String) (link : Link)
          → has_text node closed ≡ true
          → DoneAll done (l ∷ ls) node link
          → DoneAll (Done done e.node_id l) ls node link
      split node link c (inl d) = inl (inl d)
      split node link c (inr (p, inl m)) = inl (inr (p, m))
      split node link c (inr (p, inr m)) = inr (p, m)

module _ (q : Query) (e : Entry) where
  relax-length : (st : State) (l : Link) → length (relax q e st l).heap ≤ length st.heap + 1
  unfolding relax
  relax-length st l = elim (Bool-cases (improves (best_of st.best l.next) (next_entry q e l).key)) [
    | inl b ↦ rw b (omega arith)
    | inr b ↦ rw b (omega arith)
  ]

  pub relax_all-length :
      (ls : List Link) (st : State) → length (relax_all q e st ls).heap ≤ length st.heap + length ls
  unfolding relax_all
  relax_all-length [] st = omega arith
  relax_all-length (l ∷ ls) st =
      omega (arith, relax_all-length ls (relax q e st l), relax-length st l)

  -- Nothing changes where every link is relaxed already.
  pub relax_all-same :
      (ls : List Link) (st : State)
      → ((l : Link) → Elem l ls → Reached st.best l.next (next_entry q e l).key)
      → relax_all q e st ls ≡ st
  unfolding relax_all relax
  relax_all-same [] st h = refl
  relax_all-same (l ∷ ls) st h =
      rw (not_improves st.best l.next (next_entry q e l).key (h l (inl refl)))
        (relax_all-same ls st (λ k m. h k (inr m)))
