-- ===== src/Roads/Dijkstra/Relax.antt =====
-- Relaxing a link keeps the invariant.
use mathlib.Core.Path.{subst}
use mathlib.Core.Bool.{true≢false}
use model_lib.Base.{
  String, ◌≡◌, refl, sym, ap, ◌∙◌, true, false, some, List, ◌∷◌, ◌⊎◌, inl, inr, arith, Bool-cases,
  Option-cases,
}
use model_lib.Base.Eq.{◌==◌, string_eq, eq_refl, ==_iff}
use model_lib.Roads.Network.{Link, weight, has_text}
use model_lib.Roads.Order.{Key, key_before, extend}
use model_lib.Roads.Order.Keys.{AtMost, AtMost-same, AtMost_trans, before-AtMost, extend-AtMost}
use model_lib.Roads.Dijkstra.{Query, Entry, Mark, best_of, State, improves, links, next_entry}
use model_lib.Roads.Dijkstra.Heap.{Elem}
use model_lib.Roads.Dijkstra.Links.{links-Connects}
use model_lib.Roads.Dijkstra.Invariant.{Walk, along, Reached, Waiting, Holds}

-- A key that does not improve on the best one
pub improves_not :
    (best : List Mark) (node : String) (candidate : Key)
    → improves (best_of best node) candidate ≡ false
    → Reached best node candidate
unfolding improves AtMost
improves_not best node candidate e = elim (Option-cases (best_of best node)) [
  | inl p ↦ ground (arith, e, p)
  | inr (k, p) ↦ record { key = k; marked = p; within = ground (arith, e, p) }
]

pub not_improves :
    (best : List Mark) (node : String) (candidate : Key)
    → Reached best node candidate
    → improves (best_of best node) candidate ≡ false
unfolding improves AtMost
not_improves best node candidate r = ground (arith, r.marked, r.within)

pub widen-Reached :
    (best : List Mark) (node : String) (a b : Key)
    → AtMost a b
    → Reached best node a
    → Reached best node b
widen-Reached best node a b h r = record {
  key = r.key;
  marked = r.marked;
  within = AtMost_trans r.key a b r.within h;
}

-- A better mark of a node
module _ (best : List Mark) (x : String) (c : Key)
    (better : improves (best_of best x) c ≡ true) where
  abbrev marked_best : List Mark
  marked_best = record { node_id = x; key = c } ∷ best

  pub best_of-other :
      (node : String) → (x == node) ≡ false → best_of marked_best node ≡ best_of best node
  unfolding best_of
  best_of-other node e = rw e refl

  best_of-same : (node : String) → (x == node) ≡ true → best_of marked_best node ≡ some c
  unfolding best_of
  best_of-same node e = rw e refl

  better_key :
      (node : String) (k : Key)
      → (x == node) ≡ true
      → best_of best node ≡ some k
      → key_before c k ≡ true
  unfolding improves
  better_key node k e m = ground (arith, better, e, m, ==_iff x node)

  mark-Reached :
      (node : String) (limit : Key) → Reached best node limit → Reached marked_best node limit
  mark-Reached node limit r = elim (Bool-cases (x == node)) [
    | inl e ↦ record {
      key = c;
      marked = best_of-same node e;
      within =
          AtMost_trans c r.key limit (before-AtMost c r.key (better_key node r.key e r.marked))
            r.within;
    }
    | inr e ↦ record { key = r.key; marked = best_of-other node e ∙ r.marked; within = r.within }
  ]

some_key : (a b : Key) → some a ≡ some b → a ≡ b
some_key a b e = ground (arith, e)

push-Waiting :
    {heap : List Entry} {node : String} {k : Key}
    → (f : Entry) → Waiting heap node k
    → Waiting (f ∷ heap) node k
push-Waiting f w = record { entry = w.entry; stands = inr w.stands; at = w.at; keyed = w.keyed }

-- The links that are done, and one more
abbrev pub Done : (String → Link → Type 0) → String → Link → String → Link → Type 0
Done done n l node link = done node link ⊎ ((node ≡ n) × (link ≡ l))

module _ (q : Query) (closed : List String) (e : Entry) where
  module _ (done : String → Link → Type 0) (st : State) (h : Holds q closed done e.key st) where
    module _ (l : Link) (own : best_of st.best e.node_id ≡ some e.key)
        (walked : Walk q e.node_id e.key.cost e.key.edge_ids e.node_path)
        (linked : Elem l (links q e.node_id)) where
      abbrev pub pushed : State
      pushed = record {
        best = record { node_id = l.next; key = (next_entry q e l).key } ∷ st.best;
        heap = next_entry q e l ∷ st.heap;
      }

      -- The popped node's own link, from whatever names it has
      own_link :
          (best : List Mark) (node : String) (k : Key) (link : Link)
          → Reached best l.next (next_entry q e l).key
          → node ≡ e.node_id
          → link ≡ l
          → best_of st.best node ≡ some k
          → Reached best link.next (extend k (weight q.objective link.edge) link.edge.edge_id)
      unfolding next_entry
      own_link best node k link r p pl m =
          subst
            (λ (x : Link).
              Reached best x.next (extend k (weight q.objective x.edge) x.edge.edge_id))
            (sym pl)
            (subst
              (λ (y : Key).
                Reached best l.next (extend y (weight q.objective l.edge) l.edge.edge_id))
              (some_key e.key k (sym own ∙ ap (best_of st.best) (sym p) ∙ m)) r)

      module _ (better : improves (best_of st.best l.next) (next_entry q e l).key ≡ true) where
        pub fresh : (node : String) → has_text node closed ≡ true → (l.next == node) ≡ false
        unfolding next_entry
        fresh node c = elim (Bool-cases (l.next == node)) [
          | inl p ↦
              elim (true≢false (
                sym better
                ∙ not_improves st.best l.next (next_entry q e l).key (
                    subst (λ n. Reached st.best n (next_entry q e l).key)
                      (sym ((==_iff l.next node).0 p))
                      (widen-Reached st.best node e.key (next_entry q e l).key
                        (extend-AtMost e.key (weight q.objective l.edge) l.edge.edge_id)
                        (h.settled node c))))) [ ]
          | inr p ↦ p
        ]

        pushed-frontier :
            (node : String) (k : Key)
            → best_of pushed.best node ≡ some k
            → has_text node closed ≡ false
            → Waiting pushed.heap node k
        unfolding next_entry
        pushed-frontier node k m c = elim (Bool-cases (l.next == node)) [
          | inl p ↦ record {
            entry = next_entry q e l;
            stands = inl refl;
            at = (==_iff l.next node).0 p;
            keyed = some_key _ k (sym (best_of-same st.best l.next _ better node p) ∙ m);
          }
          | inr p ↦
              push-Waiting (next_entry q e l)
                (h.frontier node k (sym (best_of-other st.best l.next _ better node p) ∙ m) c)
        ]

        pushed-relaxed :
            (node : String) (k : Key) (link : Link)
            → has_text node closed ≡ true
            → Done done e.node_id l node link
            → best_of pushed.best node ≡ some k
            → Reached pushed.best link.next
                (extend k (weight q.objective link.edge) link.edge.edge_id)
        pushed-relaxed node k link c (inl was) m =
            mark-Reached st.best l.next _ better link.next _ (
              h.relaxed node k link c was
                (sym (best_of-other st.best l.next _ better node (fresh node c)) ∙ m))
        pushed-relaxed node k link c (inr (p, pl)) m =
            own_link pushed.best node k link
              (record {
                key = (next_entry q e l).key;
                marked = best_of-same st.best l.next _ better l.next (eq_refl l.next);
                within = AtMost-same (next_entry q e l).key;
              })
              p pl (sym (best_of-other st.best l.next _ better node (fresh node c)) ∙ m)

        pub relax_better : Holds q closed (Done done e.node_id l) e.key pushed
        unfolding next_entry extend
        relax_better = record {
          frontier = pushed-frontier;
          settled = λ node c. mark-Reached st.best l.next _ better node e.key (h.settled node c);
          relaxed = pushed-relaxed;
          later = later;
          walks = walks;
          origin = mark-Reached st.best l.next _ better q.start_node_id _ h.origin;
          unfinished = h.unfinished;
        }
          where
            later : (f : Entry) → Elem f pushed.heap → AtMost e.key f.key
            later f (inl p) =
                subst (λ (x : Entry). AtMost e.key x.key) (sym p)
                  (extend-AtMost e.key (weight q.objective l.edge) l.edge.edge_id)
            later f (inr m) = h.later f m

            walks :
                (f : Entry)
                → Elem f pushed.heap
                → Walk q f.node_id f.key.cost f.key.edge_ids f.node_path
            walks f (inl p) =
                subst (λ (x : Entry). Walk q x.node_id x.key.cost x.key.edge_ids x.node_path)
                  (sym p)
                  (along e.node_id e.key.cost e.key.edge_ids e.node_path l walked
                    (links-Connects q e.node_id l linked))
            walks f (inr m) = h.walks f m

      pub relax_worse :
          improves (best_of st.best l.next) (next_entry q e l).key ≡ false
          → Holds q closed (Done done e.node_id l) e.key st
      relax_worse worse = record {
        frontier = h.frontier;
        settled = h.settled;
        relaxed = relaxed;
        later = h.later;
        walks = h.walks;
        origin = h.origin;
        unfinished = h.unfinished;
      }
        where
          relaxed :
              (node : String) (k : Key) (link : Link)
              → has_text node closed ≡ true
              → Done done e.node_id l node link
              → best_of st.best node ≡ some k
              → Reached st.best link.next
                  (extend k (weight q.objective link.edge) link.edge.edge_id)
          relaxed node k link c (inl was) m = h.relaxed node k link c was m
          relaxed node k link c (inr (p, pl)) m =
              own_link st.best node k link (improves_not st.best l.next _ worse) p pl m
