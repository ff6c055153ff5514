-- ===== src/Roads/Dijkstra/Rounds.antt =====
-- A round of the search keeps the invariant.
use mathlib.Core.Path.{subst}
use model_lib.Base.{
  String, ◌≡◌, sym, ap, ◌∙◌, true, false, some, List, ◌∷◌, ◌⊎◌, inl, inr, arith, Bool-cases,
}
use model_lib.Base.Eq.{◌==◌, string_eq, eq_refl, ==_iff}
use model_lib.Roads.Network.{Link, has_text}
use model_lib.Roads.Order.{Key}
use model_lib.Roads.Order.Keys.{AtMost-same}
use model_lib.Roads.Dijkstra.{Query, Entry, Mark, best_of, is_best, links, next_entry, relax_all}
use model_lib.Roads.Dijkstra.Heap.{Elem, Taken, is_best_not}
use model_lib.Roads.Dijkstra.Invariant.{Reached, Waiting, Holds}
use model_lib.Roads.Dijkstra.Relax.{widen-Reached}
use model_lib.Roads.Dijkstra.Expand.{Expanding, weaken, relax_all-Expanding, relax_all-same}

module _ (q : Query) where
  -- All links of the expanded nodes are relaxed.
  abbrev pub Full : String → Link → Type 0
  Full node l = Elem l (links q node)

  module _ (closed : List String) (last : Key) (best : List Mark) (heap : List Entry)
      (least : Entry) (others : List Entry)
      (h : Holds q closed Full last (record { best = best; heap = heap }))
      (t : Taken heap least others) where
    -- An entry that waits for another node or another key than the least one's
    skip-Waiting :
        (node : String) (k : Key)
        → Waiting heap node k
        → (least.node_id ≡ node → least.key ≡ k → ⊥)
        → Waiting others node k
    skip-Waiting node k w other = elim (t.rest w.entry w.stands) [
      | inl p ↦
          elim (other (sym (ap (λ (x : Entry). x.node_id) p) ∙ w.at)
            (sym (ap (λ (x : Entry). x.key) p) ∙ w.keyed)) [ ]
      | inr m ↦ record { entry = w.entry; stands = m; at = w.at; keyed = w.keyed }
    ]

    pub skip-Holds :
        is_best (best_of best least.node_id) least.key ≡ false
        → Holds q closed Full last (record { best = best; heap = others })
    skip-Holds stale = record {
      frontier = λ node k m c. skip-Waiting node k (h.frontier node k m c) (λ at keyed.
          is_best_not (best_of best least.node_id) least.key stale
            (ap (best_of best) at ∙ m ∙ ap some (sym keyed)));
      settled = h.settled;
      relaxed = h.relaxed;
      later = λ f m. h.later f (t.stays f m);
      walks = λ f m. h.walks f (t.stays f m);
      origin = h.origin;
      unfinished = h.unfinished;
    }

    module _ (own : best_of best least.node_id ≡ some least.key)
        (goes_on : (least.node_id == q.end_node_id) ≡ false) where
      -- The links that are relaxed before the node's own ones
      abbrev Before : String → Link → Type 0
      Before node l = (has_text node closed ≡ true) × Elem l (links q node)

      closed_more :
          (node : String)
          → has_text node (least.node_id ∷ closed) ≡ true
          → (least.node_id ≡ node) ⊎ (has_text node closed ≡ true)
      unfolding has_text
      closed_more node c = elim (Bool-cases (least.node_id == node)) [
        | inl p ↦ inl ((==_iff least.node_id node).0 p)
        | inr p ↦ inr (ground (arith, c, p))
      ]

      open_less :
          (node : String)
          → has_text node (least.node_id ∷ closed) ≡ false
          → (has_text node closed ≡ false) × (least.node_id ≡ node → ⊥)
      unfolding has_text
      open_less node c = ground (arith, c, ==_iff least.node_id node)

      settled_more :
          (node : String)
          → has_text node (least.node_id ∷ closed) ≡ true
          → Reached best node least.key
      settled_more node c = elim (closed_more node c) [
        | inl p ↦
            subst (λ n. Reached best n least.key) p
              (record { key = least.key; marked = own; within = AtMost-same least.key })
        | inr d ↦ widen-Reached best node last least.key (h.later least t.stands) (h.settled node d)
      ]

      popped-Expanding :
          Expanding q (least.node_id ∷ closed) least Before (record { best = best; heap = others })
      unfolding has_text
      popped-Expanding = record {
        holds = record {
          frontier = λ node k m c.
              skip-Waiting node k (h.frontier node k m (open_less node c).0)
                (λ at keyed. (open_less node c).1 at);
          settled = settled_more;
          relaxed = λ node k l c d m. h.relaxed node k l d.0 d.1 m;
          later = t.first;
          walks = λ f m. h.walks f (t.stays f m);
          origin = h.origin;
          unfinished = rw goes_on h.unfinished;
        };
        own = own;
      }

      pub expand-Holds :
          Holds q
            (least.node_id ∷ closed)
            Full
            least.key
            (relax_all q least (record { best = best; heap = others }) (links q least.node_id))
      unfolding has_text
      expand-Holds =
          (weaken q (least.node_id ∷ closed) least closed_self (h.walks least t.stands) _ Full _
            every
            (relax_all-Expanding q (least.node_id ∷ closed) least closed_self
              (h.walks least t.stands) (links q least.node_id) Before _ (λ l m. m)
              popped-Expanding)).holds
        where
          closed_self : has_text least.node_id (least.node_id ∷ closed) ≡ true
          closed_self = ground (arith, eq_refl least.node_id)

          every :
              (node : String) (l : Link)
              → has_text node (least.node_id ∷ closed) ≡ true
              → Elem l (links q node)
              → Before node l ⊎ ((node ≡ least.node_id) × Elem l (links q least.node_id))
          every node l c m = elim (closed_more node c) [
            | inl p ↦ inr (sym p, subst (λ n. Elem l (links q n)) (sym p) m)
            | inr d ↦ inl (d, m)
          ]

      -- A node that has been expanded already changes nothing.
      pub expand_again :
          has_text least.node_id closed ≡ true
          → relax_all q least (record { best = best; heap = others }) (links q least.node_id)
            ≡ record { best = best; heap = others }
      unfolding next_entry
      expand_again c =
          relax_all-same q least (links q least.node_id) (record { best = best; heap = others })
            (λ l m. h.relaxed least.node_id least.key l c m own)
