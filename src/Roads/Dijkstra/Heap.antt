-- ===== src/Roads/Dijkstra/Heap.antt =====
-- What `heappop` takes, and what a mark changes.
use mathlib.Core.Path.{subst}
use model_lib.Base.{
  ◌≢◌, sym, ◌+◌, ◌≡◌, refl, true, false, Option, none, some, List, [], ◌∷◌, length, ◌⊎◌, inl, inr,
  arith, Bool-cases,
}
use model_lib.Base.Eq.{string_eq}
use model_lib.Roads.Order.{Key, key_before}
use model_lib.Roads.Order.Keys.{AtMost, AtMost_trans, keys_IsOrder}
use model_lib.Roads.Dijkstra.{Entry, compare_entries, entry_before, take_least, is_best}

abbrev pub Elem : {A : Type 0} → A → List A → Type 0
Elem a [] = ⊥
Elem a (x ∷ xs) = (a ≡ x) ⊎ Elem a xs

entry_before-key : (a b : Entry) → entry_before a b ≡ true → AtMost a.key b.key
unfolding entry_before compare_entries AtMost key_before
entry_before-key a b e = ground (
  arith,
  keys_IsOrder.trans a.key b.key a.key,
  keys_IsOrder.same a.key,
  keys_IsOrder.only a.key b.key,
)

not_before-key : (a b : Entry) → entry_before a b ≡ false → AtMost b.key a.key
unfolding entry_before compare_entries AtMost key_before
not_before-key a b e = ground arith

-- The taken entry stands in the heap, comes no later than the others, and the others are the rest.
pub record Taken (heap : List Entry) (least : Entry) (others : List Entry) : Type 0 where
  pub stands : Elem least heap
  pub first : (f : Entry) → Elem f others → AtMost least.key f.key
  pub stays : (f : Entry) → Elem f others → Elem f heap
  pub rest : (f : Entry) → Elem f heap → (f ≡ least) ⊎ Elem f others
  pub shorter : length heap ≡ length others + 1

module _ (e : Entry) (heap : List Entry) (least : Entry) (others : List Entry)
    (t : Taken heap least others) where
  keep_Taken : entry_before least e ≡ true → Taken (e ∷ heap) least (e ∷ others)
  keep_Taken b = record {
    stands = inr t.stands;
    first = first;
    stays = stays;
    rest = rest;
    shorter = omega (arith, t.shorter);
  }
    where
      first : (f : Entry) → Elem f (e ∷ others) → AtMost least.key f.key
      first f (inl p) =
          subst (λ (x : Entry). AtMost least.key x.key) (sym p) (entry_before-key least e b)
      first f (inr m) = t.first f m

      stays : (f : Entry) → Elem f (e ∷ others) → Elem f (e ∷ heap)
      stays f (inl p) = inl p
      stays f (inr m) = inr (t.stays f m)

      rest : (f : Entry) → Elem f (e ∷ heap) → (f ≡ least) ⊎ Elem f (e ∷ others)
      rest f (inl p) = inr (inl p)
      rest f (inr m) = elim (t.rest f m) [ inl p ↦ inl p | inr k ↦ inr (inr k) ]

  swap_Taken : entry_before least e ≡ false → Taken (e ∷ heap) e (least ∷ others)
  swap_Taken b = record {
    stands = inl refl;
    first = first;
    stays = stays;
    rest = rest;
    shorter = omega (arith, t.shorter);
  }
    where
      first : (f : Entry) → Elem f (least ∷ others) → AtMost e.key f.key
      first f (inl p) = subst (λ (x : Entry). AtMost e.key x.key) (sym p) (not_before-key least e b)
      first f (inr m) = AtMost_trans e.key least.key f.key (not_before-key least e b) (t.first f m)

      stays : (f : Entry) → Elem f (least ∷ others) → Elem f (e ∷ heap)
      stays f (inl p) = inr (subst (λ x. Elem x heap) (sym p) t.stands)
      stays f (inr m) = inr (t.stays f m)

      rest : (f : Entry) → Elem f (e ∷ heap) → (f ≡ e) ⊎ Elem f (least ∷ others)
      rest f (inl p) = inl p
      rest f (inr m) = inr (t.rest f m)

pub take_least-Taken :
    (e : Entry) (rest : List Entry) → Taken (e ∷ rest) (take_least e rest).0 (take_least e rest).1
unfolding take_least
take_least-Taken e [] = record {
  stands = inl refl;
  first = λ f m. elim m [ ];
  stays = λ f m. elim m [ ];
  rest = λ f m. m;
  shorter = refl;
}
take_least-Taken e (f ∷ rest) = elim (Bool-cases (entry_before (take_least f rest).0 e)) [
  | inl b ↦ rw b (keep_Taken e (f ∷ rest) _ _ (take_least-Taken f rest) b)
  | inr b ↦ rw b (swap_Taken e (f ∷ rest) _ _ (take_least-Taken f rest) b)
]

pub is_best-some : (best : Option Key) (k : Key) → is_best best k ≡ true → best ≡ some k
unfolding is_best
is_best-some none k e = ground arith
is_best-some (some b) k e = ground (arith, keys_IsOrder.only b k)

pub is_best_not : (best : Option Key) (k : Key) → is_best best k ≡ false → best ≢ some k
unfolding is_best
is_best_not best k e p = ground (arith, keys_IsOrder.same k)
