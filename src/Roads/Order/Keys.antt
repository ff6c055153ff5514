-- ===== src/Roads/Order/Keys.antt =====
-- The order of keys, and of a path and its extensions.
use model_lib.Base.{ℕ, ◌≤◌, String, ◌≡◌, refl, true, false, List, [], ◌∷◌, ◌++◌, arith}
use Prim.Native.Nat.{Ordering}
use model_lib.Roads.Order.{IsOrder, compare_lists, Key, compare_keys, key_before, extend}
use model_lib.Roads.Order.Texts.{text_IsOrder}

lists_same : (xs : List String) → compare_lists xs xs ≡ Ordering.eq
unfolding compare_lists
lists_same [] = refl
lists_same (x ∷ xs) = ground (arith, text_IsOrder.same x, lists_same xs)

lists_only : (xs ys : List String) → compare_lists xs ys ≡ Ordering.eq → xs ≡ ys
unfolding compare_lists
lists_only [] [] e = refl
lists_only [] (y ∷ ys) e = ground arith
lists_only (x ∷ xs) [] e = ground arith
lists_only (x ∷ xs) (y ∷ ys) e = ground (arith, text_IsOrder.only x y, lists_only xs ys)

lists_back :
    (xs ys : List String) → compare_lists xs ys ≡ Ordering.gt → compare_lists ys xs ≡ Ordering.lt
unfolding compare_lists
lists_back [] [] e = ground arith
lists_back [] (y ∷ ys) e = ground arith
lists_back (x ∷ xs) [] e = refl
lists_back (x ∷ xs) (y ∷ ys) e =
    ground
      (arith, text_IsOrder.only x y, text_IsOrder.same x, text_IsOrder.back x y, lists_back xs ys)

lists_trans :
    (xs ys zs : List String)
    → compare_lists xs ys ≡ Ordering.lt
    → compare_lists ys zs ≡ Ordering.lt
    → compare_lists xs zs ≡ Ordering.lt
unfolding compare_lists
lists_trans xs [] [] e f = ground arith
lists_trans [] [] (z ∷ zs) e f = refl
lists_trans (x ∷ xs) [] (z ∷ zs) e f = ground arith
lists_trans xs (y ∷ ys) [] e f = ground arith
lists_trans [] (y ∷ ys) (z ∷ zs) e f = refl
lists_trans (x ∷ xs) (y ∷ ys) (z ∷ zs) e f = ground (
  arith,
  text_IsOrder.only x y,
  text_IsOrder.only y z,
  text_IsOrder.trans x y z,
  lists_trans xs ys zs,
)

pub lists_IsOrder : IsOrder compare_lists
lists_IsOrder = record {
  same = lists_same;
  only = lists_only;
  back = lists_back;
  trans = lists_trans;
}

keys_cost : (a b : Key) → compare_keys a b ≡ Ordering.eq → a.cost ≡ b.cost
unfolding compare_keys
keys_cost a b e = ground arith

keys_lists :
    (a b : Key) → compare_keys a b ≡ Ordering.eq → compare_lists a.edge_ids b.edge_ids ≡ Ordering.eq
unfolding compare_keys
keys_lists a b e = ground arith

pub keys_IsOrder : IsOrder compare_keys
unfolding compare_keys
keys_IsOrder = record {
  same = λ a. ground (arith, lists_same a.edge_ids);
  only = λ a b e i. record {
    cost = keys_cost a b e i;
    edge_ids = lists_only a.edge_ids b.edge_ids (keys_lists a b e) i;
  };
  back = λ a b e. ground (arith, lists_back a.edge_ids b.edge_ids);
  trans = λ a b c e f. ground (arith, lists_trans a.edge_ids b.edge_ids c.edge_ids);
}

pub before_trans :
    (a b c : Key) → key_before a b ≡ true → key_before b c ≡ true → key_before a c ≡ true
unfolding key_before
before_trans a b c e f = ground (arith, keys_IsOrder.trans a b c)

-- No later than
unfoldable pub AtMost : Key → Key → Type 0
AtMost a b = key_before b a ≡ false

pub AtMost-same : (a : Key) → AtMost a a
unfolding AtMost key_before
AtMost-same a = ground (arith, keys_IsOrder.same a)

pub before-AtMost : (a b : Key) → key_before a b ≡ true → AtMost a b
unfolding AtMost key_before
before-AtMost a b e = ground (arith, keys_IsOrder.trans a b a, keys_IsOrder.same a)

pub AtMost_trans : (a b c : Key) → AtMost a b → AtMost b c → AtMost a c
unfolding AtMost key_before
AtMost_trans a b c e f = ground (
  arith,
  keys_IsOrder.trans c a b,
  keys_IsOrder.only b a,
  keys_IsOrder.back b a,
  keys_IsOrder.only a b,
  keys_IsOrder.back a b,
)

pub AtMost-cost : (a b : Key) → AtMost a b → a.cost ≤ b.cost
unfolding AtMost key_before compare_keys
AtMost-cost a b e = ground arith

lists_longer : (xs : List String) (y : String) → compare_lists xs (xs ++ y ∷ []) ≡ Ordering.lt
unfolding compare_lists
lists_longer [] y = refl
lists_longer (x ∷ xs) y = ground (arith, text_IsOrder.same x, lists_longer xs y)

pub extend-AtMost : (k : Key) (w : ℕ) (edge_id : String) → AtMost k (extend k w edge_id)
unfolding AtMost key_before compare_keys extend
extend-AtMost k w edge_id = ground (
  arith,
  lists_back (k.edge_ids ++ edge_id ∷ []) k.edge_ids,
  lists_longer k.edge_ids edge_id,
  lists_trans k.edge_ids (k.edge_ids ++ edge_id ∷ []) k.edge_ids,
  lists_same k.edge_ids,
)
