-- ===== src/Roads/Order.antt =====
-- The order of Python's tuples and texts, on the costs and the edges of a path.
pub mod Texts
pub mod Keys
use model_lib.Base.{
  ℕ, ◌+◌, ◌≤◌, ◌<◌, String, ◌≡◌, refl, sym, ap, ◌∙◌, Bool, true, false, List, [], ◌∷◌, ◌++◌, ◌⊎◌,
  inl, inr, arith,
}
use Prim.Native.Nat.{Ordering, compare as compare_ℕ}
use Prim.Native.String.{compare, then as or_else}

unfoldable pub compare_lists : List String → List String → Ordering
compare_lists [] [] = Ordering.eq
compare_lists [] (y ∷ ys) = Ordering.lt
compare_lists (x ∷ xs) [] = Ordering.gt
compare_lists (x ∷ xs) (y ∷ ys) = or_else (compare x y) (compare_lists xs ys)

pub record Key : Type 0 where
  pub cost : ℕ
  pub edge_ids : List String

unfoldable pub compare_keys : Key → Key → Ordering
compare_keys a b = or_else (compare_ℕ a.cost b.cost) (compare_lists a.edge_ids b.edge_ids)

-- `a < b`
unfoldable pub key_before : Key → Key → Bool
key_before a b = elim (compare_keys a b) [ Ordering.lt ↦ true | _ ↦ false ]

-- The key of a path with one more edge
unfoldable pub extend : Key → ℕ → String → Key
extend k weight edge_id = record { cost = k.cost + weight; edge_ids = k.edge_ids ++ edge_id ∷ [] }

-- An order whose tests agree with each other.
pub record IsOrder {A : Type 0} (cmp : A → A → Ordering) : Type 0 where
  pub same : (a : A) → cmp a a ≡ Ordering.eq
  pub only : (a b : A) → cmp a b ≡ Ordering.eq → a ≡ b
  pub back : (a b : A) → cmp a b ≡ Ordering.gt → cmp b a ≡ Ordering.lt
  pub trans : (a b c : A) → cmp a b ≡ Ordering.lt → cmp b c ≡ Ordering.lt → cmp a c ≡ Ordering.lt
