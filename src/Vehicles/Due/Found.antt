-- ===== src/Vehicles/Due/Found.antt =====
-- The row that `first_due` gives stands in its table, and is due.
use model_lib.Base.{ℕ, String, ◌≡◌, Bool, true, false, none, some, List, [], ◌∷◌, arith}
use model_lib.Base.Eq.{◌==◌, string_eq, eq_refl, ==_iff}
use model_lib.Vehicles.Tables.{find}
use model_lib.Vehicles.Tables.Keyed.{has_key, Unique}
use model_lib.Vehicles.Due.{sooner, first_due}

module _ {A : Type 0} (due : A → Bool) (time id : A → ℕ) (key : A → String) where
  find-none_not :
      (x a : A) (xs : List A)
      → find (has_key key (key x)) xs ≡ none
      → find (has_key key (key a)) xs ≡ some a
      → (key x == key a) ≡ false
  unfolding find
  find-none_not x a [] e f = ground arith
  find-none_not x a (y ∷ xs) e f = ground (
    arith,
    find-none_not x a xs,
    ==_iff (key x) (key a),
    ==_iff (key y) (key a),
    ==_iff (key y) (key x),
  )

  pub first_due-find :
      (a : A) (xs : List A)
      → Unique key xs
      → first_due due time id xs ≡ some a
      → (find (has_key key (key a)) xs ≡ some a) × (due a ≡ true)
  unfolding find Unique first_due sooner
  first_due-find a [] u e = ground arith
  first_due-find a (x ∷ xs) (fresh, u) e =
      ground (arith, first_due-find a xs u, find-none_not x a xs fresh, eq_refl (key a))
