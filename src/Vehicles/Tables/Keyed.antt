-- ===== src/Vehicles/Tables/Keyed.antt =====
-- Tables whose rows have different keys, and sums over their rows.
use model_lib.Base.{ℕ, ◌+◌, String, ◌≡◌, refl, Bool, none, some, List, [], ◌∷◌, arith}
use model_lib.Base.Eq.{◌==◌, string_eq}
use model_lib.Vehicles.Tables.{find, change}

module _ {A : Type 0} (key : A → String) where
  abbrev pub has_key : String → A → Bool
  has_key k x = key x == k

  unfoldable pub Unique : List A → Type 0
  Unique [] = Unit
  Unique (x ∷ xs) = (find (has_key (key x)) xs ≡ none) × Unique xs

  find-change-none :
      (k : String) (q : A → Bool) (f : A → A)
      → ((x : A) → key (f x) ≡ key x)
      → (xs : List A) → find (has_key k) xs ≡ none
      → find (has_key k) (change q f xs) ≡ none
  unfolding find change
  find-change-none k q f h [] e = refl
  find-change-none k q f h (x ∷ xs) e = ground (arith, h x, find-change-none k q f h xs)

  pub change-Unique :
      (q : A → Bool) (f : A → A)
      → ((x : A) → key (f x) ≡ key x)
      → (xs : List A) → Unique xs
      → Unique (change q f xs)
  unfolding find change Unique
  change-Unique q f h [] u = tt
  change-Unique q f h (x ∷ xs) (fresh, u) =
      ground (arith, h x, change-Unique q f h xs u, find-change-none (key x) q f h xs fresh)

module _ {A : Type 0} (weight : A → ℕ) where
  unfoldable pub total : List A → ℕ
  total [] = 0
  total (x ∷ xs) = weight x + total xs

  pub total-change :
      (p : A → Bool) (f : A → A) (a : A) (xs : List A)
      → find p xs ≡ some a
      → total (change p f xs) + weight a ≡ total xs + weight (f a)
  unfolding find change total
  total-change p f a [] e = ground arith
  total-change p f a (x ∷ xs) e = ground (arith, total-change p f a xs)

  pub total-change_same :
      (p : A → Bool) (f : A → A)
      → ((x : A) → weight (f x) ≡ weight x)
      → (xs : List A) → total (change p f xs) ≡ total xs
  unfolding change total
  total-change_same p f h [] = refl
  total-change_same p f h (x ∷ xs) = ground (arith, h x, total-change_same p f h xs)
