-- ===== src/Vehicles/Due.antt =====
-- The row that is due first, as the queries of `advance_one_due_rescue` and
-- `advance_one_due_maintenance` in backend/app/vehicle_operations/sqlalchemy_repository.py order them.
pub mod Found
use model_lib.Base.{
  ℕ, Bool, false, ◌&&◌, ◌||◌, Option, none, some, List, [], ◌∷◌, ltb, leb, if◌then◌else◌,
}
use model_lib.Base.Eq.{◌==◌, nat_eq, string_eq, option_eq}

unfoldable pub is_due : Option ℕ → ℕ → Bool
is_due none now = false
is_due (some at) now = leb at now

pub time_of : Option ℕ → ℕ
time_of none = 0
time_of (some at) = at

module _ {ℓ} {A : Type ℓ} (due : A → Bool) (time id : A → ℕ) where
  precedes : A → A → Bool
  precedes a b = ltb (time a) (time b) || (time a == time b && ltb (id a) (id b))

  sooner : A → Option A → A
  sooner a none = a
  sooner a (some b) = if precedes b a then b else a

  pub first_due : List A → Option A
  first_due [] = none
  first_due (a ∷ rest) =
      let later = first_due rest in if due a then some (sooner a later) else later
