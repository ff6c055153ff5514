-- ===== src/Base/Eq.antt =====
-- One Boolean equality for numbers, texts and optional values.
use Prim.Native.Nat.{ℕ}
use Prim.Native.String.{String}
use mathlib.Core.Path.{◌≡◌, refl}
use mathlib.Core.Logic.{◌↔◌}
use mathlib.Core.Bool.{Bool, true, false}
use mathlib.Core.Option.{Option, none, some}
use native.Mathlib.Omega.{arith}
use text.Mathlib.Text.{◌==◌ as str_beq}
use text.Mathlib.TextEquality.{eq_iff}
use Prim.Native.Nat.{compare, Ordering}

abbrev pub compare_eq : ℕ → ℕ → Bool
compare_eq a b = elim (compare a b) [ Ordering.eq ↦ true | _ ↦ false ]

pub compare_eq_iff : (a b : ℕ) → (compare_eq a b ≡ true) ↔ (a ≡ b)
compare_eq_iff a b = ground arith

-- A type whose equality the code tests.
pub record Testable {ℓ} (A : Type ℓ) : Type ℓ where
  pub same : A → A → Bool
  pub same_iff : (x y : A) → (same x y ≡ true) ↔ (x ≡ y)

instance abbrev pub string_eq : Testable String
string_eq = record { same = str_beq; same_iff = eq_iff }

instance abbrev pub nat_eq : Testable ℕ
nat_eq = record { same = compare_eq; same_iff = compare_eq_iff }

infix 50 ◌==◌
abbrev pub ◌==◌ {ℓ} : {T : Type ℓ} ⦃t : Testable T⦄ → T → T → Bool
◌==◌ ⦃t⦄ = t.same

module _ {ℓ} {A : Type ℓ} ⦃e : Testable A⦄ where
  abbrev pub option_beq : Option A → Option A → Bool
  option_beq none none = true
  option_beq none (some b) = false
  option_beq (some a) none = false
  option_beq (some a) (some b) = e.same a b

  pub option_beq_iff : (a b : Option A) → (option_beq a b ≡ true) ↔ (a ≡ b)
  option_beq_iff none none = ((λ _. refl), (λ _. refl))
  option_beq_iff none (some b) = ground arith
  option_beq_iff (some a) none = ground arith
  option_beq_iff (some a) (some b) = ground (arith, e.same_iff a b)

  instance abbrev pub option_eq : Testable (Option A)
  option_eq = record { same = option_beq; same_iff = option_beq_iff }

  pub ==_iff : (a b : A) → ((a == b) ≡ true) ↔ (a ≡ b)
  ==_iff = e.same_iff

  pub eq_refl : (a : A) → e.same a a ≡ true
  eq_refl a = (e.same_iff a a).1 refl
