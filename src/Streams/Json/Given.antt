-- ===== src/Streams/Json/Given.antt =====
-- What the readers of backend/app/streams/models.py accept.
use mathlib.Core.Path.{subst}
use model_lib.Base.{String, ◌≡◌, ◌⊎◌, refl, true, false, Option, none, some, arith}
use model_lib.Base.Eq.{◌==◌, string_eq}
use model_lib.Streams.Json.{
  ℤ, Json, null, integer, text, Codec, Result, accepted, refused, ◌>>=◌, text_or_refuse,
  required_text, required_integer, optional_text, optional_integer, present_text, utc_timestamp,
}
use model_lib.Streams.Task.{text_value, integer_value}

-- A condition on an accepted value
abbrev pub Holds {ℓ} : {A : Type ℓ} → (A → Type 0) → Result A → Type 0
Holds P (accepted a) = P a
Holds P (refused e) = Unit

pub record Ensures {ℓ} {A : Type ℓ} (P : A → Type 0) (r : Result A) : Type ℓ where
  pub holds : Holds P r

pub Ensures-bind {ℓ κ} :
    {A : Type ℓ} {B : Type κ} {P : A → Type 0} {Q : B → Type 0}
    → (r : Result A) (f : A → Result B) → Ensures P r
    → ((a : A) → P a → Ensures Q (f a))
    → Ensures Q (r >>= f)
Ensures-bind (accepted a) f h k = k a h.holds
Ensures-bind (refused e) f h k = record { holds = tt }

pub Ensures-mono {ℓ} :
    {A : Type ℓ} {P Q : A → Type 0} (r : Result A)
    → ((a : A) → P a → Q a)
    → Ensures P r
    → Ensures Q r
Ensures-mono (accepted a) f h = record { holds = f a h.holds }
Ensures-mono (refused e) f h = record { holds = tt }

unfoldable pub Given : String → Type 0
Given s = (s == "") ≡ false

unfoldable pub OptionallyGiven : Option String → Type 0
OptionallyGiven none = Unit
OptionallyGiven (some s) = Given s

unfoldable pub PresentlyGiven : Option (Option String) → Type 0
PresentlyGiven none = Unit
PresentlyGiven (some t) = OptionallyGiven t

-- What a dictionary has at a key, for each kind of field that is read
abbrev pub HasText : Option Json → String → Type 0
HasText v s = (v ≡ some (text s)) × Given s

abbrev pub HasInteger : Option Json → ℤ → Type 0
HasInteger v n = v ≡ some (integer n)

-- A missing key or `null` is read as no value.
abbrev pub Absent : Option Json → Type 0
Absent v = (v ≡ none) ⊎ (v ≡ some null)

abbrev pub MayHaveText : Option Json → Option String → Type 0
MayHaveText v none = Absent v
MayHaveText v (some s) = HasText v s

abbrev pub MayHaveInteger : Option Json → Option ℤ → Type 0
MayHaveInteger v none = Absent v
MayHaveInteger v (some n) = HasInteger v n

abbrev pub MayBePresent : Option Json → Option (Option String) → Type 0
MayBePresent v none = v ≡ none
MayBePresent v (some none) = v ≡ some null
MayBePresent v (some (some s)) = HasText v s

pub required_text-HasText :
    (name : String) (v : Option Json) → Ensures (HasText v) (required_text name v)
unfolding required_text text_or_refuse Given
required_text-HasText name v = record { holds = ground arith }

pub required_integer-HasInteger :
    (name : String) (v : Option Json) → Ensures (HasInteger v) (required_integer name v)
unfolding required_integer
required_integer-HasInteger name v = record { holds = ground arith }

pub optional_text-MayHaveText :
    (name : String) (v : Option Json) → Ensures (MayHaveText v) (optional_text name v)
unfolding optional_text text_or_refuse Given
optional_text-MayHaveText name v = record { holds = ground arith }

pub optional_integer-MayHaveInteger :
    (name : String) (v : Option Json) → Ensures (MayHaveInteger v) (optional_integer name v)
unfolding optional_integer required_integer
optional_integer-MayHaveInteger name v = record { holds = ground arith }

pub present_text-MayBePresent :
    (name : String) (v : Option Json) → Ensures (MayBePresent v) (present_text name v)
unfolding present_text optional_text text_or_refuse Given
present_text-MayBePresent name v = record { holds = ground arith }

-- The readers accept what is there.
pub HasText-required_text :
    (name s : String) (v : Option Json) → HasText v s → required_text name v ≡ accepted s
unfolding required_text text_or_refuse Given
HasText-required_text name s v h = ground (arith, h)

pub MayHaveText-optional_text :
    (name : String) (t : Option String) (v : Option Json)
    → MayHaveText v t
    → optional_text name v ≡ accepted t
unfolding optional_text text_or_refuse Given
MayHaveText-optional_text name t v h = ground (arith, h)

pub MayHaveInteger-optional_integer :
    (name : String) (n : Option ℤ) (v : Option Json)
    → MayHaveInteger v n
    → optional_integer name v ≡ accepted n
unfolding optional_integer required_integer
MayHaveInteger-optional_integer name n v h = ground (arith, h)

pub MayBePresent-present_text :
    (name : String) (t : Option (Option String)) (v : Option Json)
    → MayBePresent v t
    → present_text name v ≡ accepted t
unfolding present_text optional_text text_or_refuse Given
MayBePresent-present_text name t v h = ground (arith, h)

pub required_text-Given : (name : String) (v : Option Json) → Ensures Given (required_text name v)
unfolding required_text text_or_refuse Given
required_text-Given name v = record { holds = ground arith }

pub required_text-text :
    (name s : String) → Given s → required_text name (some (text s)) ≡ accepted s
unfolding required_text text_or_refuse Given
required_text-text name s h = rw h refl

pub optional_text-value :
    (name : String) (t : Option String)
    → OptionallyGiven t
    → optional_text name (some (text_value t)) ≡ accepted t
unfolding optional_text text_or_refuse text_value OptionallyGiven Given
optional_text-value name t h = ground arith

pub optional_integer-value :
    (name : String) (n : Option ℤ) → optional_integer name (some (integer_value n)) ≡ accepted n
unfolding optional_integer required_integer integer_value
optional_integer-value name n = ground arith

module _ (codec : Codec) where
  pub utc_timestamp-text :
      (name s : String)
      → codec.is_utc s ≡ true
      → utc_timestamp codec name (some (text s)) ≡ accepted s
  unfolding utc_timestamp
  utc_timestamp-text name s h = rw h refl

pub holds_at {ℓ} :
    {A : Type ℓ} (P : A → Type 0) (r : Result A) (a : A) → r ≡ accepted a → Holds P r → P a
holds_at P r a e h = subst (Holds P) e h
