-- ===== src/Worker/Emits.antt =====
-- Which effects a procedure may have, one rule for each way to build a procedure.
use model_lib.Base.{Bool, true, false, List, [], ◌∷◌, ◌++◌, All, if◌then◌else◌}
use model_lib.Worker.Effects.{
  Outcome, returns, raises, Effect, failed, begin_raised, Exec, pure, call, call_with, attempt,
  ◌>>=◌,
}

pub record Emits {ℓ} {A : Type ℓ} (P : Effect → Type 0) (m : Exec A) : Type 0 where
  pub at : All P m.1

pub All-append {ℓ κ} :
    {A : Type ℓ} (P : A → Type κ) (es ds : List A) → All P es → All P ds → All P (es ++ ds)
All-append P (e ∷ es) ds h k = (h.0, All-append P es ds h.1 k)
All-append P [] ds h k = k

module _ {ℓ} {A : Type ℓ} {P : Effect → Type 0} where
  pub Emits-pure : (a : A) → Emits P (pure a)
  Emits-pure a = record { at = tt }

  pub Emits-none : Emits {A = A} P (raises, [])
  Emits-none = record { at = tt }

  pub Emits-call : (e : Effect) (o : Outcome A) → P e → P (failed e) → Emits P (call e o)
  Emits-call e (returns a) h f = record { at = (h, tt) }
  Emits-call e raises h f = record { at = (f, tt) }

  pub Emits-call_with :
      (e : A → Effect) (o : Outcome A)
      → ((a : A) → P (e a))
      → P (failed begin_raised)
      → Emits P (call_with e o)
  Emits-call_with e (returns a) h f = record { at = (h a, tt) }
  Emits-call_with e raises h f = record { at = (f, tt) }

  pub Emits-attempt : (m : Exec A) → Emits P m → Emits P (attempt m)
  Emits-attempt (returns a, es) h = record { at = h.at }
  Emits-attempt (raises, es) h = record { at = h.at }

  pub Emits-if : (b : Bool) (m n : Exec A) → Emits P m → Emits P n → Emits P (if b then m else n)
  Emits-if true m n hm hn = hm
  Emits-if false m n hm hn = hn

module _ {ℓ κ} {A : Type ℓ} {B : Type κ} {P : Effect → Type 0} where
  pub Emits-bind :
      (m : Exec A) (f : A → Exec B) → Emits P m → ((a : A) → Emits P (f a)) → Emits P (m >>= f)
  Emits-bind (returns a, es) f hm hf = record { at = All-append P es (f a).1 hm.at (hf a).at }
  Emits-bind (raises, es) f hm hf = record { at = hm.at }

pub ruleset emits_rules =
    (Emits-pure, Emits-none, Emits-call, Emits-call_with, Emits-attempt, Emits-if, Emits-bind)

pub Emits-mono {ℓ} :
    {A : Type ℓ} {P Q : Effect → Type 0} (m : Exec A)
    → ((e : Effect) → P e → Q e)
    → Emits P m
    → Emits Q m
Emits-mono {P} {Q} (r, es) f h = record { at = go es h.at }
  where
    go : (ds : List Effect) → All P ds → All Q ds
    go [] k = tt
    go (d ∷ ds) k = (f d k.0, go ds k.1)
