-- ===== src/Locks/Execution/Tests.antt =====
-- The lock on a store that is a function from keys to values.
use model_lib.Base.{
  String, Bool, true, false, Option, none, some, [], ◌∷◌, ◌≡◌, ◌≢◌, refl, sym, if◌then◌else◌, arith,
}
use model_lib.Base.Eq.{◌==◌, string_eq, ==_iff}
use mathlib.Core.Bool.{true≢false}
use model_lib.Locks.Execution.{
  RedisClient, IsRedis, acquiring, token_of, acquire, renew, release, perform_all,
}
use model_lib.Locks.Execution.Exclusive.{granted_alone}

abbrev StringStore : Type 0
StringStore = String → Option String

unfoldable put : StringStore → String → Option String → StringStore
put s k v j = if k == j then v else s j

unfoldable set_if : StringStore → String → String → Option String → Bool × StringStore
set_if s k v none = (true, put s k (some v))
set_if s k v (some w) = (false, s)

abbrev client : RedisClient
client = record {
  Store = StringStore;
  get = λ s k. s k;
  set_nx = λ s k v t. set_if s k v (s k);
  pexpire = λ s k t. s;
  delete = λ s k. put s k none;
}

put_same : (s : StringStore) (k : String) (v : Option String) → put s k v k ≡ v
unfolding put
put_same s k v = ground (arith, ==_iff k k)

put_aside :
    (s : StringStore) (k : String) (v : Option String) (j : String)
    → (k == j) ≡ false
    → put s k v j ≡ s j
unfolding put
put_aside s k v j e = ground (arith, e)

set_if_aside :
    (s : StringStore) (k v j : String) (o : Option String)
    → (k == j) ≡ false
    → (set_if s k v o).1 j ≡ s j
unfolding set_if
set_if_aside s k v j none e = put_aside s k (some v) j e
set_if_aside s k v j (some w) e = refl

set_if_free :
    (s : StringStore) (k v : String) (o : Option String)
    → o ≡ none
    → ((set_if s k v o).0 ≡ true) × ((set_if s k v o).1 k ≡ some v)
unfolding set_if
set_if_free s k v none e = (refl, put_same s k (some v))
set_if_free s k v (some w) e = ground (arith, e)

set_if_taken :
    (s : StringStore) (k v w : String) (o : Option String)
    → s k ≡ some w
    → o ≡ some w
    → ((set_if s k v o).0 ≡ false) × ((set_if s k v o).1 k ≡ some w)
unfolding set_if
set_if_taken s k v w none held e = ground (arith, e)
set_if_taken s k v w (some u) held e = (refl, held)

client-IsRedis : IsRedis client
client-IsRedis = record {
  set_free = λ s k v t e. set_if_free s k v (s k) e;
  set_taken = λ s k v w t e. set_if_taken s k v w (s k) e e;
  set_aside = λ s k v j t e. set_if_aside s k v j (s k) e;
  pexpire_get = λ s k j t. refl;
  delete_aside = λ s k j e. put_aside s k none j e;
}

theirs≢ours : ◌≢◌ {A = String} "theirs" "ours"
theirs≢ours e = true≢false (sym ((==_iff "theirs" "ours").1 e))

granted_alone_example :
    let granted = acquire client 30000 (λ k. none) "order-7" "ours" in
    let after =
      perform_all client 30000 granted.1
        (acquiring "order-7" "theirs" ∷ acquiring "order-8" "theirs" ∷ []) in
    (granted.0.acquired ≡ true)
    × ((acquire client 30000 after "order-7" "third").0.acquired ≡ false)
    × ((renew client 30000 after granted.0).0 ≡ true)
    × ((release client 30000 after granted.0).0 ≡ true)
unfolding token_of
granted_alone_example =
    granted_alone client 30000 (λ k. none) "order-7" "ours" "third"
      (acquiring "order-7" "theirs" ∷ acquiring "order-8" "theirs" ∷ []) client-IsRedis refl
      (theirs≢ours, (theirs≢ours, tt))
