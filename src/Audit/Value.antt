-- ===== src/Audit/Value.antt =====
-- The untyped values that backend/app/audit/service.py reads, and its readers `_mapping`, `_text`,
-- `_integer`, `_string_list`, `_has_memory` and `_candidate`.
use model_lib.Base.{
  ℕ, String, Bool, true, false, ◌||◌, Option, none, some, List, [], ◌∷◌, if◌then◌else◌,
}
use model_lib.Base.Eq.{◌==◌, nat_eq, string_eq, option_eq}

-- `other` is a value of any other class, a float or a decimal, by its text. A mapping is the list of
-- its entries, each key once.
mutual
  pub data Value : Type 0 where
    null : Value
    flag : Bool → Value
    integer : ℕ → Value
    text : String → Value
    other : String → Value
    sequence : Values → Value
    mapping : Entries → Value

  pub data Values : Type 0 where
    nil : Values
    cons : Value → Values → Values

  pub data Entries : Type 0 where
    no_entries : Entries
    entry : String → Value → Entries → Entries

-- `mapping.get(key)`
unfoldable pub get : Entries → String → Value
get no_entries key = null
get (entry k v rest) key = if k == key then v else get rest key

-- `_mapping`
unfoldable pub mapping_of : Value → Entries
mapping_of (mapping m) = m
mapping_of _ = no_entries

-- `value if value else None` on a text
unfoldable pub nonempty : String → Option String
nonempty s = if s == "" then none else some s

-- `_text`
unfoldable pub text_of : Value → Option String
text_of (text s) = nonempty s
text_of _ = none

-- `_integer`
unfoldable pub integer_of : Value → Option ℕ
integer_of (integer n) = some n
integer_of _ = none

-- `value is True`
unfoldable pub is_true : Value → Bool
is_true (flag b) = b
is_true _ = false

unfoldable pub is_null : Value → Bool
is_null null = true
is_null _ = false

-- `value == s` for a text `s`
unfoldable pub is_text : Value → String → Bool
is_text (text t) s = t == s
is_text _ s = false

-- A sequence with nothing in it
unfoldable pub is_empty_sequence : Value → Bool
is_empty_sequence (sequence nil) = true
is_empty_sequence _ = false

abbrev pub text_key : Entries → String → Option String
text_key m key = text_of (get m key)

unfoldable pub cons_text : Value → List String → List String
cons_text (text s) rest = s ∷ rest
cons_text _ rest = rest

unfoldable pub texts : Values → List String
texts nil = []
texts (cons v vs) = cons_text v (texts vs)

-- `_string_list`
unfoldable pub string_list : Value → List String
string_list (sequence vs) = texts vs
string_list _ = []

unfoldable pub is_memory : Value → String → Bool
is_memory (mapping m) memory_id = is_text (get m "memory_id") memory_id
is_memory _ memory_id = false

unfoldable pub any_memory : Values → String → Bool
any_memory nil memory_id = false
any_memory (cons v vs) memory_id = is_memory v memory_id || any_memory vs memory_id

-- `_has_memory`
unfoldable pub has_memory : Value → String → Bool
has_memory (sequence vs) memory_id = any_memory vs memory_id
has_memory _ memory_id = false

unfoldable pub is_vehicle : Value → String → Bool
is_vehicle (mapping m) vehicle_id = text_key m "vehicle_id" == some vehicle_id
is_vehicle _ vehicle_id = false

unfoldable pub first_vehicle : Values → String → Entries
first_vehicle nil vehicle_id = no_entries
first_vehicle (cons v vs) vehicle_id =
    if is_vehicle v vehicle_id then mapping_of v else first_vehicle vs vehicle_id

-- `_candidate`
unfoldable pub candidate : Value → Option String → Entries
candidate (sequence vs) (some vehicle_id) = first_vehicle vs vehicle_id
candidate _ _ = no_entries
