-- ===== src/Streams/Json.antt =====
-- JSON values as backend/app/streams/models.py reads them, and the readers that its two messages
-- share. The codec of the json module, UTF-8 and the reading of a time are a parameter.
pub mod Given
use model_lib.Base.{ℕ, ltb, String, Bool, true, false, not, ◌&&◌, Option, none, some, if◌then◌else◌}
use model_lib.Base.Eq.{◌==◌, string_eq}

pub data ℤ : Type 0 where
  pos negsuc : ℕ → ℤ

-- `other` is a float, by its text. An object has each key once.
mutual
  pub data Json : Type 0 where
    null : Json
    flag : Bool → Json
    integer : ℤ → Json
    text : String → Json
    other : String → Json
    array : Items → Json
    object : Fields → Json

  pub data Items : Type 0 where
    no_items : Items
    item : Json → Items → Items

  pub data Fields : Type 0 where
    no_fields : Fields
    field : String → Json → Fields → Fields

-- A value that the stream client gave.
pub data Received (Bytes : Type 0) : Type 0 where
  bytes : Bytes → Received Bytes
  characters : String → Received Bytes

-- `is_utc` is whether a text is an ISO-8601 time with offset zero. `dumps` is given objects whose keys
-- are sorted, as `sort_keys=True` sorts them.
pub record Codec : Type 1 where
  pub Bytes : Type 0
  pub decode : Bytes → Option String
  pub loads : String → Option Json
  pub dumps : Json → String
  pub is_utc : String → Bool

pub data QueueMessageError : Type 0 where
  not_json not_an_object unsupported_version : QueueMessageError
  invalid_field : String → QueueMessageError

pub data Result {ℓ} (A : Type ℓ) : Type ℓ where
  accepted : A → Result A
  refused : QueueMessageError → Result A

module _ {ℓ κ} {A : Type ℓ} {B : Type κ} where
  infixl 5 ◌>>=◌ ◌>>◌
  abbrev pub ◌>>=◌ : Result A → (A → Result B) → Result B
  accepted a >>= f = f a
  refused e >>= f = refused e

  abbrev pub ◌>>◌ : Result A → Result B → Result B
  accepted a >> r = r
  refused e >> r = refused e

-- `raw.get(key)`, `none` for a missing key
unfoldable pub get : Fields → String → Option Json
get no_fields key = none
get (field k v rest) key = if k == key then some v else get rest key

unfoldable pub text_or_refuse : String → String → Result String
text_or_refuse name s = if s == "" then refused (invalid_field name) else accepted s

-- `_required_text`
unfoldable pub required_text : String → Option Json → Result String
required_text name (some (text s)) = text_or_refuse name s
required_text name _ = refused (invalid_field name)

-- `_integer`; a Boolean is refused.
unfoldable pub required_integer : String → Option Json → Result ℤ
required_integer name (some (integer n)) = accepted n
required_integer name _ = refused (invalid_field name)

-- A field that may be missing or `None`
unfoldable pub optional_text : String → Option Json → Result (Option String)
optional_text name none = accepted none
optional_text name (some null) = accepted none
optional_text name (some (text s)) = text_or_refuse name s >>= λ t. accepted (some t)
optional_text name (some _) = refused (invalid_field name)

unfoldable pub optional_integer : String → Option Json → Result (Option ℤ)
optional_integer name none = accepted none
optional_integer name (some null) = accepted none
optional_integer name (some v) = required_integer name (some v) >>= λ n. accepted (some n)

-- `_optional_text` under `if name in value`
unfoldable pub present_text : String → Option Json → Result (Option (Option String))
present_text name none = accepted none
present_text name (some v) = optional_text name (some v) >>= λ t. accepted (some t)

unfoldable pub parsed : Option Json → Result Json
parsed none = refused not_json
parsed (some v) = accepted v

module _ (codec : Codec) where
  -- `_utc_timestamp`
  unfoldable pub utc_timestamp : String → Option Json → Result String
  utc_timestamp name (some (text s)) =
      if codec.is_utc s then accepted s else refused (invalid_field name)
  utc_timestamp name _ = refused (invalid_field name)

  unfoldable pub parse : Option String → Result Json
  parse none = refused not_json
  parse (some s) = parsed (codec.loads s)

  unfoldable pub load : Received codec.Bytes → Result Json
  load (bytes b) = parse (codec.decode b)
  load (characters s) = parse (some s)

unfoldable pub object_of : QueueMessageError → Json → Result Fields
object_of e (object fs) = accepted fs
object_of e _ = refused e

unfoldable pub is_version_one : Option Json → Bool
is_version_one (some (text s)) = s == "1"
is_version_one _ = false

abbrev pub require : Bool → QueueMessageError → Result (Unit {0})
require b e = if b then accepted tt else refused e
