-- ===== src/Streams/Task/Held.antt =====
-- The dictionary of a message.
pub mod Inner
use model_lib.Base.{
  String, ◌≡◌, ◌⊎◌, ◌↔◌, inl, inr, refl, sym, true, Option, none, some, Bool-cases, arith,
}
use model_lib.Base.Eq.{string_eq, ==_iff}
use model_lib.Streams.Json.{
  Json, object, text, Fields, Received, bytes, characters, Codec, accepted, ◌>>=◌, get,
  text_or_refuse, required_text, required_integer, utc_timestamp, parsed, parse, load, object_of,
  not_an_object, is_version_one,
}
use model_lib.Streams.Task.{
  DispatchTaskPayload, DispatchTaskMessage, vehicle_status_of, read_fields, read_payload,
  read_message, from_json,
}
use model_lib.Streams.Json.Given.{
  Ensures, Ensures-bind, holds_at, Given, HasText, HasInteger, MayHaveText, MayHaveInteger,
  MayBePresent, required_text-HasText, required_integer-HasInteger, optional_text-MayHaveText,
  optional_integer-MayHaveInteger, present_text-MayBePresent, HasText-required_text,
  MayHaveText-optional_text, MayHaveInteger-optional_integer, MayBePresent-present_text,
}
use model_lib.Streams.Task.Held.Inner.{HasPayload, read_payload-Held, Held-read_payload}

module _ (codec : Codec) where
  pub record MessageHeld (raw : Fields) (m : DispatchTaskMessage) : Type 0 where
    pub version : get raw "schema_version" ≡ some (text "1")
    pub version_one : m.schema_version ≡ "1"
    pub task : HasText (get raw "task_id") m.task_id
    pub key : HasText (get raw "idempotency_key") m.idempotency_key
    pub order : HasInteger (get raw "order_id") m.order_id
    pub anomaly : MayHaveInteger (get raw "anomaly_id") m.anomaly_id
    pub created : get raw "created_at" ≡ some (text m.created_at)
    pub utc : codec.is_utc m.created_at ≡ true
    pub payload : HasPayload (get raw "payload") m.payload
    pub correlation : MayHaveText (get raw "correlation_id") m.correlation_id

  abbrev pub loaded : Option String → Option Json
  loaded none = none
  loaded (some s) = codec.loads s

  -- The value that was received, if it is JSON
  abbrev pub json_of : Received codec.Bytes → Option Json
  json_of (characters s) = codec.loads s
  json_of (bytes b) = loaded (codec.decode b)

  abbrev pub HasMessage : Option Json → DispatchTaskMessage → Type 0
  HasMessage (some (object raw)) m = MessageHeld raw m
  HasMessage _ m = ⊥

  utc_timestamp-Held :
      (name : String) (v : Option Json)
      → Ensures (λ s. (v ≡ some (text s)) × (codec.is_utc s ≡ true)) (utc_timestamp codec name v)
  unfolding utc_timestamp
  utc_timestamp-Held name v = record { holds = ground arith }

  Held-utc_timestamp :
      (name s : String) (v : Option Json)
      → v ≡ some (text s)
      → codec.is_utc s ≡ true
      → utc_timestamp codec name v ≡ accepted s
  unfolding utc_timestamp
  Held-utc_timestamp name s v h u = ground (arith, h, u)

  is_version_one_lem : (v : Option Json) → (is_version_one v ≡ true) ↔ (v ≡ some (text "1"))
  unfolding is_version_one
  is_version_one_lem (some (text s)) = ground (arith, ==_iff s "1")
  is_version_one_lem none = ground arith
  is_version_one_lem (some _) = ground arith

  read_message-Held : (raw : Fields) → Ensures (MessageHeld raw) (read_message codec raw)
  unfolding read_message
  read_message-Held raw = elim (Bool-cases (is_version_one (get raw "schema_version"))) [
    | inr e ↦ rw (e, read_message) (record { holds = tt })
    | inl e ↦
        rw (e, read_message)
          (Ensures-bind _ _ (required_text-HasText _ _) (λ task t.
            Ensures-bind _ _ (required_text-HasText _ _) (λ key k.
              Ensures-bind _ _ (required_integer-HasInteger _ _) (λ order o.
                Ensures-bind _ _ (optional_integer-MayHaveInteger _ _) (λ anomaly a.
                  Ensures-bind _ _ (utc_timestamp-Held _ _) (λ time u.
                    Ensures-bind _ _ (read_payload-Held _) (λ payload p.
                      Ensures-bind {Q = MessageHeld raw} _ _ (optional_text-MayHaveText _ _)
                        (λ correlation c. record {
                          holds = record {
                            version = (is_version_one_lem (get raw "schema_version")).0 e;
                            version_one = refl;
                            task = t;
                            key = k;
                            order = o;
                            anomaly = a;
                            created = u.0;
                            utc = u.1;
                            payload = p;
                            correlation = c;
                          };
                        }))))))))
  ]

  Held-read_message :
      (raw : Fields) (m : DispatchTaskMessage)
      → MessageHeld raw m
      → read_message codec raw ≡ accepted m
  unfolding read_message is_version_one required_integer
  Held-read_message raw m h =
      rw
        (
          h.version,
          HasText-required_text "task_id" m.task_id (get raw "task_id") h.task,
          HasText-required_text "idempotency_key" m.idempotency_key (get raw "idempotency_key")
              h.key,
          h.order,
          MayHaveInteger-optional_integer "anomaly_id" m.anomaly_id (get raw "anomaly_id")
              h.anomaly,
          Held-utc_timestamp "created_at" m.created_at (get raw "created_at") h.created h.utc,
          Held-read_payload (get raw "payload") m.payload h.payload,
          MayHaveText-optional_text "correlation_id" m.correlation_id (get raw "correlation_id")
              h.correlation,
          sym h.version_one,
        )
        refl

  json_iff :
      (v : Option Json) (m : DispatchTaskMessage)
      → ((parsed v >>= object_of not_an_object >>= read_message codec) ≡ accepted m)
        ↔ HasMessage v m
  unfolding parsed object_of
  json_iff none m = ground arith
  json_iff (some (object raw)) m = (
    (λ e. holds_at (MessageHeld raw) _ m e (read_message-Held raw).holds),
    Held-read_message raw m,
  )
  json_iff (some _) m = ground arith

  text_iff :
      (s : Option String) (m : DispatchTaskMessage)
      → ((parse codec s >>= object_of not_an_object >>= read_message codec) ≡ accepted m)
        ↔ HasMessage (loaded s) m
  unfolding parse
  text_iff none m = ground arith
  text_iff (some s) m = json_iff (codec.loads s) m

-- `from_json` accepts a value as a message exactly when it is JSON text of an object that has the
-- message's fields: version "1", the required texts, none of them empty, the integers, a time with
-- offset zero and the payload; a field that may be missing or null is then read as no value, and a
-- vehicle status that is missing as "NORMAL".
pub from_json-accepted_iff :
    (codec : Codec) (value : Received codec.Bytes) (m : DispatchTaskMessage)
    → (from_json codec value ≡ accepted m) ↔ HasMessage codec (json_of codec value) m
unfolding from_json load
from_json-accepted_iff codec (characters s) m = text_iff codec (some s) m
from_json-accepted_iff codec (bytes b) m = text_iff codec (codec.decode b) m
