-- ===== src/Streams/Task/RoundTrip.antt =====
-- A message that was read is written and read again as it is.
use model_lib.Base.{◌≡◌, refl, true, String, Option, none, some}
use model_lib.Base.Eq.{string_eq}
use model_lib.Streams.Json.{
  Json, object, Received, characters, Codec, not_an_object, accepted, ◌>>=◌, get, required_integer,
  parsed, parse, load, object_of, is_version_one,
}
use model_lib.Streams.Task.{DispatchTaskMessage, message_value, read_message, from_json, to_json}
use model_lib.Streams.Json.Given.{
  MayHaveText, Given, OptionallyGiven, required_text-text, optional_text-value,
  optional_integer-value, utc_timestamp-text,
}
use model_lib.Streams.Task.Held.{json_of, HasMessage, from_json-accepted_iff}
use model_lib.Streams.Task.Payload.{PayloadRead, HasPayload-Read, payload_again}

module _ (codec : Codec) where
  pub record MessageRead (m : DispatchTaskMessage) : Type 0 where
    pub version : m.schema_version ≡ "1"
    pub task : Given m.task_id
    pub key : Given m.idempotency_key
    pub time : codec.is_utc m.created_at ≡ true
    pub payload : PayloadRead m.payload
    pub correlation : OptionallyGiven m.correlation_id

  MayHaveText-Given : (v : Option Json) (t : Option String) → MayHaveText v t → OptionallyGiven t
  unfolding OptionallyGiven
  MayHaveText-Given v none h = tt
  MayHaveText-Given v (some s) h = h.1

  HasMessage-Read :
      (v : Option Json) (m : DispatchTaskMessage) → HasMessage codec v m → MessageRead m
  HasMessage-Read (some (object raw)) m h = record {
    version = h.version_one;
    task = h.task.1;
    key = h.key.1;
    time = h.utc;
    payload = HasPayload-Read (get raw "payload") m.payload h.payload;
    correlation = MayHaveText-Given _ m.correlation_id h.correlation;
  }
  HasMessage-Read none m h = absurd h
  HasMessage-Read (some _) m h = absurd h

  message_again :
      (m : DispatchTaskMessage)
      → MessageRead m
      → (object_of not_an_object (message_value m) >>= read_message codec) ≡ accepted m
  unfolding message_value object_of read_message get is_version_one required_integer
  message_again m h =
      rw
        (
          h.version,
          required_text-text "task_id" m.task_id h.task,
          required_text-text "idempotency_key" m.idempotency_key h.key,
          optional_integer-value "anomaly_id" m.anomaly_id,
          utc_timestamp-text codec "created_at" m.created_at h.time,
          payload_again m.payload m.payload.vehicle_status refl h.payload,
          optional_text-value "correlation_id" m.correlation_id h.correlation,
        )
        refl

  pub from_json-MessageRead :
      (value : Received codec.Bytes) (m : DispatchTaskMessage)
      → from_json codec value ≡ accepted m
      → MessageRead m
  from_json-MessageRead value m e =
      HasMessage-Read (json_of codec value) m ((from_json-accepted_iff codec value m).0 e)

-- A message that `from_json` accepts, written by `to_json` and read again, is the same message, when
-- the codec reads the dictionary that it wrote.
pub from_json-to_json :
    (codec : Codec) (value : Received codec.Bytes) (m : DispatchTaskMessage)
    → from_json codec value ≡ accepted m
    → codec.loads (codec.dumps (message_value m)) ≡ some (message_value m)
    → from_json codec (characters (to_json codec m)) ≡ accepted m
unfolding from_json to_json load parse parsed
from_json-to_json codec value m e again =
    rw again (message_again codec m (from_json-MessageRead codec value m e))
