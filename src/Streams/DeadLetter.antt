-- ===== src/Streams/DeadLetter.antt =====
-- `DeadLetterMessage` of backend/app/streams/models.py.
pub mod RoundTrip
use model_lib.Base.{ℕ, ltb, String, Bool, true, false, Option, none, some, if◌then◌else◌}
use model_lib.Base.Eq.{◌==◌, string_eq}
use model_lib.Streams.Json.{
  ℤ, pos, negsuc, Json, integer, text, object, Fields, no_fields, field, Received, characters,
  Codec, QueueMessageError, unsupported_version, invalid_field, Result, accepted, refused, ◌>>=◌,
  ◌>>◌, get, required_text, required_integer, utc_timestamp, load, object_of, is_version_one,
  require,
}
use model_lib.Streams.Task.{DispatchTaskPayload, DispatchTaskMessage, payload_value, read_payload}

pub record DeadLetterMessage : Type 0 where
  pub schema_version : String
  pub original_message_id : String
  pub task_id : String
  pub order_id : ℤ
  pub idempotency_key : String
  pub original_stream : String
  pub failure_reason : String
  pub error_code : String
  pub delivery_count : ℤ
  pub failed_at : String
  pub payload : DispatchTaskPayload

-- The dictionary that `to_json` writes, its keys sorted
unfoldable pub dead_letter_value : DeadLetterMessage → Json
dead_letter_value d = object (
    field "delivery_count" (integer d.delivery_count) (
      field "error_code" (text d.error_code) (
        field "failed_at" (text d.failed_at) (
          field "failure_reason" (text d.failure_reason) (
            field "idempotency_key" (text d.idempotency_key) (
              field "order_id" (integer d.order_id) (
                field "original_message_id" (text d.original_message_id) (
                  field "original_stream" (text d.original_stream) (
                    field "payload" (payload_value d.payload) (
                      field "schema_version" (text d.schema_version)
                        (field "task_id" (text d.task_id) no_fields)))))))))))

unfoldable pub is_positive : ℤ → Bool
is_positive (pos n) = ltb 0 n
is_positive (negsuc n) = false

-- `_positive_integer`
unfoldable pub positive_integer : String → Option Json → Result ℤ
positive_integer name v = required_integer name v >>= λ n.
    if is_positive n then accepted n else refused (invalid_field name)

-- `from_stream_message` at the time `now`
unfoldable pub from_stream_message :
    String → DispatchTaskMessage → String → String → String → ℤ → String → Result DeadLetterMessage
from_stream_message message_id task stream reason code count now = do
  original_message_id ← required_text "original_message_id" (some (text message_id))
  original_stream ← required_text "original_stream" (some (text stream))
  failure_reason ← required_text "failure_reason" (some (text reason))
  error_code ← required_text "error_code" (some (text code))
  delivery_count ← positive_integer "delivery_count" (some (integer count))
  payload ← read_payload (some (payload_value task.payload))
  accepted (record {
    schema_version = "1";
    original_message_id = original_message_id;
    task_id = task.task_id;
    order_id = task.order_id;
    idempotency_key = task.idempotency_key;
    original_stream = original_stream;
    failure_reason = failure_reason;
    error_code = error_code;
    delivery_count = delivery_count;
    failed_at = now;
    payload = payload;
  })

module _ (codec : Codec) where
  unfoldable pub read_dead_letter : Fields → Result DeadLetterMessage
  read_dead_letter raw = do
    require (is_version_one (get raw "schema_version")) unsupported_version
    original_message_id ← required_text "original_message_id" (get raw "original_message_id")
    task_id ← required_text "task_id" (get raw "task_id")
    order_id ← required_integer "order_id" (get raw "order_id")
    idempotency_key ← required_text "idempotency_key" (get raw "idempotency_key")
    original_stream ← required_text "original_stream" (get raw "original_stream")
    failure_reason ← required_text "failure_reason" (get raw "failure_reason")
    error_code ← required_text "error_code" (get raw "error_code")
    delivery_count ← positive_integer "delivery_count" (get raw "delivery_count")
    failed_at ← utc_timestamp codec "failed_at" (get raw "failed_at")
    payload ← read_payload (get raw "payload")
    accepted (record {
      schema_version = "1";
      original_message_id = original_message_id;
      task_id = task_id;
      order_id = order_id;
      idempotency_key = idempotency_key;
      original_stream = original_stream;
      failure_reason = failure_reason;
      error_code = error_code;
      delivery_count = delivery_count;
      failed_at = failed_at;
      payload = payload;
    })

  unfoldable pub dead_letter_from_json : Received codec.Bytes → Result DeadLetterMessage
  dead_letter_from_json value =
      load codec value >>= object_of unsupported_version >>= read_dead_letter

  unfoldable pub dead_letter_to_json : DeadLetterMessage → String
  dead_letter_to_json d = codec.dumps (dead_letter_value d)
