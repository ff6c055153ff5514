-- ===== src/Streams/Tests.antt =====
-- A message about a broken vehicle, its dead letter, and a codec of the two.
use model_lib.Base.{String, ◌≡◌, ◌↔◌, refl, true, none, some, if◌then◌else◌}
use model_lib.Base.Eq.{◌==◌, string_eq}
use model_lib.Streams.Json.{
  pos, Json, object, field, characters, Codec, accepted, get, text_or_refuse, required_text,
  required_integer, optional_text, optional_integer, present_text, utc_timestamp, parsed, parse,
  load, object_of, is_version_one,
}
use model_lib.Streams.Task.{
  DispatchTaskPayload, DispatchTaskMessage, text_value, integer_value, optional_field, status_field,
  payload_value, message_value, vehicle_status_of, read_fields, read_payload, read_message,
  from_json, to_json,
}
use model_lib.Streams.Task.Held.{json_of, HasMessage, from_json-accepted_iff}
use model_lib.Streams.Task.RoundTrip.{from_json-to_json}
use model_lib.Streams.DeadLetter.{
  DeadLetterMessage, dead_letter_value, is_positive, positive_integer, from_stream_message,
  dead_letter_from_json, dead_letter_to_json,
}
use model_lib.Streams.DeadLetter.RoundTrip.{dead_letter_again}

abbrev breakdown : DispatchTaskPayload
breakdown = record {
  driver_id = "D-1";
  vehicle_id = "V-1";
  route_id = "R-1";
  anomaly_type = "VEHICLE_BREAKDOWN";
  anomaly_description = "engine";
  vehicle_status = some "BROKEN";
  incident_node_id = some (some "N04");
  affected_edge_id = some none;
}

abbrev task : DispatchTaskMessage
task = record {
  schema_version = "1";
  task_id = "T-7";
  order_id = pos 12;
  anomaly_id = none;
  idempotency_key = "K-7";
  created_at = "2026-01-01T00:00:00+00:00";
  payload = breakdown;
  correlation_id = some "C-7";
}

abbrev letter : DeadLetterMessage
letter = record {
  schema_version = "1";
  original_message_id = "1-0";
  task_id = "T-7";
  order_id = pos 12;
  idempotency_key = "K-7";
  original_stream = "dispatch";
  failure_reason = "too many attempts";
  error_code = "MAX_DELIVERIES";
  delivery_count = pos 5;
  failed_at = "2026-01-01T01:00:00+00:00";
  payload = breakdown;
}

abbrev dumps_one : Json → String
dumps_one (object (field key value rest)) = if key == "delivery_count" then "letter" else "task"
dumps_one _ = ""

abbrev codec : Codec
codec = record {
  Bytes = Unit;
  decode = λ b. none;
  loads = λ s. if s == "letter" then some (dead_letter_value letter) else some (message_value task);
  dumps = dumps_one;
  is_utc = λ s. true;
}

task_is_read : from_json codec (characters "task") ≡ accepted task
unfolding from_json load parse parsed object_of read_message get is_version_one required_text
    text_or_refuse required_integer optional_integer utc_timestamp read_payload read_fields
    vehicle_status_of present_text optional_text message_value payload_value text_value
    integer_value optional_field status_field
task_is_read = refl

from_json-accepted_iff_example :
    (from_json codec (characters "task") ≡ accepted task)
    ↔ HasMessage codec (json_of codec (characters "task")) task
from_json-accepted_iff_example = from_json-accepted_iff codec (characters "task") task

from_json-to_json_example : from_json codec (characters (to_json codec task)) ≡ accepted task
unfolding message_value
from_json-to_json_example = from_json-to_json codec (characters "task") task task_is_read refl

letter_is_made :
    from_stream_message "1-0" task "dispatch" "too many attempts" "MAX_DELIVERIES"
      (pos 5)
      "2026-01-01T01:00:00+00:00"
    ≡ accepted letter
unfolding from_stream_message required_text text_or_refuse positive_integer required_integer
    is_positive read_payload object_of read_fields vehicle_status_of present_text optional_text get
    payload_value text_value optional_field status_field
letter_is_made = refl

dead_letter_again_example :
    dead_letter_from_json codec (characters (dead_letter_to_json codec letter)) ≡ accepted letter
unfolding dead_letter_value
dead_letter_again_example =
    dead_letter_again codec (characters "task") task "1-0" "dispatch" "too many attempts"
      "MAX_DELIVERIES" (pos 5) "2026-01-01T01:00:00+00:00" letter task_is_read refl letter_is_made
      refl
