-- ===== src/Streams/Task.antt =====
-- `DispatchTaskMessage` of backend/app/streams/models.py.
pub mod Held
pub mod Payload
pub mod RoundTrip
use model_lib.Base.{ℕ, String, Bool, true, false, Option, none, some, if◌then◌else◌}
use model_lib.Base.Eq.{◌==◌, string_eq}
use model_lib.Streams.Json.{
  ℤ, Json, null, flag, integer, text, other, array, object, Fields, no_fields, field, Received,
  characters, Codec, QueueMessageError, not_an_object, unsupported_version, invalid_field, Result,
  accepted, refused, ◌>>=◌, ◌>>◌, get, text_or_refuse, required_text, required_integer,
  optional_text, optional_integer, present_text, utc_timestamp, load, object_of, is_version_one,
  require,
}

-- A key that is not required is `none` where the dictionary does not have it.
pub record DispatchTaskPayload : Type 0 where
  pub driver_id : String
  pub vehicle_id : String
  pub route_id : String
  pub anomaly_type : String
  pub anomaly_description : String
  pub vehicle_status : Option String
  pub incident_node_id : Option (Option String)
  pub affected_edge_id : Option (Option String)

pub record DispatchTaskMessage : Type 0 where
  pub schema_version : String
  pub task_id : String
  pub order_id : ℤ
  pub anomaly_id : Option ℤ
  pub idempotency_key : String
  pub created_at : String
  pub payload : DispatchTaskPayload
  pub correlation_id : Option String

-- A text or `None`
unfoldable pub text_value : Option String → Json
text_value none = null
text_value (some s) = text s

unfoldable pub integer_value : Option ℤ → Json
integer_value none = null
integer_value (some n) = integer n

unfoldable pub optional_field : String → Option (Option String) → Fields → Fields
optional_field key none rest = rest
optional_field key (some value) rest = field key (text_value value) rest

unfoldable pub status_field : Option String → Fields
status_field none = no_fields
status_field (some s) = field "vehicle_status" (text s) no_fields

-- A payload's dictionary, its keys sorted
unfoldable pub payload_value : DispatchTaskPayload → Json
payload_value p = object (
    optional_field "affected_edge_id" p.affected_edge_id (
      field "anomaly_description" (text p.anomaly_description) (
        field "anomaly_type" (text p.anomaly_type) (
          field "driver_id" (text p.driver_id) (
            optional_field "incident_node_id" p.incident_node_id (
              field "route_id" (text p.route_id)
                (field "vehicle_id" (text p.vehicle_id) (status_field p.vehicle_status))))))))

-- The dictionary that `to_json` writes, its keys sorted
unfoldable pub message_value : DispatchTaskMessage → Json
message_value m = object (
    field "anomaly_id" (integer_value m.anomaly_id) (
      field "correlation_id" (text_value m.correlation_id) (
        field "created_at" (text m.created_at) (
          field "idempotency_key" (text m.idempotency_key) (
            field "order_id" (integer m.order_id) (
              field "payload" (payload_value m.payload) (
                field "schema_version" (text m.schema_version)
                  (field "task_id" (text m.task_id) no_fields))))))))

-- `value.get("vehicle_status", "NORMAL")`
unfoldable pub vehicle_status_of : Option Json → Result String
vehicle_status_of none = accepted "NORMAL"
vehicle_status_of (some v) = required_text "vehicle_status" (some v)

-- `_payload`
unfoldable pub read_fields : Fields → Result DispatchTaskPayload
read_fields fs = do
  vehicle_status ← vehicle_status_of (get fs "vehicle_status")
  driver_id ← required_text "driver_id" (get fs "driver_id")
  vehicle_id ← required_text "vehicle_id" (get fs "vehicle_id")
  route_id ← required_text "route_id" (get fs "route_id")
  anomaly_type ← required_text "anomaly_type" (get fs "anomaly_type")
  anomaly_description ← required_text "anomaly_description" (get fs "anomaly_description")
  incident_node_id ← present_text "incident_node_id" (get fs "incident_node_id")
  affected_edge_id ← present_text "affected_edge_id" (get fs "affected_edge_id")
  accepted (record {
    driver_id = driver_id;
    vehicle_id = vehicle_id;
    route_id = route_id;
    anomaly_type = anomaly_type;
    anomaly_description = anomaly_description;
    vehicle_status = some vehicle_status;
    incident_node_id = incident_node_id;
    affected_edge_id = affected_edge_id;
  })

unfoldable pub read_payload : Option Json → Result DispatchTaskPayload
read_payload (some v) = object_of (invalid_field "payload") v >>= read_fields
read_payload none = refused (invalid_field "payload")

module _ (codec : Codec) where
  unfoldable pub read_message : Fields → Result DispatchTaskMessage
  read_message raw = do
    require (is_version_one (get raw "schema_version")) unsupported_version
    task_id ← required_text "task_id" (get raw "task_id")
    idempotency_key ← required_text "idempotency_key" (get raw "idempotency_key")
    order_id ← required_integer "order_id" (get raw "order_id")
    anomaly_id ← optional_integer "anomaly_id" (get raw "anomaly_id")
    created_at ← utc_timestamp codec "created_at" (get raw "created_at")
    payload ← read_payload (get raw "payload")
    correlation_id ← optional_text "correlation_id" (get raw "correlation_id")
    accepted (record {
      schema_version = "1";
      task_id = task_id;
      order_id = order_id;
      anomaly_id = anomaly_id;
      idempotency_key = idempotency_key;
      created_at = created_at;
      payload = payload;
      correlation_id = correlation_id;
    })

  -- `from_json`
  unfoldable pub from_json : Received codec.Bytes → Result DispatchTaskMessage
  from_json value = load codec value >>= object_of not_an_object >>= read_message

  -- `to_json`
  unfoldable pub to_json : DispatchTaskMessage → String
  to_json m = codec.dumps (message_value m)
