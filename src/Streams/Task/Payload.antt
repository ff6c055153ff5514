-- ===== src/Streams/Task/Payload.antt =====
-- A payload that was read is written and read again as it is.
use mathlib.Core.Path.{subst}
use model_lib.Base.{inl, inr, String, ◌≡◌, refl, sym, false, Option, none, some, arith}
use model_lib.Base.Eq.{◌==◌, string_eq, eq_refl}
use model_lib.Streams.Json.{
  Json, object, Fields, accepted, get, text_or_refuse, optional_text, present_text, object_of,
}
use model_lib.Streams.Task.{
  DispatchTaskPayload, text_value, optional_field, status_field, payload_value, vehicle_status_of,
  read_fields, read_payload,
}
use model_lib.Streams.Task.Held.Inner.{HasStatus, HasPayload, read_payload-Held}
use model_lib.Streams.Json.Given.{
  Ensures, Ensures-mono, MayBePresent, Given, OptionallyGiven, PresentlyGiven, required_text-text,
}

unfoldable pub StatusGiven : Option String → Type 0
StatusGiven none = ⊥
StatusGiven (some s) = Given s

pub record PayloadRead (p : DispatchTaskPayload) : Type 0 where
  pub driver : Given p.driver_id
  pub vehicle : Given p.vehicle_id
  pub route : Given p.route_id
  pub type : Given p.anomaly_type
  pub description : Given p.anomaly_description
  pub status : StatusGiven p.vehicle_status
  pub incident : PresentlyGiven p.incident_node_id
  pub affected : PresentlyGiven p.affected_edge_id

HasStatus-Given : (v : Option Json) (t : Option String) → HasStatus v t → StatusGiven t
unfolding StatusGiven Given
HasStatus-Given v (some s) (inl h) = h.1
HasStatus-Given v (some s) (inr (missing, normal)) = rw normal refl
HasStatus-Given v none h = absurd h

MayBePresent-Given :
    (v : Option Json) (t : Option (Option String)) → MayBePresent v t → PresentlyGiven t
unfolding PresentlyGiven OptionallyGiven
MayBePresent-Given v none h = tt
MayBePresent-Given v (some none) h = tt
MayBePresent-Given v (some (some s)) h = h.1

pub HasPayload-Read : (v : Option Json) (p : DispatchTaskPayload) → HasPayload v p → PayloadRead p
HasPayload-Read (some (object fs)) p h = record {
  driver = h.driver.1;
  vehicle = h.vehicle.1;
  route = h.route.1;
  type = h.type.1;
  description = h.description.1;
  status = HasStatus-Given _ p.vehicle_status h.status;
  incident = MayBePresent-Given _ p.incident_node_id h.incident;
  affected = MayBePresent-Given _ p.affected_edge_id h.affected;
}
HasPayload-Read none p h = absurd h
HasPayload-Read (some _) p h = absurd h

pub read_payload-Read : (v : Option Json) → Ensures PayloadRead (read_payload v)
read_payload-Read v = Ensures-mono (read_payload v) (HasPayload-Read v) (read_payload-Held v)

pub present_text-value :
    (name : String) (v : Option (Option String)) (rest : Fields)
    → PresentlyGiven v
    → get rest name ≡ none
    → present_text name (get (optional_field name v rest) name) ≡ accepted v
unfolding present_text optional_text text_or_refuse Given OptionallyGiven PresentlyGiven get
    optional_field text_value
present_text-value name v rest h fresh = ground (arith, eq_refl name)

pub get-optional_field :
    (name key : String) (v : Option (Option String)) (rest : Fields)
    → (name == key) ≡ false
    → get (optional_field name v rest) key ≡ get rest key
unfolding get optional_field
get-optional_field name key none rest h = refl
get-optional_field name key (some v) rest h = rw h refl

pub payload_with :
    (p : DispatchTaskPayload) (status : String)
    → PayloadRead (record p { vehicle_status = some status })
    → read_payload (some (payload_value (record p { vehicle_status = some status })))
      ≡ accepted (record p { vehicle_status = some status })
unfolding read_payload payload_value object_of read_fields vehicle_status_of get status_field
    StatusGiven
payload_with p status h =
    rw
      (
        get-optional_field "affected_edge_id" "vehicle_status" p.affected_edge_id _ refl,
        get-optional_field "incident_node_id" "vehicle_status" p.incident_node_id _ refl,
        required_text-text "vehicle_status" status h.status,
        get-optional_field "affected_edge_id" "driver_id" p.affected_edge_id _ refl,
        required_text-text "driver_id" p.driver_id h.driver,
        get-optional_field "affected_edge_id" "vehicle_id" p.affected_edge_id _ refl,
        get-optional_field "incident_node_id" "vehicle_id" p.incident_node_id _ refl,
        required_text-text "vehicle_id" p.vehicle_id h.vehicle,
        get-optional_field "affected_edge_id" "route_id" p.affected_edge_id _ refl,
        get-optional_field "incident_node_id" "route_id" p.incident_node_id _ refl,
        required_text-text "route_id" p.route_id h.route,
        get-optional_field "affected_edge_id" "anomaly_type" p.affected_edge_id _ refl,
        required_text-text "anomaly_type" p.anomaly_type h.type,
        get-optional_field "affected_edge_id" "anomaly_description" p.affected_edge_id _ refl,
        required_text-text "anomaly_description" p.anomaly_description h.description,
        get-optional_field "affected_edge_id" "incident_node_id" p.affected_edge_id _ refl,
        present_text-value "incident_node_id" p.incident_node_id _ h.incident refl,
        present_text-value "affected_edge_id" p.affected_edge_id _ h.affected
            (get-optional_field "incident_node_id" "affected_edge_id" p.incident_node_id _ refl),
      )
      refl

pub payload_again :
    (p : DispatchTaskPayload) (status : Option String)
    → p.vehicle_status ≡ status
    → PayloadRead p
    → read_payload (some (payload_value p)) ≡ accepted p
unfolding StatusGiven
payload_again p none e h = elim (subst StatusGiven e h.status) [ ]
payload_again p (some status) e h =
    subst
      (λ s.
        PayloadRead (record p { vehicle_status = s })
        → read_payload (some (payload_value (record p { vehicle_status = s })))
          ≡ accepted (record p { vehicle_status = s }))
      (sym e) (payload_with p status) h
