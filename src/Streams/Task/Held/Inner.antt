-- ===== src/Streams/Task/Held/Inner.antt =====
-- The dictionary of a payload.
use model_lib.Base.{String, ◌≡◌, ◌⊎◌, refl, sym, Option, none, some, arith}
use model_lib.Base.Eq.{string_eq}
use model_lib.Streams.Json.{
  Json, object, Fields, accepted, get, text_or_refuse, required_text, object_of,
}
use model_lib.Streams.Task.{DispatchTaskPayload, vehicle_status_of, read_fields, read_payload}
use model_lib.Streams.Json.Given.{
  Ensures, Ensures-bind, Given, HasText, MayBePresent, required_text-HasText,
  present_text-MayBePresent, HasText-required_text, MayBePresent-present_text,
}

-- A missing status is "NORMAL".
abbrev pub HasStatus : Option Json → Option String → Type 0
HasStatus v none = ⊥
HasStatus v (some s) = HasText v s ⊎ ((v ≡ none) × (s ≡ "NORMAL"))

pub record PayloadHeld (fs : Fields) (p : DispatchTaskPayload) : Type 0 where
  pub driver : HasText (get fs "driver_id") p.driver_id
  pub vehicle : HasText (get fs "vehicle_id") p.vehicle_id
  pub route : HasText (get fs "route_id") p.route_id
  pub type : HasText (get fs "anomaly_type") p.anomaly_type
  pub description : HasText (get fs "anomaly_description") p.anomaly_description
  pub status : HasStatus (get fs "vehicle_status") p.vehicle_status
  pub incident : MayBePresent (get fs "incident_node_id") p.incident_node_id
  pub affected : MayBePresent (get fs "affected_edge_id") p.affected_edge_id

abbrev pub HasPayload : Option Json → DispatchTaskPayload → Type 0
HasPayload (some (object fs)) p = PayloadHeld fs p
HasPayload _ p = ⊥

vehicle_status_of-HasStatus :
    (v : Option Json) → Ensures (λ s. HasStatus v (some s)) (vehicle_status_of v)
unfolding vehicle_status_of required_text text_or_refuse Given
vehicle_status_of-HasStatus v = record { holds = ground arith }

HasStatus-vehicle_status_of :
    (s : String) (v : Option Json) → HasStatus v (some s) → vehicle_status_of v ≡ accepted s
unfolding vehicle_status_of required_text text_or_refuse Given
HasStatus-vehicle_status_of s v h = ground (arith, h)

read_fields-Held : (fs : Fields) → Ensures (PayloadHeld fs) (read_fields fs)
unfolding read_fields
read_fields-Held fs = Ensures-bind _ _ (vehicle_status_of-HasStatus _) (λ status s.
    Ensures-bind _ _ (required_text-HasText _ _) (λ driver d.
      Ensures-bind _ _ (required_text-HasText _ _) (λ vehicle v.
        Ensures-bind _ _ (required_text-HasText _ _) (λ route r.
          Ensures-bind _ _ (required_text-HasText _ _) (λ type t.
            Ensures-bind _ _ (required_text-HasText _ _) (λ description e.
              Ensures-bind _ _ (present_text-MayBePresent _ _) (λ incident i.
                Ensures-bind _ _ (present_text-MayBePresent _ _) (λ affected a. record {
                  holds = record {
                    driver = d;
                    vehicle = v;
                    route = r;
                    type = t;
                    description = e;
                    status = s;
                    incident = i;
                    affected = a;
                  };
                }))))))))

pub read_payload-Held : (v : Option Json) → Ensures (HasPayload v) (read_payload v)
unfolding read_payload object_of
read_payload-Held none = record { holds = tt }
read_payload-Held (some (object fs)) = read_fields-Held fs
read_payload-Held (some _) = record { holds = tt }

Held-read_fields :
    (fs : Fields) (p : DispatchTaskPayload) (status : Option String)
    → p.vehicle_status ≡ status
    → HasStatus (get fs "vehicle_status") status
    → PayloadHeld fs p
    → read_fields fs ≡ accepted p
unfolding read_fields
Held-read_fields fs p none e s h = absurd s
Held-read_fields fs p (some status) e s h =
    rw
      (
        HasStatus-vehicle_status_of status (get fs "vehicle_status") s,
        HasText-required_text "driver_id" p.driver_id (get fs "driver_id") h.driver,
        HasText-required_text "vehicle_id" p.vehicle_id (get fs "vehicle_id") h.vehicle,
        HasText-required_text "route_id" p.route_id (get fs "route_id") h.route,
        HasText-required_text "anomaly_type" p.anomaly_type (get fs "anomaly_type") h.type,
        HasText-required_text "anomaly_description" p.anomaly_description
            (get fs "anomaly_description") h.description,
        MayBePresent-present_text "incident_node_id" p.incident_node_id (get fs "incident_node_id")
            h.incident,
        MayBePresent-present_text "affected_edge_id" p.affected_edge_id (get fs "affected_edge_id")
            h.affected,
        sym e,
      )
      refl

pub Held-read_payload :
    (v : Option Json) (p : DispatchTaskPayload) → HasPayload v p → read_payload v ≡ accepted p
unfolding read_payload object_of
Held-read_payload none p h = absurd h
Held-read_payload (some (object fs)) p h = Held-read_fields fs p p.vehicle_status refl h.status h
Held-read_payload (some _) p h = absurd h
