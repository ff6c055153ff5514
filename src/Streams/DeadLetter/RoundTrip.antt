-- ===== src/Streams/DeadLetter/RoundTrip.antt =====
-- A dead letter of a message that was read is read again as it is.
use model_lib.Base.{String, ◌≡◌, refl, true, Option, some, arith}
use model_lib.Base.Eq.{string_eq}
use model_lib.Streams.Json.{
  ℤ, Json, integer, Received, characters, Codec, accepted, unsupported_version, ◌>>=◌, get,
  required_integer, parsed, parse, load, object_of, is_version_one,
}
use model_lib.Streams.Json.Given.{
  Ensures, Ensures-bind, Given, required_text-Given, required_text-text, utc_timestamp-text,
  holds_at,
}
use model_lib.Streams.Task.{DispatchTaskMessage, from_json}
use model_lib.Streams.Task.Payload.{PayloadRead, read_payload-Read, payload_again}
use model_lib.Streams.Task.RoundTrip.{MessageRead, from_json-MessageRead}
use model_lib.Streams.DeadLetter.{
  DeadLetterMessage, dead_letter_value, is_positive, positive_integer, from_stream_message,
  read_dead_letter, dead_letter_from_json, dead_letter_to_json,
}

record LetterRead (codec : Codec) (d : DeadLetterMessage) : Type 0 where
  version : d.schema_version ≡ "1"
  message : Given d.original_message_id
  task : Given d.task_id
  key : Given d.idempotency_key
  stream : Given d.original_stream
  reason : Given d.failure_reason
  code : Given d.error_code
  count : is_positive d.delivery_count ≡ true
  time : codec.is_utc d.failed_at ≡ true
  payload : PayloadRead d.payload

positive_integer-Positive :
    (name : String) (v : Option Json)
    → Ensures (λ n. is_positive n ≡ true) (positive_integer name v)
unfolding positive_integer required_integer
positive_integer-Positive name v = record { holds = ground arith }

positive_integer-integer :
    (name : String) (n : ℤ)
    → is_positive n ≡ true
    → positive_integer name (some (integer n)) ≡ accepted n
unfolding positive_integer required_integer
positive_integer-integer name n h = rw h refl

module _ (codec : Codec) (task : DispatchTaskMessage) (given : MessageRead codec task) where
  from_stream_message-Read :
      (message_id stream reason code : String) (count : ℤ) (now : String)
      → codec.is_utc now ≡ true
      → Ensures
          (LetterRead codec)
          (from_stream_message message_id task stream reason code count now)
  unfolding from_stream_message
  from_stream_message-Read message_id stream reason code count now utc =
      Ensures-bind _ _ (required_text-Given _ _) (λ message m.
        Ensures-bind _ _ (required_text-Given _ _) (λ stream s.
          Ensures-bind _ _ (required_text-Given _ _) (λ reason r.
            Ensures-bind _ _ (required_text-Given _ _) (λ code c.
              Ensures-bind _ _ (positive_integer-Positive _ _) (λ count n.
                Ensures-bind {Q = LetterRead codec} _ _ (read_payload-Read _) (λ payload p. record {
                  holds = record {
                    version = refl;
                    message = m;
                    task = given.task;
                    key = given.key;
                    stream = s;
                    reason = r;
                    code = c;
                    count = n;
                    time = utc;
                    payload = p;
                  };
                }))))))

letter_again :
    (codec : Codec) (d : DeadLetterMessage)
    → LetterRead codec d
    → (object_of unsupported_version (dead_letter_value d) >>= read_dead_letter codec) ≡ accepted d
unfolding dead_letter_value object_of read_dead_letter get is_version_one required_integer
letter_again codec d h =
    rw
      (
        h.version,
        required_text-text "original_message_id" d.original_message_id h.message,
        required_text-text "task_id" d.task_id h.task,
        required_text-text "idempotency_key" d.idempotency_key h.key,
        required_text-text "original_stream" d.original_stream h.stream,
        required_text-text "failure_reason" d.failure_reason h.reason,
        required_text-text "error_code" d.error_code h.code,
        positive_integer-integer "delivery_count" d.delivery_count h.count,
        utc_timestamp-text codec "failed_at" d.failed_at h.time,
        payload_again d.payload d.payload.vehicle_status refl h.payload,
      )
      refl

-- The dead letter that is made, at a time with offset zero, of a message that `from_json` accepted is
-- read again as it is, when the codec reads the dictionary that it wrote.
pub dead_letter_again :
    (codec : Codec) (value : Received codec.Bytes) (task : DispatchTaskMessage)
    (message_id stream reason code : String) (count : ℤ) (now : String) (d : DeadLetterMessage)
    → from_json codec value ≡ accepted task
    → codec.is_utc now ≡ true
    → from_stream_message message_id task stream reason code count now ≡ accepted d
    → codec.loads (codec.dumps (dead_letter_value d)) ≡ some (dead_letter_value d)
    → dead_letter_from_json codec (characters (dead_letter_to_json codec d)) ≡ accepted d
unfolding dead_letter_from_json dead_letter_to_json load parse parsed
dead_letter_again codec value task message_id stream reason code count now d read utc made again =
    rw again (
      letter_again codec d (
        holds_at (LetterRead codec) _ d made
          (from_stream_message-Read codec task (from_json-MessageRead codec value task read)
            message_id stream reason code count now utc).holds))
