-- ===== src/Examples/Ingestion.antt =====
-- Examples for the generator of events.
use feature_store.Common.{String, ℕ, zero, suc, ◌+◌, arith, refl, ◌++◌, ◌≡◌, List, [], ◌∷◌}
use feature_store.Float.Fixed.{Fixed, fixed_float}
use feature_store.Ingestion.EventGenerator.{EcommerceEvent}
use feature_store.Ingestion.Wire.{Pydantic}
use feature_store.Common.Exec.{Exec, Exn, ok, err, other_error}
use feature_store.Tenacity.Simple.{simple_tenacity, simple-TenacityLaws, attempt, settle}
use feature_store.Ingestion.Producer.{Message, Kafka, produce, send_batch, send_batches}
use feature_store.Ingestion.Producer.Sending.{
  KafkaLaws, messages, events_of, send_batches-taken, produce_recovers,
}
use feature_store.Examples.World.{memory_clock, ann}

-- A queue in memory, which raises as often as it is told to before it takes a message.
abbrev Queue : Type 0
Queue = ℕ × List Message

abbrev put : Message → Exec Queue (Unit {0})
put m (zero, ms) = (ok tt, (0, ms ++ m ∷ []))
put m (suc n, ms) = (err other_error, (n, ms))

-- messages with no content
abbrev brief : Pydantic Fixed String
brief = record {
  dump = λ v. "{}";
  parse = λ bytes. err other_error;
  iso = fixed_float.str;
  as_datetime = λ v. err other_error;
  as_float = λ v. err other_error;
}

abbrev queue : Kafka Queue Fixed
queue = record { enqueue = put; poll = λ w. (ok 0, w); pydantic = brief; pause = λ w. w }

put_returns : (m : Message) (w w' : Queue) → put m w ≡ (ok tt, w') → w'.1 ≡ w.1 ++ m ∷ []
put_returns m (zero, ms) w' h = ground arith
put_returns m (suc n, ms) w' h = absurd (ground arith)

put_raises : (m : Message) (e : Exn) (w w' : Queue) → put m w ≡ (err e, w') → w'.1 ≡ w.1
put_raises m e (zero, ms) w' h = absurd (ground arith)
put_raises m e (suc n, ms) w' h = ground arith

queue-KafkaLaws : KafkaLaws Queue Fixed queue
queue-KafkaLaws = record {
  taken = λ w. w.1;
  enqueue_returns = λ m w w' h. put_returns m w w' h;
  enqueue_raises = λ m e w w' h. put_raises m e w w' h;
  poll_keeps = λ n w w' h. ground arith;
  pause_keeps = λ w. refl;
  wait_keeps = λ w. refl;
}

abbrev pub event_named : String → EcommerceEvent Fixed
event_named id = record {
  event_id = id;
  user_id = ann;
  session_id = "ses_1";
  event_type = "page_view";
  timestamp = fixed_float.lit 1 0;
  transaction_amount = fixed_float.lit 0 0;
  product_id = "prod_00001";
  category = "books";
  location = record { country = "UK"; city = "London" };
  device_type = "mobile";
  schema_version = "1.0";
}

abbrev pub some_events : List (EcommerceEvent Fixed)
some_events = event_named "e1" ∷ event_named "e2" ∷ []

-- two batches, sent after an outage of one attempt
abbrev sent : Queue
sent = (0, messages simple-TenacityLaws queue-KafkaLaws "events" (some_events ∷ some_events ∷ []))

send_batches-taken_example :
    (4 ≡ 0 + events_of simple-TenacityLaws queue-KafkaLaws (some_events ∷ some_events ∷ []))
    × (queue-KafkaLaws.taken sent
        ≡ queue-KafkaLaws.taken (1, [])
          ++ messages simple-TenacityLaws queue-KafkaLaws "events" (some_events ∷ some_events ∷ []))
unfolding send_batches send_batch produce attempt settle
send_batches-taken_example =
    send_batches-taken simple-TenacityLaws queue-KafkaLaws "events" (some_events ∷ some_events ∷ [])
      0 4 (1, []) sent refl

produce_recovers_example :
    (w' : Queue) × (produce queue "events" ann "{}" (2, []) ≡ (ok tt, w'))
    × (queue-KafkaLaws.taken w'
        ≡ queue-KafkaLaws.taken (2, [])
          ++ record { topic = "events"; key = ann; value = "{}" } ∷ [])
produce_recovers_example =
    produce_recovers simple-TenacityLaws queue-KafkaLaws 2 "events" ann "{}" (2, []) (omega arith)
      (other_error, (1, []), refl, (other_error, (0, []), refl, ((0, _), refl)))
