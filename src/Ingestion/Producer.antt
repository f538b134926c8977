-- ===== src/Ingestion/Producer.antt =====
-- ingestion/kafka_producer.py, and the loop of `run` in ingestion/event_generator.py that sends the
-- batches. The client of Kafka is an interface; the signals and the log lines are left out.
pub mod Sending
use feature_store.Common.{ℕ, ◌+◌, String, true, List, [], ◌∷◌}
use feature_store.Common.Exec.{Exec, ok, pure, ◌>>=◌, ◌>>◌}
use feature_store.Tenacity.{Tenacity}
use feature_store.Ingestion.EventGenerator.{EcommerceEvent}
use feature_store.Ingestion.Wire.{Pydantic, to_kafka_bytes}

pub record Message : Type 0 where
  pub topic : String
  pub key : String
  pub value : String

pub record Kafka (W F : Type 0) : Type 0 where
  -- `self._producer.produce(...)`, which puts the message into the local queue
  pub enqueue : Message → Exec W (Unit {0})
  -- `poll(timeout=0.0)`
  pub poll : Exec W ℕ
  -- what the event's `to_kafka_bytes` calls, with the bytes as texts
  pub pydantic : Pydantic F String
  -- `time.sleep(sleep_interval)`
  pub pause : W → W

module _ {W F : Type 0} ⦃t : Tenacity W⦄ (k : Kafka W F) where
  -- five attempts, and the exception of the last one as it is
  unfoldable pub produce : String → String → String → Exec W (Unit {0})
  produce topic key value =
      t.retry 5 (λ e. true) true (k.enqueue (record { topic = topic; key = key; value = value }))

  -- The loop over a batch, with `total_sent` as it was before.
  unfoldable pub send_batch : String → List (EcommerceEvent F) → ℕ → Exec W ℕ
  send_batch topic [] total_sent = pure total_sent
  send_batch topic (event ∷ events) total_sent =
      produce topic event.user_id (to_kafka_bytes k.pydantic event)
      >> send_batch topic events (total_sent + 1)

  unfoldable pub send_batches : String → List (List (EcommerceEvent F)) → ℕ → Exec W ℕ
  send_batches topic [] total_sent = pure total_sent
  send_batches topic (batch ∷ batches) total_sent = do
    sent ← send_batch topic batch total_sent
    _ ← k.poll
    (λ w. send_batches topic batches sent (k.pause w))
