-- ===== src/Ingestion/Producer/Sending.antt =====
-- What is in the queue after the batches are sent, and that a short outage loses nothing.
use feature_store.Common.{
  ℕ, zero, suc, ◌+◌, ◌-◌, ◌≤◌, ◌≡◌, refl, sym, ap, ◌∙◌, arith, String, true, List, [], ◌∷◌, ◌++◌,
  map, length, inl, inr,
}
use mathlib.Core.List.{append_assoc, append-nil}
use mathlib.Core.Path.{subst}
use feature_store.Common.Exec.{Exn, ok, err, Exec-cases}
use feature_store.Tenacity.{Tenacity, TenacityLaws}
use feature_store.Ingestion.EventGenerator.{EcommerceEvent}
use feature_store.Ingestion.Wire.{to_kafka_bytes}
use feature_store.Ingestion.Producer.{Message, Kafka, produce, send_batch, send_batches}

-- The messages that a producer has taken: one more for a call that returns, none for one that
-- raises, and the same while time passes.
pub record KafkaLaws (W F : Type 0) ⦃t : Tenacity W⦄ (k : Kafka W F) : Type 0 where
  pub taken : W → List Message
  pub enqueue_returns :
      (m : Message) (w w' : W) → k.enqueue m w ≡ (ok tt, w') → taken w' ≡ taken w ++ m ∷ []
  pub enqueue_raises :
      (m : Message) (e : Exn) (w w' : W) → k.enqueue m w ≡ (err e, w') → taken w' ≡ taken w
  pub poll_keeps : (n : ℕ) (w w' : W) → k.poll w ≡ (ok n, w') → taken w' ≡ taken w
  pub pause_keeps : (w : W) → taken (k.pause w) ≡ taken w
  pub wait_keeps : (w : W) → taken (t.wait w) ≡ taken w

module _ {W F : Type 0} ⦃t : Tenacity W⦄ {k : Kafka W F} (retries : TenacityLaws W)
    (laws : KafkaLaws W F k) where
  -- A message that is taken at last is taken once, whatever the attempts before did.
  retry_takes_once :
      (n : ℕ) (m : Message) (w w' : W)
      → t.retry (suc n) (λ e. true) true (k.enqueue m) w ≡ (ok tt, w')
      → laws.taken w' ≡ laws.taken w ++ m ∷ []
  retry_takes_once zero m w w' h = elim (Exec-cases (k.enqueue m w)) [
    | inl (u, v, e) ↦
        laws.enqueue_returns m w w'
          (ground (arith, e, retries.retry_returns zero (λ x. true) true (k.enqueue m) w v u e))
    | inr (x, v, e) ↦
        absurd (ground (arith, retries.retry_gives_up (λ y. true) true (k.enqueue m) w v x e refl))
  ]
  retry_takes_once (suc n) m w w' h = elim (Exec-cases (k.enqueue m w)) [
    | inl (u, v, e) ↦
        laws.enqueue_returns m w w'
          (ground (arith, e, retries.retry_returns (suc n) (λ x. true) true (k.enqueue m) w v u e))
    | inr (x, v, e) ↦
        let again = retries.retry_again n (λ y. true) true (k.enqueue m) w v x e refl in
        retry_takes_once n m (t.wait v) w' (sym again ∙ h)
        ∙ ap (λ ms. ms ++ m ∷ []) (laws.wait_keeps v ∙ laws.enqueue_raises m x w v e)
  ]

  abbrev pub message_of : String → EcommerceEvent F → Message
  message_of topic event = record {
    topic = topic;
    key = event.user_id;
    value = to_kafka_bytes k.pydantic event;
  }

  abbrev pub messages : String → List (List (EcommerceEvent F)) → List Message
  messages topic [] = []
  messages topic (batch ∷ batches) = map (message_of topic) batch ++ messages topic batches

  send_batch-taken :
      (topic : String) (events : List (EcommerceEvent F)) (n total : ℕ) (w w' : W)
      → send_batch k topic events n w ≡ (ok total, w')
      → (total ≡ n + length events)
        × (laws.taken w' ≡ laws.taken w ++ map (message_of topic) events)
  unfolding send_batch produce
  send_batch-taken topic [] n total w w' h =
      (ground arith, ap laws.taken (ground arith) ∙ sym (append-nil (laws.taken w)))
  send_batch-taken topic (event ∷ events) n total w w' h =
      elim (Exec-cases (produce k topic event.user_id (to_kafka_bytes k.pydantic event) w)) [
        | inl (u, v, e) ↦
            let (count, rest) = send_batch-taken topic events (n + 1) total v w' (ground arith) in
            let once = retry_takes_once 4 (message_of topic event) w v e in
            (
              omega (arith, count),
              rest
                  ∙ ap (λ ms. ms ++ map (message_of topic) events) once
                  ∙ append_assoc (laws.taken w) (message_of topic event ∷ [])
                      (map (message_of topic) events),
            )
        | inr (x, v, e) ↦ absurd (ground arith)
      ]

  -- how many events the batches have
  abbrev pub events_of : List (List (EcommerceEvent F)) → ℕ
  events_of [] = 0
  events_of (batch ∷ batches) = length batch + events_of batches

  -- If the loop returns after these batches, then every event of them is in the queue once, in
  -- order, behind what was there, and as many have been added to `total_sent`; the attempts that
  -- failed in between left nothing.
  pub send_batches-taken :
      (topic : String) (batches : List (List (EcommerceEvent F))) (n total : ℕ) (w w' : W)
      → send_batches k topic batches n w ≡ (ok total, w')
      → (total ≡ n + events_of batches) × (laws.taken w' ≡ laws.taken w ++ messages topic batches)
  unfolding send_batches
  send_batches-taken topic [] n total w w' h =
      (ground arith, ap laws.taken (ground arith) ∙ sym (append-nil (laws.taken w)))
  send_batches-taken topic (batch ∷ batches) n total w w' h =
      elim (Exec-cases (send_batch k topic batch n w)) [
        | inl (sent, v, e) ↦ elim (Exec-cases (k.poll v)) [
          | inl (p, v₁, e₁) ↦
              let (count, here) = send_batch-taken topic batch n sent w v e in
              let (count', rest) =
                send_batches-taken topic batches sent total (k.pause v₁) w' (ground arith) in
              (
                omega (arith, count, count'),
                rest
                    ∙ ap (λ ms. ms ++ messages topic batches)
                        (laws.pause_keeps v₁ ∙ laws.poll_keeps p v v₁ e₁ ∙ here)
                    ∙ append_assoc (laws.taken w) (map (message_of topic) batch)
                        (messages topic batches),
              )
          | inr (x, v₁, e₁) ↦ absurd (ground arith)
        ]
        | inr (x, v, e) ↦ absurd (ground arith)
      ]

  -- The client takes a message after exactly this many attempts that raise.
  abbrev pub TakenAfter : ℕ → Message → W → Type 0
  TakenAfter zero m w = (w' : W) × (k.enqueue m w ≡ (ok tt, w'))
  TakenAfter (suc n) m w =
      (e : Exn) × (v : W) × (k.enqueue m w ≡ (err e, v)) × TakenAfter n m (t.wait v)

  retry_first :
      (spare : ℕ) (m : Message) (w w' : W)
      → k.enqueue m w ≡ (ok tt, w')
      → t.retry (suc (zero + spare)) (λ e. true) true (k.enqueue m) w ≡ (ok tt, w')
  retry_first spare m w w' e =
      retries.retry_returns (zero + spare) (λ x. true) true (k.enqueue m) w w' tt e

  retry_recovers :
      (n spare : ℕ) (m : Message) (w : W)
      → TakenAfter n m w
      → (w' : W) × (t.retry (suc (n + spare)) (λ e. true) true (k.enqueue m) w ≡ (ok tt, w'))
  retry_recovers zero spare m w (w', e) = (w', retry_first spare m w w' e)
  retry_recovers (suc n) spare m w (x, v, e, later) =
      let (w', returned) = retry_recovers n spare m (t.wait v) later in
      let again = retries.retry_again (n + spare) (λ y. true) true (k.enqueue m) w v x e refl in
      let more : suc (n + spare) ≡ suc n + spare = omega arith in
      (
        w',
        subst (λ a. t.retry (suc a) (λ y. true) true (k.enqueue m) w ≡ (ok tt, w')) more
            (again ∙ returned),
      )

  -- A message that the client takes after at most four attempts that raise is produced: the call
  -- returns, and the message is in the queue once.
  pub produce_recovers :
      (n : ℕ) (topic key value : String) (w : W)
      → n ≤ 4
      → TakenAfter n (record { topic = topic; key = key; value = value }) w
      → (w' : W) × (produce k topic key value w ≡ (ok tt, w'))
        × (laws.taken w' ≡ laws.taken w ++ record { topic = topic; key = key; value = value } ∷ [])
  unfolding produce
  produce_recovers n topic key value w few later =
      let m : Message = record { topic = topic; key = key; value = value } in
      let (w', returned) = retry_recovers n (4 - n) m w later in
      let five : suc (n + (4 - n)) ≡ 5 = omega arith in
      let produced =
        subst (λ a. t.retry a (λ e. true) true (k.enqueue m) w ≡ (ok tt, w')) five returned in
      (w', produced, retry_takes_once 4 m w w' produced)
