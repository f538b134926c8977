-- ===== src/Streaming/Source/Faithful.antt =====
-- The events that the generator sends, and those that the jobs read.
use mathlib.Core.Path.{subst}
use feature_store.Common.{
  ℕ, ◌≡◌, refl, arith, String, Bool, true, some, List, [], ◌∷◌, ◌&&◌, leb, map, filter, All,
  Bool-cases, inl, inr,
}
use feature_store.Common.Dict.{Dict, lookup}
use feature_store.Float.{Float, IsFinite}
use feature_store.Spark.{Spark, SparkLaws}
use feature_store.Spark.Rows.{SameRows, chain_rows, SameRows-map, SameRows-filter}
use feature_store.Diagnostics.Schemas.{Items, number, text, object}
use feature_store.Ingestion.EventGenerator.{EcommerceEvent}
use feature_store.Ingestion.Wire.{Pydantic, member_of, event_members, to_kafka_bytes}
use feature_store.Streaming.Events.{Event}
use feature_store.Streaming.Source.{
  SparkType, string_type, double_type, timestamp_type, string_cell, double_cell, timestamp_cell,
  event_schema, backfill_event_schema, FromJson, Cell, has_user, in_period, known_user, events_df,
  backfill_events_df,
}

-- What Spark documents of `from_json` for the bytes of an object: a column of the schema has the
-- member of its name, if that is of its type; a time is read from ISO 8601, and `micros` is what it
-- is in microseconds. A float that is NaN or infinite is no number in the bytes.
pub record FromJsonLaws (F B : Type 0) (p : Pydantic F B) (j : FromJson F B) ⦃f : Float F⦄
    : Type 0 where
  pub micros : F → ℕ
  pub string_column :
      (schema : Dict SparkType) (items : Items F) (k v : String)
      → lookup k schema ≡ some string_type
      → member_of k items ≡ some (text v)
      → j.from_json schema (p.dump (object items)) k ≡ string_cell v
  pub double_column :
      (schema : Dict SparkType) (items : Items F) (k : String) (x : F)
      → lookup k schema ≡ some double_type
      → member_of k items ≡ some (number x)
      → IsFinite x
      → j.from_json schema (p.dump (object items)) k ≡ double_cell x
  pub timestamp_column :
      (schema : Dict SparkType) (items : Items F) (k : String) (t : F)
      → lookup k schema ≡ some timestamp_type
      → member_of k items ≡ some (text (p.iso t))
      → j.from_json schema (p.dump (object items)) k ≡ timestamp_cell (micros t)

-- A schema with the columns that the features read.
pub record HasColumns (schema : Dict SparkType) : Type 0 where
  pub user_id : lookup "user_id" schema ≡ some string_type
  pub session_id : lookup "session_id" schema ≡ some string_type
  pub event_type : lookup "event_type" schema ≡ some string_type
  pub timestamp : lookup "timestamp" schema ≡ some timestamp_type
  pub transaction_amount : lookup "transaction_amount" schema ≡ some double_type

event_schema-HasColumns : HasColumns event_schema
unfolding lookup
event_schema-HasColumns = record {
  user_id = refl;
  session_id = refl;
  event_type = refl;
  timestamp = refl;
  transaction_amount = refl;
}

backfill_event_schema-HasColumns : HasColumns backfill_event_schema
unfolding lookup
backfill_event_schema-HasColumns = record {
  user_id = refl;
  session_id = refl;
  event_type = refl;
  timestamp = refl;
  transaction_amount = refl;
}

module _ {F B : Type 0} ⦃f : Float F⦄ {p : Pydantic F B} {j : FromJson F B}
    (laws : FromJsonLaws F B p j) where
  -- an event of the generator, as the jobs have it
  abbrev pub received : EcommerceEvent F → Event F
  received e = record {
    user_id = e.user_id;
    session_id = some e.session_id;
    event_type = some e.event_type;
    timestamp = some (laws.micros e.timestamp);
    transaction_amount = some e.transaction_amount;
  }

  abbrev pub sent_within : ℕ → ℕ → EcommerceEvent F → Bool
  sent_within start end e = leb start (laws.micros e.timestamp) && leb (laws.micros e.timestamp) end

  abbrev pub HasAmount : EcommerceEvent F → Type 0
  HasAmount e = IsFinite e.transaction_amount

  module _ (schema : Dict SparkType) (columns : HasColumns schema) where
    abbrev row_of : EcommerceEvent F → String → Cell F
    row_of e = j.from_json schema (to_kafka_bytes p e)

    row_received :
        (e : EcommerceEvent F) (start end : ℕ)
        → HasAmount e
        → (has_user (row_of e) ≡ true)
          × (in_period start end (row_of e) ≡ sent_within start end e)
          × (known_user (row_of e) ≡ received e)
    unfolding to_kafka_bytes event_members
    row_received e start end finite =
        let items = event_members p e in
        let a = laws.string_column schema items "user_id" e.user_id columns.user_id refl in
        let b = laws.string_column schema items "session_id" e.session_id columns.session_id refl in
        let c = laws.string_column schema items "event_type" e.event_type columns.event_type refl in
        let d = laws.timestamp_column schema items "timestamp" e.timestamp columns.timestamp refl in
        let g =
          laws.double_column schema items "transaction_amount" e.transaction_amount
            columns.transaction_amount refl finite in
        (ground (arith, a), ground (arith, d), ground (arith, a, b, c, d, g))

    rows_received :
        (es : List (EcommerceEvent F))
        → All HasAmount es
        → map known_user (filter has_user (map (j.from_json schema) (map (to_kafka_bytes p) es)))
          ≡ map received es
    rows_received [] _ = refl
    rows_received (e ∷ es) (finite, rest) =
        let (kept, _, same) = row_received e 0 0 finite in
        ground (arith, kept, same, rows_received es rest)

    rows_within :
        (es : List (EcommerceEvent F)) (start end : ℕ)
        → All HasAmount es
        → map known_user (
            filter
              (λ row. has_user row && in_period start end row)
              (map (j.from_json schema) (map (to_kafka_bytes p) es)))
          ≡ map received (filter (sent_within start end) es)
    rows_within [] start end _ = refl
    rows_within (e ∷ es) start end (finite, rest) =
        let (kept, period, same) = row_received e start end finite in
        let others = rows_within es start end rest in
        elim (Bool-cases (sent_within start end e)) [
          | inl b ↦ ground (arith, kept, period, same, others, b)
          | inr b ↦ ground (arith, kept, period, same, others, b)
        ]

    -- The frame of a test, from the messages of some events.
    tested :
        {s : Spark F} (l : SparkLaws F s) (test : (String → Cell F) → Bool)
        (es : List (EcommerceEvent F)) (raw : s.DataFrame B)
        → SameRows (l.rows raw) (map (to_kafka_bytes p) es)
        → SameRows
            (l.rows (s.select known_user (s.where_ test (s.select (j.from_json schema) raw))))
            (map known_user (filter test (map (j.from_json schema) (map (to_kafka_bytes p) es))))
    tested {s} l test es raw sent =
        let parsed = s.select (j.from_json schema) raw in
        let kept = s.where_ test parsed in
        let read = chain_rows (l.select_lem (j.from_json schema) raw) (SameRows-map _ sent) in
        let passed = chain_rows (l.where_lem test parsed) (SameRows-filter test read) in
        chain_rows (l.select_lem known_user kept) (SameRows-map known_user passed)

module _ {F B : Type 0} ⦃f : Float F⦄ {p : Pydantic F B} {j : FromJson F B}
    (laws : FromJsonLaws F B p j) {s : Spark F} (l : SparkLaws F s) where
  -- If the topic has the messages of some events of the generator, whose amounts are neither NaN
  -- nor infinite, then the streaming job reads these events, each as often, and the backfill of a
  -- period, which has another schema, reads those of them whose time lies between its two ends,
  -- each as often. The user, the session, the type, the time and the amount are those that were
  -- sent.
  pub events_df-to_kafka_bytes :
      (es : List (EcommerceEvent F)) (raw : s.DataFrame B) (start end : ℕ)
      → All (HasAmount {p = p} laws) es
      → SameRows (l.rows raw) (map (to_kafka_bytes p) es)
      → SameRows (l.rows (events_df s j raw)) (map (received laws) es)
        × SameRows
            (l.rows (backfill_events_df s j start end raw))
            (map (received laws) (filter (sent_within laws start end) es))
  unfolding events_df backfill_events_df
  events_df-to_kafka_bytes es raw start end finite sent = (
    subst (SameRows _) (rows_received laws event_schema event_schema-HasColumns es finite)
        (tested laws event_schema event_schema-HasColumns l has_user es raw sent),
    subst (SameRows _)
        (rows_within laws backfill_event_schema backfill_event_schema-HasColumns es start end
          finite)
        (tested laws backfill_event_schema backfill_event_schema-HasColumns l
          (λ row. has_user row && in_period start end row) es raw sent),
  )
