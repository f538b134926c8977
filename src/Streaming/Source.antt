-- ===== src/Streaming/Source.antt =====
-- streaming/feature_processor.py and offline_store/backfill.py: the schema of an event, and the
-- events of a job from the messages of the topic. `from_json` is Spark's; so are the reader of the
-- topic and the watermark, which drops no event before the aggregates.
pub mod Faithful
use feature_store.Common.{
  ℕ, String, Bool, true, false, Option, none, some, List, [], ◌∷◌, ◌&&◌, leb,
}
use feature_store.Common.Dict.{Dict, lookup}
use feature_store.Spark.{Spark}
use feature_store.Streaming.Events.{Event}

-- the types of the columns
mutual
  pub data SparkType : Type 0 where
    string_type double_type timestamp_type : SparkType
    struct_type : StructFields → SparkType

  pub data StructFields : Type 0 where
    no_fields : StructFields
    struct_field : String → SparkType → StructFields → StructFields

-- what a column holds
pub data Cell (F : Type 0) : Type 0 where
  null_cell : Cell F
  string_cell : String → Cell F
  double_cell : F → Cell F
  -- in microseconds since the epoch
  timestamp_cell : ℕ → Cell F
  struct_cell : Cell F

-- `EVENT_SCHEMA` of the streaming job
abbrev pub event_schema : Dict SparkType
event_schema =
    ("event_id", string_type)
    ∷ ("user_id", string_type)
    ∷ ("session_id", string_type)
    ∷ ("event_type", string_type)
    ∷ ("timestamp", timestamp_type)
    ∷ ("transaction_amount", double_type)
    ∷ ("product_id", string_type)
    ∷ ("category", string_type)
    ∷ (
      "location",
      struct_type (struct_field "country" string_type (struct_field "city" string_type no_fields)),
    )
    ∷ ("device_type", string_type)
    ∷ ("schema_version", string_type)
    ∷ []

-- `EVENT_SCHEMA` of the backfill
abbrev pub backfill_event_schema : Dict SparkType
backfill_event_schema =
    ("event_id", string_type)
    ∷ ("user_id", string_type)
    ∷ ("session_id", string_type)
    ∷ ("event_type", string_type)
    ∷ ("timestamp", timestamp_type)
    ∷ ("transaction_amount", double_type)
    ∷ ("product_id", string_type)
    ∷ ("category", string_type)
    ∷ ("device_type", string_type)
    ∷ ("schema_version", string_type)
    ∷ []

-- `F.from_json(F.col("value").cast(StringType()), schema)`, for messages of the type `B`: the cell
-- of each column
pub record FromJson (F B : Type 0) : Type 0 where
  pub from_json : Dict SparkType → B → String → Cell F

module _ {F : Type 0} where
  abbrev pub as_string : Cell F → Option String
  as_string c = elim c [ string_cell s ↦ some s | _ ↦ none ]

  abbrev pub as_double : Cell F → Option F
  as_double c = elim c [ double_cell x ↦ some x | _ ↦ none ]

  abbrev pub as_timestamp : Cell F → Option ℕ
  as_timestamp c = elim c [ timestamp_cell t ↦ some t | _ ↦ none ]

  -- The columns that the features read. A row without a user has no event.
  abbrev pub event_of_row : (String → Cell F) → Option (Event F)
  event_of_row row = elim (as_string (row "user_id")) [
    | none ↦ none
    | some user_id ↦ some (record {
      user_id = user_id;
      session_id = as_string (row "session_id");
      event_type = as_string (row "event_type");
      timestamp = as_timestamp (row "timestamp");
      transaction_amount = as_double (row "transaction_amount");
    })
  ]

  -- `F.col("user_id").isNotNull()`
  abbrev pub has_user : (String → Cell F) → Bool
  has_user row = elim (as_string (row "user_id")) [ none ↦ false | some _ ↦ true ]

  -- `F.col("timestamp").between(start_date, end_date)`, with both ends; null for a null
  abbrev pub in_period : ℕ → ℕ → (String → Cell F) → Bool
  in_period start end row = elim (as_timestamp (row "timestamp")) [
    | none ↦ false
    | some t ↦ leb start t && leb t end
  ]

  -- the row of an event that has a user, as an event
  abbrev pub known_user : (String → Cell F) → Event F
  known_user row = elim (event_of_row row) [
    | none ↦ record {
      user_id = "";
      session_id = none;
      event_type = none;
      timestamp = none;
      transaction_amount = none;
    }
    | some e ↦ e
  ]

module _ {F B : Type 0} (s : Spark F) (j : FromJson F B) where
  -- the streaming job's: `select(from_json(...)).select("data.*").filter(user_id is not null)`
  unfoldable pub events_df : s.DataFrame B → s.DataFrame (Event F)
  events_df raw = s.select known_user (s.where_ has_user (s.select (j.from_json event_schema) raw))

  -- the backfill's, which has another schema and keeps the events of a period
  unfoldable pub backfill_events_df : ℕ → ℕ → s.DataFrame B → s.DataFrame (Event F)
  backfill_events_df start end raw = s.select known_user (
      s.where_ (λ row. has_user row && in_period start end row)
        (s.select (j.from_json backfill_event_schema) raw))
