-- ===== src/Examples/Wire.antt =====
-- Examples for the messages between the generator and the jobs, with JSON values as the messages.
use feature_store.Common.{◌≡◌, refl, arith, String, none, some, Option, List, map, filter, All}
use feature_store.Common.Dict.{Dict, lookup}
use feature_store.Common.Exec.{Result, ok, err, value_error}
use feature_store.Float.Fixed.{Fixed, fixed_float, Fixed-TextLaws}
use feature_store.Float.Int.{◌-ℤ◌}
use feature_store.Diagnostics.Schemas.{Value, text, number, object}
use feature_store.Ingestion.Wire.{Pydantic, member_of, to_kafka_bytes, from_kafka_bytes}
use feature_store.Ingestion.Wire.RoundTrip.{PydanticLaws, from_kafka_bytes-to_kafka_bytes}
use feature_store.Spark.Rows.{SameRows, same_rows}
use feature_store.Spark.Memory.{memory-SparkLaws}
use feature_store.Streaming.Source.{
  SparkType, string_type, double_type, timestamp_type, Cell, null_cell, string_cell, double_cell,
  timestamp_cell, FromJson, events_df, backfill_events_df,
}
use feature_store.Streaming.Source.Faithful.{
  FromJsonLaws, received, sent_within, HasAmount, events_df-to_kafka_bytes,
}
use feature_store.Examples.Ingestion.{event_named, some_events}
use feature_store.Examples.Streaming.{spark, laws}

abbrev time_of : Value Fixed → Result Fixed
time_of (text s) = elim (fixed_float.parse s) [ none ↦ err value_error | some t ↦ ok t ]
time_of _ = err value_error

abbrev float_of : Value Fixed → Result Fixed
float_of (number x) = ok x
float_of _ = err value_error

abbrev pub plain : Pydantic Fixed (Value Fixed)
plain = record {
  dump = λ v. v;
  parse = λ v. ok v;
  iso = fixed_float.str;
  as_datetime = time_of;
  as_float = float_of;
}

pub plain-PydanticLaws : PydanticLaws Fixed (Value Fixed) plain
plain-PydanticLaws = record {
  parse-dump = λ v fits. refl;
  datetime-iso = λ t. ground (arith, Fixed-TextLaws.parse-str t);
  float_number = λ x. refl;
}

abbrev cell_of : SparkType → Option (Value Fixed) → Cell Fixed
cell_of string_type (some (text s)) = string_cell s
cell_of double_type (some (number x)) = double_cell x
cell_of timestamp_type (some (text s)) = elim (fixed_float.parse s) [
  | none ↦ null_cell
  | some t ↦ timestamp_cell (fixed_float.trunc t)
]
cell_of _ _ = null_cell

abbrev cells : Dict SparkType → Value Fixed → String → Cell Fixed
cells schema (object items) k = elim (lookup k schema) [
  | none ↦ null_cell
  | some t ↦ cell_of t (member_of k items)
]
cells schema _ k = null_cell

abbrev plain_json : FromJson Fixed (Value Fixed)
plain_json = record { from_json = cells }

plain-FromJsonLaws : FromJsonLaws Fixed (Value Fixed) plain plain_json
plain-FromJsonLaws = record {
  micros = fixed_float.trunc;
  string_column = λ schema items k v h i. ground arith;
  double_column = λ schema items k x h i finite. ground arith;
  timestamp_column = λ schema items k t h i. ground (arith, Fixed-TextLaws.parse-str t);
}

from_kafka_bytes-to_kafka_bytes_example :
    from_kafka_bytes plain "fresh" (to_kafka_bytes plain (event_named "e1")) ≡ ok (event_named "e1")
unfolding ◌-ℤ◌
from_kafka_bytes-to_kafka_bytes_example =
    from_kafka_bytes-to_kafka_bytes plain-PydanticLaws "fresh" (event_named "e1") refl refl
      (refl, refl)

abbrev messages : List (Value Fixed)
messages = map (to_kafka_bytes plain) some_events

-- the amounts are zero
finite : All (HasAmount {p = plain} plain-FromJsonLaws) some_events
unfolding ◌-ℤ◌
finite = ((refl, refl), ((refl, refl), tt))

events_df-to_kafka_bytes_example :
    SameRows
      (laws.rows (events_df spark plain_json messages))
      (map (received plain-FromJsonLaws) some_events)
    × SameRows (laws.rows (backfill_events_df spark plain_json 0 5 messages)) (
        map (received plain-FromJsonLaws) (filter (sent_within plain-FromJsonLaws 0 5) some_events))
unfolding memory-SparkLaws
events_df-to_kafka_bytes_example =
    events_df-to_kafka_bytes plain-FromJsonLaws laws some_events messages 0 5 finite
      (same_rows messages)
