-- ===== src/Ingestion/Wire.antt =====
-- ingestion/schemas.py: an event as the bytes of a message, and back. JSON and pydantic's checks
-- of numbers and times are interfaces.
pub mod RoundTrip
use feature_store.Common.{
  String, Bool, true, false, Option, none, some, List, [], ◌∷◌, any, str_eq, if◌then◌else◌,
}
use feature_store.Common.Exec.{Result, ok, err, value_error}
use feature_store.Common.Fallible.{◌>>=◌}
use feature_store.Diagnostics.Schemas.{Value, Items, number, text, object, member, item, done}
use feature_store.Ingestion.EventGenerator.{Location, EcommerceEvent}

-- The bytes of a message are of the type `B`.
pub record Pydantic (F B : Type 0) : Type 0 where
  -- the bytes of a JSON value, and the value of such bytes
  pub dump : Value F → B
  pub parse : B → Result (Value F)
  -- the text of a time
  pub iso : F → String
  -- the check of a field that is a time, or a float
  pub as_datetime : Value F → Result F
  pub as_float : Value F → Result F

abbrev pub event_types : List String
event_types = "page_view" ∷ "add_to_cart" ∷ "purchase" ∷ "search" ∷ "abandon" ∷ []

abbrev pub device_types : List String
device_types = "mobile" ∷ "desktop" ∷ "tablet" ∷ []

module _ {F : Type 0} where
  abbrev pub member_of : String → Items F → Option (Value F)
  member_of k done = none
  member_of k (item v rest) = member_of k rest
  member_of k (member j v rest) = if str_eq j k then some v else member_of k rest

  -- a field with no default
  abbrev pub required : String → Items F → Result (Value F)
  required k items = elim (member_of k items) [ none ↦ err value_error | some v ↦ ok v ]

  abbrev pub as_string : Value F → Result String
  as_string v = elim v [ text s ↦ ok s | _ ↦ err value_error ]

  -- `Literal[...]`
  abbrev pub one_of : List String → Value F → Result String
  one_of ss v = elim v [
    | text s ↦ if any (str_eq s) ss then ok s else err value_error
    | _ ↦ err value_error
  ]

  -- a text field with a default
  abbrev pub string_or : String → Option (Value F) → Result String
  string_or default none = ok default
  string_or default (some v) = as_string v

  abbrev pub as_object : Value F → Result (Items F)
  as_object v = elim v [ object items ↦ ok items | _ ↦ err value_error ]

  pub as_location : Value F → Result Location
  as_location v = do
    items ← as_object v
    country_value ← required "country" items
    country ← as_string country_value
    city_value ← required "city" items
    city ← as_string city_value
    ok (record { country = country; city = city })

module _ {F B : Type 0} (p : Pydantic F B) where
  -- the fields in the order of the class
  unfoldable pub event_members : EcommerceEvent F → Items F
  event_members e = member "event_id" (text e.event_id) (
      member "user_id" (text e.user_id) (
        member "session_id" (text e.session_id) (
          member "event_type" (text e.event_type) (
            member "timestamp" (text (p.iso e.timestamp)) (
              member "transaction_amount" (number e.transaction_amount) (
                member "product_id" (text e.product_id) (
                  member "category" (text e.category) (
                    member "location"
                      (object (
                        member "country" (text e.location.country)
                          (member "city" (text e.location.city) done)))
                      (member "device_type" (text e.device_type)
                        (member "schema_version" (text e.schema_version) done))))))))))

  -- `to_kafka_bytes`
  unfoldable pub to_kafka_bytes : EcommerceEvent F → B
  to_kafka_bytes e = p.dump (object (event_members e))

  -- the checks of the class, with `fresh` for the identifier that an event without one gets
  pub validate : String → Items F → Result (EcommerceEvent F)
  validate fresh items = do
    event_id ← string_or fresh (member_of "event_id" items)
    user_value ← required "user_id" items
    user_id ← as_string user_value
    session_value ← required "session_id" items
    session_id ← as_string session_value
    type_value ← required "event_type" items
    event_type ← one_of event_types type_value
    time_value ← required "timestamp" items
    timestamp ← p.as_datetime time_value
    amount_value ← required "transaction_amount" items
    transaction_amount ← p.as_float amount_value
    product_value ← required "product_id" items
    product_id ← as_string product_value
    category_value ← required "category" items
    category ← as_string category_value
    location_value ← required "location" items
    location ← as_location location_value
    device_value ← required "device_type" items
    device_type ← one_of device_types device_value
    schema_version ← string_or "1.0" (member_of "schema_version" items)
    ok (record {
      event_id = event_id;
      user_id = user_id;
      session_id = session_id;
      event_type = event_type;
      timestamp = timestamp;
      transaction_amount = transaction_amount;
      product_id = product_id;
      category = category;
      location = location;
      device_type = device_type;
      schema_version = schema_version;
    })

  -- `from_kafka_bytes`
  pub from_kafka_bytes : String → B → Result (EcommerceEvent F)
  from_kafka_bytes fresh bytes = do
    value ← p.parse bytes
    items ← as_object value
    validate fresh items
