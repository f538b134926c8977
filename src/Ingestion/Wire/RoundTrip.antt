-- ===== src/Ingestion/Wire/RoundTrip.antt =====
-- An event that is sent is read back.
use feature_store.Common.{◌≡◌, refl, String, true, any, str_eq}
use feature_store.Common.Exec.{ok}
use feature_store.Diagnostics.Schemas.{
  Value, number, text, array, object, Items, item, member, done,
}
use feature_store.Float.{Float, IsFinite}
use feature_store.Ingestion.EventGenerator.{EcommerceEvent}
use feature_store.Ingestion.Wire.{
  Pydantic, event_types, device_types, as_location, event_members, to_kafka_bytes, validate,
  from_kafka_bytes,
}

-- A float that is NaN or infinite is dumped as null, which JSON has for no number.
mutual
  pub IsJson : {F : Type 0} ⦃f : Float F⦄ → Value F → Type 0
  IsJson (number x) = IsFinite x
  IsJson (array items) = AreJson items
  IsJson (object items) = AreJson items
  IsJson _ = Unit

  pub AreJson : {F : Type 0} ⦃f : Float F⦄ → Items F → Type 0
  AreJson done = Unit
  AreJson (item v rest) = IsJson v × AreJson rest
  AreJson (member k v rest) = IsJson v × AreJson rest

-- What is documented of JSON and of pydantic: a value without such floats that was dumped is parsed
-- back, and so are a time in ISO 8601 and a float.
pub record PydanticLaws (F B : Type 0) (p : Pydantic F B) ⦃f : Float F⦄ : Type 0 where
  pub parse-dump : (v : Value F) → IsJson v → p.parse (p.dump v) ≡ ok v
  pub datetime-iso : (t : F) → p.as_datetime (text (p.iso t)) ≡ ok t
  pub float_number : (x : F) → p.as_float (number x) ≡ ok x

module _ {F B : Type 0} ⦃f : Float F⦄ {p : Pydantic F B} (laws : PydanticLaws F B p) where
  -- The bytes of an event whose type and device are among those of the class, and whose amount is
  -- neither NaN nor infinite, are read back as that event, with its own identifier.
  pub from_kafka_bytes-to_kafka_bytes :
      (fresh : String) (e : EcommerceEvent F)
      → any (str_eq e.event_type) event_types ≡ true
      → any (str_eq e.device_type) device_types ≡ true
      → IsFinite e.transaction_amount
      → from_kafka_bytes p fresh (to_kafka_bytes p e) ≡ ok e
  unfolding from_kafka_bytes to_kafka_bytes validate event_members as_location IsJson AreJson
  from_kafka_bytes-to_kafka_bytes fresh e t d finite =
      let fits : IsJson (object (event_members p e)) =
        (tt, (tt, (tt, (tt, (tt, (finite, (tt, (tt, ((tt, (tt, tt)), (tt, (tt, tt))))))))))) in
      rw (laws.parse-dump _ fits, laws.datetime-iso, laws.float_number, t, d) refl
