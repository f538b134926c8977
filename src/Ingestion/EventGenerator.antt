-- ===== src/Ingestion/EventGenerator.antt =====
-- ingestion/event_generator.py and ingestion/schemas.py. The random generators, with the uuids,
-- are an interface.
pub mod Amounts
use feature_store.Common.{
  ℕ, String, Bool, true, false, not, ◌⋅◌, List, [], ◌∷◌, map, str_eq, if◌then◌else◌,
}
use feature_store.Common.Dict.{Dict, lookup, insert, contains, get_or}
use feature_store.Float.{Float, nought, fmin, fmax}
use feature_store.Tenacity.{Clock}

pub record Location : Type 0 where
  pub country : String
  pub city : String

pub record EcommerceEvent (F : Type 0) : Type 0 where
  pub event_id : String
  pub user_id : String
  pub session_id : String
  pub event_type : String
  pub timestamp : F
  pub transaction_amount : F
  pub product_id : String
  pub category : String
  pub location : Location
  pub device_type : String
  pub schema_version : String

-- `_CITIES_BY_COUNTRY`, and its keys
abbrev pub cities_by_country : Dict (List String)
cities_by_country =
    ("US", "New York" ∷ "Los Angeles" ∷ "Chicago" ∷ "Austin" ∷ "Seattle" ∷ [])
    ∷ ("UK", "London" ∷ "Manchester" ∷ "Birmingham" ∷ [])
    ∷ ("DE", "Berlin" ∷ "Munich" ∷ "Hamburg" ∷ [])
    ∷ ("IN", "Mumbai" ∷ "Bangalore" ∷ "Delhi" ∷ [])
    ∷ ("BR", "São Paulo" ∷ "Rio de Janeiro" ∷ [])
    ∷ []

abbrev pub countries : List String
countries = map (λ e. e.0) cities_by_country

-- What the generator draws, each from the world that it leaves changed.
pub record Draws (W F : Type 0) : Type 0 where
  -- `random.random()`
  pub random : W → F × W
  -- `float(np.exp(_rng.normal(loc=3.7, scale=1.2)))`
  pub log_normal : W → F × W
  -- `uuid.uuid4().hex[:12]`, and a whole `str(uuid.uuid4())`
  pub hex_id : W → String × W
  pub uuid : W → String × W
  -- `f"prod_{random.randint(1, 5000):05d}"`
  pub product : W → String × W
  -- `random.choice(xs)`
  pub choice : List String → W → String × W

-- a user of the batch, with the event type, device type and category drawn for it
pub record Slot : Type 0 where
  pub user_id : String
  pub event_type : String
  pub device_type : String
  pub category : String

module _ {W F : Type 0} ⦃f : Float F⦄ (x : Draws W F) where
  unfoldable pub random_amount : String → Bool → W → F × W
  random_amount event_type is_fraud w =
      if not (str_eq event_type "purchase")
      then (nought, w)
      else (let (drawn, w₁) = x.log_normal w in
          let amount = f.round (fmax (f.lit 10 1) (fmin drawn (f.lit 20_000 1))) 2 in
          ((if is_fraud then f.round (f.mul amount (f.lit 100 1)) 2 else amount), w₁))

  -- A country that is drawn is a key of the dict, so that the look-up does not raise.
  unfoldable pub random_location : W → Location × W
  random_location w =
      let (country, w₁) = x.choice countries w in
      let (city, w₂) = x.choice (get_or country [] cities_by_country) w₁ in
      (record { country = country; city = city }, w₂)

  abbrev pub generate_session_id : W → String × W
  generate_session_id w = let (hex, w₁) = x.hex_id w in ("ses_" ⋅ hex, w₁)

  -- `user_id not in session_map or random.random() < 0.05`: the second draw only where the
  -- first test fails
  abbrev pub wants_session : Dict String → String → W → Bool × W
  wants_session session_map user_id w =
      if not (contains user_id session_map)
      then (true, w)
      else (let (u, w₁) = x.random w in (f.lt u (f.lit 5 2), w₁))

  -- `event_type == "purchase" and random.random() < 0.02`
  abbrev pub draw_fraud : String → W → Bool × W
  draw_fraud event_type w =
      if str_eq event_type "purchase"
      then (let (u, w₁) = x.random w in (f.lt u (f.lit 2 2), w₁))
      else (false, w)

  -- the session of a user, and the map with it
  unfoldable pub session_of : Dict String → String → W → Dict String × W
  session_of session_map user_id w =
      let (wanted, w₁) = wants_session session_map user_id w in
      if wanted
      then (let (session, w₂) = generate_session_id w₁ in (insert user_id session session_map, w₂))
      else (session_map, w₁)

  module _ ⦃c : Clock W F⦄ where
    -- the event of one slot, whose fields are drawn in the order of the code, and the id last
    unfoldable pub event_of : Slot → String → W → EcommerceEvent F × W
    event_of slot session_id w =
        let (is_fraud, w₁) = draw_fraud slot.event_type w in
        let (amount, w₂) = random_amount slot.event_type is_fraud w₁ in
        let (product, w₃) = x.product w₂ in
        let (location, w₄) = random_location w₃ in
        let (event_id, w₅) = x.uuid w₄ in
        (
          record {
            event_id = event_id;
            user_id = slot.user_id;
            session_id = session_id;
            event_type = slot.event_type;
            timestamp = c.time w₁;
            transaction_amount = amount;
            product_id = product;
            category = slot.category;
            location = location;
            device_type = slot.device_type;
            schema_version = "1.0";
          },
          w₅,
        )

    -- one batch: the loop over the slots, with the map of sessions
    unfoldable pub next_batch :
        List Slot → Dict String → W → (List (EcommerceEvent F) × Dict String) × W
    next_batch [] session_map w = (([], session_map), w)
    next_batch (slot ∷ slots) session_map w =
        let (sessions, w₁) = session_of session_map slot.user_id w in
        let (event, w₂) = event_of slot (get_or slot.user_id "" sessions) w₁ in
        let ((events, last), w₃) = next_batch slots sessions w₂ in ((event ∷ events, last), w₃)
