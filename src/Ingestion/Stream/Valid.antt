-- ===== src/Ingestion/Stream/Valid.antt =====
-- What the batches of the stream hold.
use mathlib.Core.Path.{subst}
use feature_store.Common.{
  ℕ, zero, suc, min, max, ◌≤◌, ◌≡◌, refl, ap, sym, ◌∙◌, ◌⋅◌, arith, String, true, List, [], ◌∷◌,
  All, any, length, length-map, map, str_eq, is_empty, false, Bool-cases, inl, inr, eq_iff,
}
use feature_store.Common.Dict.{Dict, lookup, get_or}
use feature_store.Common.Exec.{ok}
use feature_store.Float.{Float, OrderLaws, ArithLaws, FiniteLaws}
use feature_store.Tenacity.{Clock}
use feature_store.Ingestion.EventGenerator.{
  Location, EcommerceEvent, cities_by_country, countries, Draws, random_location, Slot, session_of,
  event_of, next_batch,
}
use feature_store.Ingestion.EventGenerator.Amounts.{IsPriced, event_of-IsPriced, event_of_finite}
use feature_store.Ingestion.Stream.{BatchDraws, user_of, zip_slots, draw_slots, first_batches}
use feature_store.Ingestion.Wire.{
  Pydantic, event_types, device_types, to_kafka_bytes, from_kafka_bytes,
}
use feature_store.Ingestion.Wire.RoundTrip.{PydanticLaws, from_kafka_bytes-to_kafka_bytes}

abbrev pub IsEventType : String → Type 0
IsEventType t = any (str_eq t) event_types ≡ true

abbrev pub IsDeviceType : String → Type 0
IsDeviceType d = any (str_eq d) device_types ≡ true

-- What is documented of the draws: as many as asked for, each from the list to choose from.
pub record BatchLaws (W : Type 0) (b : BatchDraws W) : Type 0 where
  pub zipf_count : (n : ℕ) (w : W) → length (b.zipf n w).0 ≡ n
  pub types_count : (n : ℕ) (w : W) → length (b.event_types n w).0 ≡ n
  pub devices_count : (n : ℕ) (w : W) → length (b.device_types n w).0 ≡ n
  pub categories_count : (n : ℕ) (w : W) → length (b.categories n w).0 ≡ n
  pub types_drawn : (n : ℕ) (w : W) → All IsEventType (b.event_types n w).0
  pub devices_drawn : (n : ℕ) (w : W) → All IsDeviceType (b.device_types n w).0

-- `random.choice(xs)` is one of `xs`, unless there is none.
pub record ChoiceLaws (W F : Type 0) (x : Draws W F) : Type 0 where
  pub choice_drawn :
      (xs : List String) (w : W) → is_empty xs ≡ false → any (str_eq (x.choice xs w).0) xs ≡ true

-- A user of the pool has a number from one up to the number of users.
pub IsUser : {W : Type 0} → BatchDraws W → ℕ → String → Type 0
IsUser b num_users u = (k : ℕ) × (1 ≤ k) × (k ≤ num_users) × (u ≡ "usr_" ⋅ b.pad k)

abbrev pub IsDrawn : {W : Type 0} → BatchDraws W → ℕ → Slot → Type 0
IsDrawn b num_users slot =
    IsUser b num_users slot.user_id × IsEventType slot.event_type × IsDeviceType slot.device_type

-- A city of its country.
abbrev pub IsPlace : Location → Type 0
IsPlace l = any (str_eq l.city) (get_or l.country [] cities_by_country) ≡ true

-- An event of a user of the pool, priced only if it is a purchase, at a city of its country, that
-- is read back from its bytes as it is.
pub IsGenerated :
    {W F B : Type 0} ⦃f : Float F⦄ → BatchDraws W → Pydantic F B → ℕ → EcommerceEvent F → Type 0
IsGenerated b p num_users e =
    IsUser b num_users e.user_id
    × IsPriced e
    × IsPlace e.location
    × ((fresh : String) → from_kafka_bytes p fresh (to_kafka_bytes p e) ≡ ok e)

module _ {W : Type 0} (b : BatchDraws W) where
  pool_users :
      (num_users : ℕ) (ranks : List ℕ)
      → 1 ≤ num_users
      → All (IsUser b num_users) (map (user_of b num_users) ranks)
  unfolding IsUser
  pool_users num_users [] h = tt
  pool_users num_users (r ∷ ranks) h =
      ((min (max r 1) num_users, omega arith, omega arith, refl), pool_users num_users ranks h)

  zip_slots_lem :
      (num_users : ℕ) (us ts ds cs : List String)
      → length ts ≡ length us
      → length ds ≡ length us
      → length cs ≡ length us
      → All (IsUser b num_users) us
      → All IsEventType ts
      → All IsDeviceType ds
      → (length (zip_slots b us ts ds cs) ≡ length us)
        × All (IsDrawn b num_users) (zip_slots b us ts ds cs)
  zip_slots_lem num_users [] ts ds cs _ _ _ _ _ _ = (refl, tt)
  zip_slots_lem num_users (u ∷ us) (t ∷ ts) (d ∷ ds) (c ∷ cs) ht hd hc (pu, pus) (pt, pts)
        (pd, pds) =
      let (n, rest) =
        zip_slots_lem num_users us ts ds cs (omega (arith, ht)) (omega (arith, hd))
          (omega (arith, hc)) pus pts pds in
      (ap suc n, ((pu, pt, pd), rest))
  zip_slots_lem num_users (u ∷ us) [] ds cs ht _ _ _ _ _ = absurd (omega (arith, ht))
  zip_slots_lem num_users (u ∷ us) (t ∷ ts) [] cs _ hd _ _ _ _ = absurd (omega (arith, hd))
  zip_slots_lem num_users (u ∷ us) (t ∷ ts) (d ∷ ds) [] _ _ hc _ _ _ = absurd (omega (arith, hc))

  draw_slots_lem :
      (laws : BatchLaws W b) (batch_size num_users : ℕ) (w : W)
      → 1 ≤ num_users
      → let slots = (draw_slots b batch_size num_users w).0 in
        (length slots ≡ batch_size) × All (IsDrawn b num_users) slots
  draw_slots_lem laws batch_size num_users w h =
      let (ranks, w₁) = b.zipf batch_size w in
      let (types, w₂) = b.event_types batch_size w₁ in
      let (devices, w₃) = b.device_types batch_size w₂ in
      let (categories, w₄) = b.categories batch_size w₃ in
      let users = map (user_of b num_users) ranks in
      let as_many : length users ≡ batch_size =
        length-map (user_of b num_users) ranks ∙ laws.zipf_count batch_size w in
      let (n, drawn) =
        zip_slots_lem num_users users types devices categories
          (laws.types_count batch_size w₁ ∙ sym as_many)
          (laws.devices_count batch_size w₂ ∙ sym as_many)
          (laws.categories_count batch_size w₃ ∙ sym as_many) (pool_users num_users ranks h)
          (laws.types_drawn batch_size w₁) (laws.devices_drawn batch_size w₂) in
      (n ∙ as_many, drawn)

-- What holds of every name in a list holds of a name that is in it.
holds_of :
    (P : String → Type 0) (k : String) (ks : List String)
    → All P ks
    → any (str_eq k) ks ≡ true
    → P k
holds_of P k [] _ h = absurd (ground (arith, h))
holds_of P k (j ∷ ks) (pj, pks) h = elim (Bool-cases (str_eq k j)) [
  | inl same ↦ let e : j ≡ k = ground (arith, eq_iff k j, same) in subst P e pj
  | inr other ↦ holds_of P k ks pks (ground (arith, h, other))
]

module _ {W F : Type 0} ⦃f : Float F⦄ (x : Draws W F) (choices : ChoiceLaws W F x) where
  random_location-IsPlace : (w : W) → IsPlace (random_location x w).0
  unfolding random_location lookup
  random_location-IsPlace w =
      let (country, w₁) = x.choice countries w in
      choices.choice_drawn (get_or country [] cities_by_country) w₁ (
        holds_of (λ k. is_empty (get_or k [] cities_by_country) ≡ false) country countries
          (refl, (refl, (refl, (refl, (refl, tt))))) (choices.choice_drawn countries w refl))

module _ {W F B : Type 0} ⦃f : Float F⦄ ⦃c : Clock W F⦄ (b : BatchDraws W) (x : Draws W F)
    (choices : ChoiceLaws W F x) (order : OrderLaws F) (arithmetic : ArithLaws F)
    (finite : FiniteLaws F) {p : Pydantic F B} (wire : PydanticLaws F B p) where
  event_of-IsGenerated :
      (num_users : ℕ) (slot : Slot) (session : String) (w : W)
      → IsDrawn b num_users slot
      → IsGenerated b p num_users (event_of x slot session w).0
  unfolding IsGenerated event_of
  event_of-IsGenerated num_users slot session w (user, type_ok, device_ok) = (
    user,
    event_of-IsPriced x slot session w,
    random_location-IsPlace x choices _,
    λ fresh.
        from_kafka_bytes-to_kafka_bytes wire fresh (event_of x slot session w).0 type_ok device_ok
          (event_of_finite x order arithmetic finite slot session w),
  )

  next_batch-IsGenerated :
      (num_users : ℕ) (slots : List Slot) (m : Dict String) (w : W)
      → All (IsDrawn b num_users) slots
      → let events = (next_batch x slots m w).0.0 in
        (length events ≡ length slots) × All (IsGenerated b p num_users) events
  unfolding next_batch
  next_batch-IsGenerated num_users [] m w _ = (refl, tt)
  next_batch-IsGenerated num_users (slot ∷ slots) m w (drawn, rest) =
      let s₁ = session_of x m slot.user_id w in
      let session = get_or slot.user_id "" s₁.0 in
      let e = event_of x slot session s₁.1 in
      let (n, others) = next_batch-IsGenerated num_users slots s₁.0 e.1 rest in
      (ap suc n, (event_of-IsGenerated num_users slot session s₁.1 drawn, others))

  -- Each of the first batches of the stream, however many, has as many events as it is to have.
  -- Each event is of a user with a number from one up to the number of users, has an amount only
  -- if it is a purchase, is at a city of its country, and is read back from its bytes as the same
  -- event.
  pub first_batches-IsGenerated :
      (laws : BatchLaws W b) (n batch_size num_users : ℕ) (m : Dict String) (w : W)
      → 1 ≤ num_users
      → All {A = List (EcommerceEvent F)}
          (λ events. (length events ≡ batch_size) × All (IsGenerated b p num_users) events)
          (first_batches b x n batch_size num_users m w).0
  first_batches-IsGenerated laws zero batch_size num_users m w h = tt
  first_batches-IsGenerated laws (suc n) batch_size num_users m w h =
      let (size, drawn) = draw_slots_lem b laws batch_size num_users w h in
      let (slots, w₁) = draw_slots b batch_size num_users w in
      let (k, events) = next_batch-IsGenerated num_users slots m w₁ drawn in
      ((k ∙ size, events), first_batches-IsGenerated laws n batch_size num_users _ _ h)
