-- ===== src/Ingestion/Stream.antt =====
-- ingestion/event_generator.py: the users and the choices of a batch, and the batches one after
-- the other. The stream has no end: `event_stream` is modelled by its first `n` batches.
pub mod Valid
use feature_store.Common.{ℕ, zero, suc, min, max, ◌⋅◌, String, List, [], ◌∷◌, map}
use feature_store.Common.Dict.{Dict}
use feature_store.Float.{Float}
use feature_store.Tenacity.{Clock}
use feature_store.Ingestion.EventGenerator.{EcommerceEvent, Draws, Slot, next_batch}

-- What the draws of a whole batch give.
pub record BatchDraws (W : Type 0) : Type 0 where
  -- `_rng.zipf(a=1.5, size=n)`
  pub zipf : ℕ → W → List ℕ × W
  -- `random.choices(...)` of the event types, the device types and the categories
  pub event_types : ℕ → W → List String × W
  pub device_types : ℕ → W → List String × W
  pub categories : ℕ → W → List String × W
  -- `f"{r:05d}"`
  pub pad : ℕ → String

module _ {W : Type 0} (b : BatchDraws W) where
  -- `np.clip(r, 1, num_users)`, and the id that it gives
  abbrev pub user_of : ℕ → ℕ → String
  user_of num_users r = "usr_" ⋅ b.pad (min (max r 1) num_users)

  abbrev pub zipf_user_pool : ℕ → ℕ → W → List String × W
  zipf_user_pool n num_users w = let (ranks, w₁) = b.zipf n w in (map (user_of num_users) ranks, w₁)

  -- `zip(...)`: as many as the shortest list has
  abbrev pub zip_slots : List String → List String → List String → List String → List Slot
  zip_slots (u ∷ us) (t ∷ ts) (d ∷ ds) (c ∷ cs) =
      record { user_id = u; event_type = t; device_type = d; category = c } ∷ zip_slots us ts ds cs
  zip_slots _ _ _ _ = []

  abbrev pub draw_slots : ℕ → ℕ → W → List Slot × W
  draw_slots batch_size num_users w =
      let (user_ids, w₁) = zipf_user_pool batch_size num_users w in
      let (event_types, w₂) = b.event_types batch_size w₁ in
      let (device_types, w₃) = b.device_types batch_size w₂ in
      let (categories, w₄) = b.categories batch_size w₃ in
      (zip_slots user_ids event_types device_types categories, w₄)

  abbrev pub first_batches :
      {F : Type 0} ⦃f : Float F⦄ ⦃c : Clock W F⦄ (x : Draws W F)
      → ℕ
      → ℕ
      → ℕ
      → Dict String
      → W
      → List (List (EcommerceEvent F)) × W
  first_batches x zero batch_size num_users session_map w = ([], w)
  first_batches x (suc n) batch_size num_users session_map w =
      let (slots, w₁) = draw_slots batch_size num_users w in
      let ((events, sessions), w₂) = next_batch x slots session_map w₁ in
      let (rest, w₃) = first_batches x n batch_size num_users sessions w₂ in (events ∷ rest, w₃)
