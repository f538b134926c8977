-- ===== src/Examples/Generator.antt =====
-- Examples for the stream of the generator.
use feature_store.Common.{
  ℕ, zero, suc, ◌+◌, ◌≡◌, refl, ap, arith, List, [], ◌∷◌, All, length, String, any, str_eq, eq_iff,
  is_empty, false, true,
}
use feature_store.Float.Fixed.{
  Fixed, fixed_float, Fixed-OrderLaws, Fixed-ArithLaws, Fixed-FiniteLaws,
}
use feature_store.Tenacity.{Clock}
use feature_store.Ingestion.EventGenerator.{EcommerceEvent, Draws}
use feature_store.Ingestion.Stream.{BatchDraws, first_batches}
use feature_store.Ingestion.Stream.Valid.{
  IsEventType, IsDeviceType, BatchLaws, ChoiceLaws, IsGenerated, first_batches-IsGenerated,
}
use feature_store.Examples.Wire.{plain, plain-PydanticLaws}

instance abbrev counter_clock : Clock ℕ Fixed
counter_clock = record { time = λ w. fixed_float.of_nat w; turn = λ w n. fixed_float.of_nat w }

abbrev first : List String → String
first [] = ""
first (x ∷ xs) = x

-- Draws that count how often they were made.
abbrev counted : Draws ℕ Fixed
counted = record {
  random = λ w. (fixed_float.lit 5 1, suc w);
  log_normal = λ w. (fixed_float.lit 40 0, suc w);
  hex_id = λ w. ("0123456789ab", suc w);
  uuid = λ w. ("id", suc w);
  product = λ w. ("prod_00001", suc w);
  choice = λ xs w. (first xs, suc w);
}

first_drawn : (xs : List String) → is_empty xs ≡ false → any (str_eq (first xs)) xs ≡ true
first_drawn [] h = absurd (ground (arith, h))
first_drawn (x ∷ xs) h = ground (arith, eq_iff x x)

counted-ChoiceLaws : ChoiceLaws ℕ Fixed counted
counted-ChoiceLaws = record { choice_drawn = λ xs w h. first_drawn xs h }

copies : {A : Type 0} → ℕ → A → List A
copies zero a = []
copies (suc n) a = a ∷ copies n a

abbrev batch_draws : BatchDraws ℕ
batch_draws = record {
  zipf = λ n w. (copies n (w + 7), suc w);
  event_types = λ n w. (copies n "purchase", suc w);
  device_types = λ n w. (copies n "mobile", suc w);
  categories = λ n w. (copies n "books", suc w);
  pad = λ r. "00001";
}

length-copies : {A : Type 0} (n : ℕ) (a : A) → length (copies n a) ≡ n
unfolding copies
length-copies zero a = refl
length-copies (suc n) a = ap suc (length-copies n a)

All-copies : {A : Type 0} (P : A → Type 0) (n : ℕ) (a : A) → P a → All P (copies n a)
unfolding copies
All-copies P zero a h = tt
All-copies P (suc n) a h = (h, All-copies P n a h)

batch-BatchLaws : BatchLaws ℕ batch_draws
batch-BatchLaws = record {
  zipf_count = λ n w. length-copies n _;
  types_count = λ n w. length-copies n _;
  devices_count = λ n w. length-copies n _;
  categories_count = λ n w. length-copies n _;
  types_drawn = λ n w. All-copies IsEventType n "purchase" refl;
  devices_drawn = λ n w. All-copies IsDeviceType n "mobile" refl;
}

first_batches-IsGenerated_example :
    All {A = List (EcommerceEvent Fixed)}
      (λ events. (length events ≡ 2) × All (IsGenerated batch_draws plain 5) events)
      (first_batches batch_draws counted 3 2 5 [] 0).0
first_batches-IsGenerated_example =
    first_batches-IsGenerated batch_draws counted counted-ChoiceLaws Fixed-OrderLaws Fixed-ArithLaws
      Fixed-FiniteLaws plain-PydanticLaws batch-BatchLaws 3 2 5 [] 0 (omega arith)
