-- ===== src/Examples/World.antt =====
-- The concrete values that the examples share.
use feature_store.Common.{ℕ, ◌+◌, String, [], ◌∷◌}
use feature_store.Common.Dict.{Dict}
use feature_store.Float.Fixed.{Fixed, fixed_float}
use feature_store.Redis.Memory.{Memory}
use feature_store.Tenacity.{Clock}
use feature_store.Diagnostics.Schemas.{Format}

-- `n` millionths
abbrev pub tiny : ℕ → Fixed
tiny n = fixed_float.lit n 6

instance abbrev pub memory_clock : Clock Memory Fixed
memory_clock = record { time = λ w. tiny 7; turn = λ w n. tiny (7 + n) }

abbrev pub ann : String
ann = "usr_00001"

abbrev pub two_features : Dict Fixed
two_features = ("txn_count_5m", tiny 3) ∷ ("anomaly_score", tiny 5) ∷ []

instance abbrev pub plain_format : Format Fixed
plain_format = record {
  fixed = λ d x. fixed_float.str x;
  iso_time = fixed_float.str;
  dumps = λ v. "{}";
}
