-- ===== src/Examples/Validation.antt =====
-- Examples for the validation.
use feature_store.Common.{◌+◌, String, ◌≡◌, refl, false, none, some, [], ◌∷◌, length, count, All}
use feature_store.Common.Dict.{Dict, lookup}
use feature_store.Float.{fsum}
use feature_store.Float.Int.{◌+ℤ◌, ◌-ℤ◌}
use feature_store.Float.Fixed.{Fixed, fixed_float, Fixed-OrderLaws, Fixed-ArithLaws}
use feature_store.Numpy.Simple.{simple_numpy}
use feature_store.Validation.Consistency.{
  relative_deviation, deviation, feature_deviations, mean_deviation, validate_consistency,
}
use feature_store.Validation.Consistency.Counting.{is_inconsistent, validate_consistency_counts}
use feature_store.Validation.Consistency.Worst.{worst_feature_greatest}
use feature_store.Validation.Consistency.Values.{IsPerfect, nan_unnoticed}
use feature_store.Examples.World.{ann, two_features}

abbrev offline : Dict (Dict Fixed)
offline = (ann, two_features) ∷ ("usr_00002", ("avg_spend_1h", fixed_float.lit 40 0) ∷ []) ∷ []

abbrev online : Dict (Dict Fixed)
online = (ann, two_features) ∷ ("usr_00002", ("avg_spend_1h", fixed_float.lit 44 0) ∷ []) ∷ []

abbrev not_a_number : Fixed
not_a_number = none

abbrev nan_features : Dict Fixed
nan_features =
    ("txn_count_5m", not_a_number)
    ∷ ("avg_spend_1h", not_a_number)
    ∷ ("session_activity_rate", not_a_number)
    ∷ ("cart_abandon_ratio", not_a_number)
    ∷ ("product_interaction_freq", not_a_number)
    ∷ ("anomaly_score", not_a_number)
    ∷ []

abbrev nan_online : Dict (Dict Fixed)
nan_online = (ann, nan_features) ∷ ("usr_00002", nan_features) ∷ []

abbrev threshold : Fixed
threshold = fixed_float.lit 1 2

validate_consistency_counts_example :
    let report = validate_consistency threshold offline online in
    (report.inconsistent_users ≡ count (is_inconsistent threshold online) offline)
    × (report.consistent_users + report.inconsistent_users ≡ report.sample_size)
    × (report.sample_size ≡ length offline)
validate_consistency_counts_example = validate_consistency_counts threshold offline online

worst_feature_greatest_example :
    let report = validate_consistency threshold offline online in
    All {A = String × Fixed}
      (λ e. fixed_float.lt report.max_deviation e.1 ≡ false)
      report.per_feature_deviation
    × ((k : String) × (report.worst_feature ≡ some k)
        × (report.max_deviation ≡ mean_deviation (feature_deviations online k offline)))
unfolding mean_deviation feature_deviations deviation relative_deviation ◌+ℤ◌ ◌-ℤ◌ fsum lookup
worst_feature_greatest_example =
    worst_feature_greatest Fixed-OrderLaws threshold offline online
      (refl, (refl, (refl, (refl, (refl, (refl, tt))))))

nan_unnoticed_example :
    IsPerfect Fixed-OrderLaws Fixed-ArithLaws threshold
      (validate_consistency threshold offline nan_online)
unfolding lookup
nan_unnoticed_example =
    nan_unnoticed Fixed-OrderLaws Fixed-ArithLaws threshold offline nan_online refl (
      (refl, (refl, (refl, (refl, (refl, (refl, tt)))))),
      ((refl, (refl, (refl, (refl, (refl, (refl, tt)))))), tt),
    )
