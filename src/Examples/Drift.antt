-- ===== src/Examples/Drift.antt =====
-- Examples for the drift detection, with lists of floats as texts between commas.
use feature_store.Common.{
  String, ◌⋅◌, ◌≡◌, refl, arith, false, Bool-cases, inl, inr, ◌⊎◌, none, some, List, [], ◌∷◌, map,
  is_empty, str_eq,
}
use feature_store.Common.Dict.{Dict, lookup, get_or}
use feature_store.Common.Exec.{Result, ok, err, value_error}
use feature_store.Float.Fixed.{
  Fixed, fixed_float, Fixed-OrderLaws, Fixed-ArithLaws, print, read, bits, value,
}
use feature_store.Numpy.Simple.{simple_numpy, simple-NumpyLaws}
use feature_store.Redis.Memory.{Memory, empty, memory_redis, Memory-RedisLaws, text-empty}
use feature_store.OnlineStore.KeySchema.{baseline_key, feature_names}
use feature_store.Drift.BaselineManager.{
  Json, ReadsBack, save_baseline, load_baseline, parse_baseline, refresh_all_baselines,
}
use feature_store.Drift.BaselineManager.Laws.{load_baseline-refresh_all_baselines, HasDistinctKeys}
use feature_store.Drift.Detector.{
  DriftReport, default_config, detect_one, detect_among, detect_drift, note,
}
use feature_store.Drift.Detector.Reports.{measured, drifting_names, detect_drift_lem}
use feature_store.Drift.Detector.Quiet.{HasNumbers, detect_drift-refresh_all_baselines}
use feature_store.Api.Vector.{split_comma}
use feature_store.Examples.World.{tiny, memory_clock}

abbrev joined : List Fixed → String
joined [] = ""
joined (x ∷ []) = fixed_float.str x
joined (x ∷ y ∷ xs) = fixed_float.str x ⋅ ("," ⋅ joined (y ∷ xs))

abbrev read_all : List String → Result (List Fixed)
read_all [] = ok []
read_all (s ∷ ss) = elim (fixed_float.parse s) [
  | none ↦ err value_error
  | some x ↦ elim (read_all ss) [ ok xs ↦ ok (x ∷ xs) | err e ↦ err e ]
]

instance abbrev comma_json : Json Fixed
comma_json = record { dumps = joined; loads = λ s. read_all (split_comma s) }

abbrev low_values : List Fixed
low_values = tiny 1 ∷ tiny 2 ∷ tiny 3 ∷ tiny 4 ∷ []

abbrev high_values : List Fixed
high_values = tiny 9 ∷ tiny 8 ∷ []

low_values-ReadsBack : ReadsBack low_values
unfolding print read bits value split_comma
low_values-ReadsBack = (refl, refl)

abbrev low_data : Dict (List Fixed)
low_data = ("txn_count_5m", low_values) ∷ ("anomaly_score", []) ∷ []

abbrev high_data : Dict (List Fixed)
high_data = ("txn_count_5m", high_values) ∷ []

abbrev seeded : Memory
seeded = (refresh_all_baselines low_data empty).1

load_baseline-refresh_all_baselines_example :
    load_baseline "txn_count_5m" seeded ≡ (ok (some low_values), seeded)
unfolding refresh_all_baselines save_baseline lookup HasDistinctKeys
load_baseline-refresh_all_baselines_example =
    load_baseline-refresh_all_baselines Memory-RedisLaws low_data "txn_count_5m" empty seeded seeded
      (seeded.text (baseline_key "txn_count_5m")) (refl, (refl, tt)) low_values-ReadsBack refl refl

low_data_at : (k : String) → (get_or k [] low_data ≡ low_values) ⊎ (get_or k [] low_data ≡ [])
unfolding lookup
low_data_at k = elim (Bool-cases (str_eq "txn_count_5m" k)) [
  | inl e ↦ inl (ground (arith, e))
  | inr e ↦ inr (ground (arith, e))
]

low-ReadsBack :
    (k : String) → is_empty (get_or k [] low_data) ≡ false → ReadsBack (get_or k [] low_data)
low-ReadsBack k h = elim (low_data_at k) [
  | inl e ↦ rw e low_values-ReadsBack
  | inr e ↦ absurd (ground (arith, h, e))
]

low-HasNumbers : (k : String) → HasNumbers (get_or k [] low_data)
low-HasNumbers k = elim (low_data_at k) [
  | inl e ↦ rw e (refl, (refl, (refl, (refl, tt))))
  | inr e ↦ rw e tt
]

abbrev report_of : Result (DriftReport Fixed) → DriftReport Fixed
report_of (ok report) = report
report_of (err e) = record { feature_results = []; drifting_features = []; computed_at = tiny 0 }

abbrev low_report : DriftReport Fixed
low_report = report_of (detect_drift default_config low_data seeded).0

abbrev high_report : DriftReport Fixed
high_report = report_of (detect_drift default_config high_data seeded).0

detect_drift-refresh_all_baselines_example : low_report.drifting_features ≡ []
unfolding refresh_all_baselines save_baseline lookup HasDistinctKeys detect_drift detect_among
    detect_one load_baseline parse_baseline print read bits value split_comma baseline_key note
detect_drift-refresh_all_baselines_example =
    detect_drift-refresh_all_baselines Fixed-OrderLaws Fixed-ArithLaws simple-NumpyLaws
      Memory-RedisLaws default_config low_data empty seeded seeded low_report (refl, refl)
      (refl, (refl, tt)) (λ k h. text-empty (baseline_key k)) low-ReadsBack low-HasNumbers refl refl

detect_drift_lem_example :
    (map (λ r. r.feature_name) high_report.feature_results ≡ measured high_data feature_names)
    × (high_report.drifting_features ≡ drifting_names high_report.feature_results)
unfolding refresh_all_baselines save_baseline lookup detect_drift detect_among detect_one
    load_baseline parse_baseline print read bits value split_comma baseline_key note
detect_drift_lem_example = detect_drift_lem default_config high_data seeded seeded high_report refl
