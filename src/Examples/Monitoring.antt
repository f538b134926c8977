-- ===== src/Examples/Monitoring.antt =====
-- Examples for the dashboard.
use mathlib.Core.Path.{subst}
use feature_store.Common.{ℕ, sym, ◌≡◌, refl, ap, ◌||◌, String, false, none, List, [], ◌∷◌}
use feature_store.Common.Dict.{Dict, lookup, insert, contains}
use feature_store.Common.Exec.{Result, ok, err, index_error}
use feature_store.Float.Fixed.{Fixed, fixed_float, print, read, Fixed-OrderLaws, Fixed-ArithLaws}
use feature_store.Numpy.Simple.{simple_numpy, simple-NumpyLaws}
use feature_store.Float.Int.{◌-ℤ◌}
use feature_store.Redis.Memory.{Memory, empty, memory_redis, Memory-RedisLaws, hash-memory}
use feature_store.OnlineStore.KeySchema.{feature_key}
use feature_store.Validation.Psi.{Severity}
use feature_store.Api.Vector.{FeatureVector, read_vector, read_float}
use feature_store.Monitoring.DataFetcher.{fetch_feature_freshness, read_ages}
use feature_store.Monitoring.Fetches.{IsReadable, api_ages, fetch_feature_freshness-eq-freshness}
use feature_store.Monitoring.DriftPage.{feature_status, feature_status_no_baseline}
use feature_store.Monitoring.Throughput.{feature_stats, read_stats, add_hash}
use feature_store.Monitoring.Throughput.Summaries.{Percentiles, PercentileLaws, summarize}
use feature_store.Monitoring.Throughput.Blank.{unreadable, summarize-feature_stats_raises}
use feature_store.Examples.World.{tiny, memory_clock, ann}

-- a server with one user, whose count is an empty text
abbrev odd_world : Memory
odd_world = record empty {
  hash = λ k. ("txn_count_5m", "") ∷ ("computed_at", fixed_float.str (tiny 3)) ∷ [];
  members = λ k. ann ∷ [];
}

-- a server with one user, whose features are all there to read
abbrev plain_world : Memory
plain_world = record empty {
  hash = λ k.
      ("txn_count_5m", fixed_float.str (tiny 5)) ∷ ("computed_at", fixed_float.str (tiny 3)) ∷ [];
  members = λ k. ann ∷ [];
}

abbrev ages : List (String × Fixed)
ages = (ann, fixed_float.round (tiny 4) 1) ∷ []

abbrev vector : FeatureVector Fixed
vector = record {
  txn_count_5m = tiny 5;
  avg_spend_1h = tiny 0;
  session_activity_rate = tiny 0;
  cart_abandon_ratio = tiny 0;
  product_interaction_freq = tiny 0;
  anomaly_score = tiny 0;
}

fetch_feature_freshness-eq-freshness_example :
    ages ≡ api_ages Memory-RedisLaws plain_world (ann ∷ [])
unfolding fetch_feature_freshness read_ages read lookup print read_vector read_float ◌-ℤ◌
fetch_feature_freshness-eq-freshness_example =
    fetch_feature_freshness-eq-freshness Memory-RedisLaws 200 (ann ∷ []) plain_world plain_world
      plain_world ages refl refl
      (
        subst (IsReadable Fixed) (sym (hash-memory plain_world (feature_key ann))) (vector, refl),
        tt,
      )
      refl

feature_status_no_baseline_example :
    feature_status "anomaly_score" (tiny 1 ∷ tiny 5 ∷ []) none
    ≡ record { feature = "anomaly_score"; psi = tiny 0; severity = Severity.ok }
feature_status_no_baseline_example =
    feature_status_no_baseline Fixed-OrderLaws Fixed-ArithLaws simple-NumpyLaws "anomaly_score"
      (tiny 1 ∷ tiny 5 ∷ []) none refl

-- the first value, for any percentile
abbrev first_of : List Fixed → ℕ → Result Fixed
first_of [] n = err index_error
first_of (x ∷ xs) n = ok x

instance abbrev first_value : Percentiles Fixed
first_value = record { percentile = first_of }

first-PercentileLaws : PercentileLaws Fixed
first-PercentileLaws = record {
  percentile_empty = λ n. refl;
  percentile_some = λ x xs n. (x, refl);
}

abbrev stats : Dict (List Fixed)
stats = ("txn_count_5m", []) ∷ []

stored : Memory-RedisLaws.hash odd_world (feature_key ann) ≡ odd_world.hash (feature_key ann)
stored = hash-memory odd_world (feature_key ann)

summarize-feature_stats_raises_example : summarize stats ≡ err index_error
unfolding feature_stats read_stats add_hash lookup insert read
summarize-feature_stats_raises_example =
    summarize-feature_stats_raises "txn_count_5m" Memory-RedisLaws first-PercentileLaws (ann ∷ [])
      stats odd_world odd_world odd_world refl refl
      (ap (λ d. contains "txn_count_5m" d || false) stored)
      (ap (unreadable fixed_float.parse "txn_count_5m") stored, tt) refl
