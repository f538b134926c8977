-- ===== src/OfflineStore/Reader.antt =====
-- offline_store/delta_reader.py: the reads at a point in time. `get_table_history` is one statement
-- of SQL.
use feature_store.Common.{ℕ, String, Bool, Option, none, some, List, [], ◌∷◌, any, str_eq}
use feature_store.Common.Exec.{Exec, pure, ◌>>=◌}
use feature_store.Spark.{Spark}
use feature_store.Delta.{Delta, AsOf, version, time, latest}
use feature_store.Streaming.DeltaSink.{StoredRow}

-- the columns of a training set
pub record TrainingRow (F : Type 0) : Type 0 where
  pub user_id : String
  pub txn_count_5m : F
  pub avg_spend_1h : F
  pub session_activity_rate : F
  pub cart_abandon_ratio : F
  pub product_interaction_freq : F
  pub anomaly_score : F
  pub computed_at : F
  pub event_date : String

abbrev pub training_row : {F : Type 0} → StoredRow F → TrainingRow F
training_row r = record {
  user_id = r.row.features.user_id;
  txn_count_5m = r.row.features.txn_count_5m;
  avg_spend_1h = r.row.features.avg_spend_1h;
  session_activity_rate = r.row.features.session_activity_rate;
  cart_abandon_ratio = r.row.features.cart_abandon_ratio;
  product_interaction_freq = r.row.features.product_interaction_freq;
  anomaly_score = r.row.anomaly_score;
  computed_at = r.row.features.computed_at;
  event_date = r.event_date;
}

-- the option that the reader is given: a version takes precedence over a time
unfoldable pub read_option : {T : Type 0} → Option T → Option ℕ → AsOf T
read_option as_of (some n) = version n
read_option (some t) none = time t
read_option none none = latest

-- `df.user_id.isin(user_ids)`
abbrev pub is_in : {F : Type 0} → List String → StoredRow F → Bool
is_in user_ids r = any (λ u. str_eq r.row.features.user_id u) user_ids

module _ {F : Type 0} (s : Spark F) where
  -- `if user_ids: df = df.filter(...)`: an empty list is as good as `None`
  unfoldable pub of_cohort :
      Option (List String) → s.DataFrame (StoredRow F) → s.DataFrame (StoredRow F)
  of_cohort none df = df
  of_cohort (some []) df = df
  of_cohort (some (u ∷ us)) df = s.where_ (is_in (u ∷ us)) df

module _ {W F T : Type 0} (s : Spark F) (d : Delta W (StoredRow F) T s.DataFrame) where
  unfoldable pub read_features_at : Option T → Option ℕ → Exec W (s.DataFrame (StoredRow F))
  read_features_at as_of version_no = d.load (read_option as_of version_no)

  unfoldable pub read_features_for_training :
      T → Option (List String) → Exec W (s.DataFrame (TrainingRow F))
  read_features_for_training as_of user_ids = do
    df ← read_features_at (some as_of) none
    pure (s.select training_row (of_cohort s user_ids df))
