-- ===== src/Validation/Consistency.antt =====
-- validation/consistency_validator.py, with the threshold of validation/config.py. The log lines
-- are left out.
pub mod Counting
pub mod Worst
pub mod Values
use feature_store.Common.{
  ℕ, zero, suc, ◌+◌, ◌-◌, max, String, Bool, true, false, not, ◌||◌, Option, none, some, List, [],
  ◌∷◌, ◌++◌, length, map, any, if◌then◌else◌,
}
use feature_store.Common.Dict.{Dict, get_or}
use feature_store.Float.{Float, nought, gt, le, fsum}
use feature_store.OnlineStore.KeySchema.{feature_names}

-- `ConsistencyReport`, less the time of it
pub record ConsistencyReport (F : Type 0) : Type 0 where
  pub sample_size : ℕ
  pub consistent_users : ℕ
  pub inconsistent_users : ℕ
  pub inconsistency_rate : F
  pub per_feature_deviation : Dict F
  pub worst_feature : Option String
  pub max_deviation : F

module _ {F : Type 0} ⦃f : Float F⦄ where
  -- `config.consistency_threshold` by default
  abbrev pub default_threshold : F
  default_threshold = f.lit 1 2

  -- The divisor is at least 1e-6, so that `/` does not raise.
  unfoldable pub relative_deviation : F → F → F
  relative_deviation offline_val online_val =
      f.div (f.magnitude (f.sub offline_val online_val))
        (f.add (f.magnitude offline_val) (f.lit 1 6))

  -- The deviation of one user at one feature; a missing value is zero.
  unfoldable pub deviation : Dict F → Dict F → String → F
  deviation offline_vals online_vals feature =
      relative_deviation (get_or feature nought offline_vals) (get_or feature nought online_vals)

  -- `online_features.get(user_id, {})`
  abbrev pub online_of : Dict (Dict F) → String → Dict F
  online_of online user_id = get_or user_id [] online

  -- the flag `user_inconsistent` after the loop over the features
  unfoldable pub flag_user : F → Dict F → Dict F → List String → Bool → Bool
  flag_user threshold offline_vals online_vals [] flagged = flagged
  flag_user threshold offline_vals online_vals (feature ∷ features) flagged =
      flag_user threshold offline_vals online_vals features
        (if gt (deviation offline_vals online_vals feature) threshold then true else flagged)

  -- `inconsistent_users` after the loop over the users
  unfoldable pub count_inconsistent : F → Dict (Dict F) → Dict (Dict F) → ℕ → ℕ
  count_inconsistent threshold online [] n = n
  count_inconsistent threshold online ((user_id, offline_vals) ∷ users) n =
      count_inconsistent threshold online users (
        if flag_user threshold offline_vals (online_of online user_id) feature_names false
        then n + 1
        else n)

  -- `feature_deviations[feature]` after the loop over the users
  unfoldable pub feature_deviations : Dict (Dict F) → String → Dict (Dict F) → List F
  feature_deviations online feature [] = []
  feature_deviations online feature ((user_id, offline_vals) ∷ users) =
      deviation offline_vals (online_of online user_id) feature
      ∷ feature_deviations online feature users

  -- `round(sum(devs) / max(len(devs), 1), 6)`
  unfoldable pub mean_deviation : List F → F
  mean_deviation devs = f.round (f.div (fsum devs) (f.of_nat (max (length devs) 1))) 6

  unfoldable pub per_feature : Dict (Dict F) → Dict (Dict F) → List String → Dict F
  per_feature offline online features =
      map (λ k. (k, mean_deviation (feature_deviations online k offline))) features

  -- `max(d, key=d.get)` of a dict, from the entry that leads so far: the first of the greatest
  unfoldable pub lead : String × F → Dict F → String × F
  lead best [] = best
  lead best (e ∷ d) = lead (if gt e.1 best.1 then e else best) d

  unfoldable pub worst_of : Dict F → Option (String × F)
  worst_of [] = none
  worst_of (e ∷ d) = some (lead e d)

  unfoldable pub validate_consistency : F → Dict (Dict F) → Dict (Dict F) → ConsistencyReport F
  validate_consistency threshold offline online =
      let sample_size = length offline in
      let inconsistent = count_inconsistent threshold online offline 0 in
      let deviations = per_feature offline online feature_names in
      let worst = worst_of deviations in
      record {
        sample_size = sample_size;
        consistent_users = sample_size - inconsistent;
        inconsistent_users = inconsistent;
        inconsistency_rate =
            f.round (f.div (f.of_nat inconsistent) (f.of_nat (max sample_size 1))) 6;
        per_feature_deviation = deviations;
        worst_feature = elim worst [ none ↦ none | some e ↦ some e.0 ];
        max_deviation = elim worst [ none ↦ nought | some e ↦ e.1 ];
      }

  -- the property `is_healthy`
  unfoldable pub is_healthy : F → ConsistencyReport F → Bool
  is_healthy threshold report = le report.inconsistency_rate threshold
