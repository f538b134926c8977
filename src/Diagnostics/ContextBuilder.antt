-- ===== src/Diagnostics/ContextBuilder.antt =====
-- diagnostics/context_builder.py
use feature_store.Common.{String, Option, none, some, is_empty, if◌then◌else◌}
use feature_store.Common.Dict.{Dict, get_or}
use feature_store.Float.{Float, gt}
use feature_store.Diagnostics.Schemas.{
  Value, Items, null, boolean, integer, number, text, object, done, member, Format, DriftReport,
}

module _ {F : Type 0} ⦃f : Float F⦄ where
  abbrev pub interpret_psi : F → String
  interpret_psi psi =
      if f.lt psi (f.lit 1 1)
      then "no significant shift"
      else if f.lt psi (f.lit 2 1)
      then "moderate shift — monitor closely"
      else "major shift — investigate immediately"

  abbrev drift_metrics : DriftReport F → Value F
  drift_metrics report = object (
      member "psi_score" (number report.psi_score) (
        member "psi_interpretation" (text (interpret_psi report.psi_score)) (
          member "ks_statistic" (number report.ks_statistic) (
            member "ks_p_value" (number report.ks_p_value) (
              member "ks_significant" (boolean (f.lt report.ks_p_value (f.lit 5 2))) (
                member "z_score" (number report.z_score) (
                  member "z_score_anomalous"
                    (boolean (gt (f.magnitude report.z_score) (f.lit 30 1)))
                    (member "kl_divergence" (number report.kl_divergence) done))))))))

module _ {F : Type 0} where
  abbrev metadata_members : Dict (Value F) → Items F
  metadata_members m = member "description" (get_or "description" null m) (
      member "transform_logic" (get_or "transform_logic" null m) (
        member "window_type" (get_or "window_type" null m) (
          member "freshness_sla_seconds" (get_or "freshness_sla_seconds" null m)
            (member "owner" (get_or "owner" null m) done))))

  -- `if feature_metadata:`
  abbrev with_metadata : Option (Dict (Value F)) → Items F
  with_metadata none = done
  with_metadata (some m) =
      if is_empty m then done else member "feature_metadata" (object (metadata_members m)) done

module _ {F : Type 0} ⦃f : Float F⦄ ⦃p : Format F⦄ where
  abbrev time_context : DriftReport F → Value F
  time_context report = object (
      member "baseline_period" (text report.baseline_period) (
        member "current_period" (text report.current_period) (
          member "sample_size" (integer report.sample_size)
            (member "analysis_timestamp" (text (p.iso_time report.computed_at)) done))))

  abbrev pub build_rca_context : DriftReport F → Option (Dict (Value F)) → String
  build_rca_context report feature_metadata = p.dumps (
      object (
        member "feature_name" (text report.feature_name) (
          member "drift_metrics" (drift_metrics report) (
            member "severity" (text report.severity)
              (member "time_context" (time_context report) (with_metadata feature_metadata))))))
