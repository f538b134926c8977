-- ===== src/Diagnostics/Rules.antt =====
-- diagnostics/rca_engine.py: the rules that stand in for the language model.
pub mod Urgency
use Prim.Native.String
use feature_store.Common.{
  ℕ, zero, suc, String, ◌⋅◌, true, false, ◌&&◌, List, [], ◌∷◌, if◌then◌else◌,
}
use feature_store.Float.{Float, gt}
use feature_store.Tenacity.{Clock}
use feature_store.Diagnostics.Schemas.{text, texts, Format, DriftReport, RcaDiagnosis}

-- `s[:n]`
abbrev pub prefix : ℕ → String → String
prefix zero s = ""
prefix (suc n) String.[] = ""
prefix (suc n) (String.◌∷◌ c s) = String.◌∷◌ c (prefix n s)

-- the diagnosis that a rule gives, with the time at which it is made
unfoldable pub conclude :
    {F : Type 0} → DriftReport F → F → String → String → F → List String → String → RcaDiagnosis F
conclude report now cause probable confidence steps urgency = record {
  feature_name = report.feature_name;
  probable_cause = text probable;
  cause_category = text cause;
  confidence = confidence;
  affected_features = texts (report.feature_name ∷ []);
  remediation_steps = texts steps;
  urgency = text urgency;
  estimated_impact = text (
      "Potential model accuracy degradation for features depending on "
      ⋅ (report.feature_name ⋅ "."));
  model_used = "rule_based_fallback";
  tokens_used = 0;
  computed_at = now;
  fallback_used = true;
}

module _ {F : Type 0} ⦃f : Float F⦄ ⦃p : Format F⦄ where
  -- the urgency, the category and the confidence of a rule, and its texts
  unfoldable pub rule_based_fallback :
      {W : Type 0} ⦃c : Clock W F⦄ → DriftReport F → W → RcaDiagnosis F
  rule_based_fallback ⦃c = c⦄ report w =
      let feature = report.feature_name in
      let psi = report.psi_score in
      let z = f.magnitude report.z_score in
      let diagnosis = conclude report (c.time w) in
      if gt psi (f.lit 2 1) && gt z (f.lit 30 1)
      then diagnosis "data_pipeline_delay"
          ("Major distribution shift in "
            ⋅ (feature
                ⋅ (" (PSI="
                    ⋅ (p.fixed 3 psi
                        ⋅ (", Z="
                            ⋅ (p.fixed 2 z
                                ⋅ "). Likely cause: Kafka consumer lag causing stale cached values or upstream data volume spike."))))))
          (f.lit 72 2)
          ("1. Check Kafka consumer lag for topic ecommerce.events.raw (group: feature-processor-cg)"
            ∷ ("2. Verify Redis TTL for features:" ⋅ (prefix 10 feature ⋅ ":* keys"))
            ∷ "3. Check Spark streaming micro-batch processing time in Spark UI"
            ∷ "4. Review ingestion service logs for errors in the last hour"
            ∷ [])
          "high"
      else if gt psi (f.lit 1 1)
      then diagnosis "upstream_data_quality"
          ("Moderate distribution shift in "
            ⋅ (feature
                ⋅ (" (PSI="
                    ⋅ (p.fixed 3 psi
                        ⋅ "). Possible upstream data quality issue or legitimate seasonal pattern."))))
          (f.lit 55 2)
          ("1. Review event schema changes in ingestion service"
            ∷ "2. Check null/invalid transaction_amount rates in raw events"
            ∷ "3. Compare event volume to same time last week"
            ∷ "4. Verify no recent schema migrations on upstream services" ∷ [])
          "medium"
      else if f.lt report.ks_p_value (f.lit 5 2)
      then diagnosis "seasonal_pattern"
          ("Statistically significant distribution change in "
            ⋅ (feature
                ⋅ (" (KS p-value="
                    ⋅ (p.fixed 4 report.ks_p_value
                        ⋅ "). Could be legitimate seasonal variation."))))
          (f.lit 45 2)
          ("1. Compare current distribution to same hour/day last week"
            ∷ "2. Check for marketing campaigns or external events"
            ∷ "3. Update baseline distribution if change is expected" ∷ [])
          "low"
      else diagnosis "unknown"
          ("Minor drift detected in "
            ⋅ (feature ⋅ ". Insufficient signal for confident diagnosis."))
          (f.lit 30 2) ("1. Continue monitoring" ∷ "2. Collect more data before taking action" ∷ [])
          "low"
