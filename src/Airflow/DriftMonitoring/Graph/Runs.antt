-- ===== src/Airflow/DriftMonitoring/Graph/Runs.antt =====
-- What a run of the drift graph did, when it succeeds.
use feature_store.Common.{
  ◌≡◌, ◌⊎◌, inl, inr, refl, ap, ◌∙◌, arith, String, true, false, Option, none, some, List, ◌∷◌, All,
  Bool-cases,
}
use feature_store.Common.Dict.{Dict}
use feature_store.Common.Exec.{ok, pure, Exec-cases}
use feature_store.Float.{Float, gt, OrderLaws, ArithLaws}
use feature_store.Numpy.{Numpy}
use feature_store.Redis.{Redis}
use feature_store.Tenacity.{Clock, Tenacity, TenacityLaws}
use feature_store.Drift.BaselineManager.{Json}
use feature_store.Drift.Detector.{DriftConfig}
use feature_store.Diagnostics.Schemas.{text, Format, DiagnosticsConfig, RcaDiagnosis}
use feature_store.Diagnostics.Rules.{conclude, rule_based_fallback}
use feature_store.Diagnostics.RcaEngine.{Messages, Engine, analyze}
use feature_store.Diagnostics.RcaEngine.Analysis.{analyze_either}
use feature_store.Airflow.Dag.{Scheduler, SchedulerLaws, task, task-returned}
use feature_store.Airflow.DriftMonitoring.{
  load_current_distributions, Outcome, MetricsTable, run_drift_detection, run_rca, branch_on_drift,
  placeholder_report,
}
use feature_store.Airflow.DriftMonitoring.Branches.{
  IsSample, load_current_distributions-IsSample, rca_has_feature,
}
use feature_store.Airflow.DriftMonitoring.Graph.{
  Ending, drift_ok_done, run_rca_done, DriftRun, retries, rca_task, chosen_task,
  run_drift_monitoring,
}

-- What the diagnosis of a run may be: the model's, or that of the first rule.
abbrev pub IsAnalysis : {F : Type 0} → RcaDiagnosis F → Type 0
IsAnalysis d =
    (d.fallback_used ≡ false)
    ⊎ ((d.cause_category ≡ text "data_pipeline_delay") × (d.urgency ≡ text "high"))

-- A run ends in `drift_ok` without a drift, or in a diagnosis of the first drifting feature.
pub IsEnding : {F : Type 0} → Outcome → Ending F → Type 0
IsEnding {F} outcome ending =
    ((outcome.has_drift ≡ false) × (ending ≡ drift_ok_done))
    ⊎ ((k : String) × (ks : List String) × (d : RcaDiagnosis F) × (outcome.has_drift ≡ true)
        × (outcome.drifting_features ≡ some (k ∷ ks))
        × (ending ≡ run_rca_done (some d))
        × (d.feature_name ≡ k)
        × IsAnalysis d)

module _ {F W : Type 0} ⦃f : Float F⦄ ⦃p : Format F⦄ ⦃c : Clock W F⦄ (order : OrderLaws F)
    (arithmetic : ArithLaws F) where
  -- The placeholder figures are those of the first rule, whatever the feature's own are.
  placeholder_rule :
      (k : String) (now : F) (w : W)
      → let d = rule_based_fallback (placeholder_report k now) w in
        (d.feature_name ≡ k)
        × (d.cause_category ≡ text "data_pipeline_delay")
        × (d.urgency ≡ text "high")
  unfolding rule_based_fallback conclude
  placeholder_rule k now w =
      let psi : gt (f.lit 25 2) (f.lit 2 1) ≡ true =
        rw (order.lit_shift 2 1 (omega arith))
          (order.lt_lit 20 25 2 (omega arith) (omega arith) (omega arith)) in
      let z : gt (f.magnitude (f.lit 35 1)) (f.lit 30 1) ≡ true =
        rw (arithmetic.magnitude_lit 35 1)
          (order.lt_lit 30 35 1 (omega arith) (omega arith) (omega arith)) in
      rw (psi, z) (refl, refl, refl)

module _ {F W : Type 0} ⦃f : Float F⦄ ⦃p : Format F⦄ ⦃c : Clock W F⦄ ⦃m : Messages W F⦄
    ⦃t : Tenacity (Engine W)⦄ (order : OrderLaws F) (arithmetic : ArithLaws F)
    (retried : TenacityLaws (Engine W)) where
  -- With a drifting feature, the task makes a diagnosis of the first one.
  rca_task_lem :
      (dcfg : DiagnosticsConfig) (outcome : Outcome) (k : String) (ks : List String) (w w' : W)
      (found : Option (RcaDiagnosis F))
      → outcome.drifting_features ≡ some (k ∷ ks)
      → rca_task dcfg outcome w ≡ (ok found, w')
      → (d : RcaDiagnosis F) × (found ≡ some d) × (d.feature_name ≡ k) × IsAnalysis d
  unfolding rca_task
  rca_task_lem dcfg outcome k ks w w' found listed h =
      let fresh : Engine W = record { has_client = false; world = w } in
      let report = placeholder_report k (c.time w) in
      let (d, e) = analyze dcfg report none fresh in
      let made : found ≡ some d = ground (arith, listed) in
      elim (analyze_either retried dcfg report none fresh e d refl) [
        | inl ruled ↦
            let (name, category, urgency) =
              placeholder_rule order arithmetic k (c.time w) e.world in
            (
              d,
              made,
              ap (λ r. r.feature_name) ruled ∙ name,
              inr (
                ap (λ r. r.cause_category) ruled ∙ category,
                ap (λ r. r.urgency) ruled ∙ urgency,
              ),
            )
        | inr ((name, own), _) ↦ (d, made, name, inl own)
      ]

  module _ ⦃s : Scheduler W⦄ ⦃n : Numpy F⦄ ⦃r : Redis W⦄ ⦃j : Json F⦄ ⦃x : MetricsTable W F⦄
      (scheduled : SchedulerLaws W) where
    chosen_lem :
        (cfg : DriftConfig F) (dcfg : DiagnosticsConfig) (samples : Dict (List F)) (v v' w w' : W)
        (outcome : Outcome) (ending : Ending F)
        → run_drift_detection cfg samples v ≡ (ok outcome, v')
        → chosen_task dcfg outcome (branch_on_drift outcome) w ≡ (ok ending, w')
        → IsEnding outcome ending
    unfolding IsEnding branch_on_drift chosen_task
    chosen_lem cfg dcfg samples v v' w w' outcome ending detected h =
        elim (Bool-cases outcome.has_drift) [
          | inr b ↦ inl (b, ground arith)
          | inl b ↦
              let chosen : branch_on_drift outcome ≡ run_rca = rw b refl in
              let (k, ks, listed) = rca_has_feature cfg samples v v' outcome detected chosen in
              elim (Exec-cases (task retries (rca_task {F = F} dcfg outcome) w)) [
                | inr (y, u, e) ↦ absurd (ground arith)
                | inl (found, u, e) ↦
                    let (start, returned) = task-returned scheduled retries _ w u found e in
                    let (d, made, name, own) =
                      rca_task_lem dcfg outcome k ks start u found listed returned in
                    inr (k, ks, d, b, listed, ground (arith, made), name, own)
              ]
        ]

    -- A run of the graph that succeeds sampled between one value and two hundred of each feature
    -- that it looked at. It ends in `drift_ok` if the detection pushed no drift, and otherwise in
    -- a diagnosis of the first drifting feature, which is the model's, or else says whatever the
    -- figures "data_pipeline_delay" with a high urgency.
    pub run_drift_monitoring_lem :
        (cfg : DriftConfig F) (dcfg : DiagnosticsConfig) (run : DriftRun F) (w w' : W)
        → run_drift_monitoring cfg dcfg w ≡ (ok run, w')
        → All IsSample run.feature_data × IsEnding run.outcome run.ending
    unfolding run_drift_monitoring
    run_drift_monitoring_lem cfg dcfg run w w' h =
        elim (Exec-cases (task retries (load_current_distributions {F = F}) w)) [
          | inr (y, u, e) ↦ absurd (ground arith)
          | inl (samples, w₁, loaded) ↦
              elim (Exec-cases (task retries (run_drift_detection cfg samples) w₁)) [
                | inr (y, u, e) ↦ absurd (ground arith)
                | inl (outcome, w₂, detected) ↦
                    let t = branch_on_drift outcome in
                    let w₃ = s.queue w₂ in
                    let branched = scheduled.run_returns retries (pure t) w₃ w₃ t refl in
                    elim (Exec-cases (chosen_task {F = F} dcfg outcome t w₃)) [
                      | inr (y, u, e) ↦ absurd (ground (arith, branched))
                      | inl (ending, w₄, ended) ↦
                          let (v₁, sampled) =
                            task-returned scheduled retries _ w w₁ samples loaded in
                          let (v₂, found) =
                            task-returned scheduled retries _ w₁ w₂ outcome detected in
                          let same : run ≡ record {
                            feature_data = samples;
                            outcome = outcome;
                            ending = ending;
                          } =
                            ground (arith, branched) in
                          rw same (
                            load_current_distributions-IsSample v₁ w₁ samples sampled,
                            chosen_lem cfg dcfg samples v₂ w₂ w₃ w₄ outcome ending found ended,
                          )
                    ]
              ]
        ]
