-- ===== src/Drift/StatisticalTests.antt =====
-- drift_detection/statistical_tests.py
use feature_store.Common.{ℕ, ◌+◌, Bool, false, ◌||◌, List, [], ◌∷◌, map, is_empty, if◌then◌else◌}
use feature_store.Float.{Float, nought, gt, fmax, fmin}
use feature_store.Numpy.{Numpy}

pub record KsTestResult (F : Type 0) : Type 0 where
  pub statistic : F
  pub p_value : F
  pub significant : Bool

pub record ZScoreResult (F : Type 0) : Type 0 where
  pub current_mean : F
  pub baseline_mean : F
  pub baseline_std : F
  pub z_score : F
  pub is_anomalous : Bool

module _ {F : Type 0} ⦃f : Float F⦄ where
  -- `hist + 1e-10`, then divided by its sum
  unfoldable smooth : (List F → F) → List F → List F
  smooth total hist =
      let raised = map (λ h. f.add h (f.lit 1 10)) hist in map (λ h. f.div h (total raised)) raised

module _ {F : Type 0} ⦃f : Float F⦄ ⦃n : Numpy F⦄ where
  unfoldable pub ks_test : List F → List F → F → KsTestResult F
  ks_test baseline current alpha =
      if is_empty baseline || is_empty current
      then record { statistic = nought; p_value = f.lit 1 0; significant = false }
      else (let (statistic, pvalue) = n.ks_2samp baseline current in
          record {
            statistic = f.round statistic 6;
            p_value = f.round pvalue 6;
            significant = f.lt pvalue alpha;
          })

  abbrev pub z_score_test : List F → List F → F → ZScoreResult F
  z_score_test baseline current threshold =
      if is_empty baseline || is_empty current
      then record {
        current_mean = nought;
        baseline_mean = nought;
        baseline_std = f.lit 1 0;
        z_score = nought;
        is_anomalous = false;
      }
      else (let baseline_mean = n.mean baseline in
          let baseline_std = f.add (n.std baseline) (f.lit 1 6) in
          let current_mean = n.mean current in
          let z = f.div (f.magnitude (f.sub current_mean baseline_mean)) baseline_std in
          record {
            current_mean = f.round current_mean 4;
            baseline_mean = f.round baseline_mean 4;
            baseline_std = f.round baseline_std 4;
            z_score = f.round z 4;
            is_anomalous = gt z threshold;
          })

  -- `p_hist * np.log(p_hist / q_hist)`
  unfoldable kl_terms : List F → List F → List F
  kl_terms (p ∷ ps) (q ∷ qs) = f.mul p (n.log (f.div p q)) ∷ kl_terms ps qs
  kl_terms _ _ = []

  abbrev pub kl_divergence : List F → List F → ℕ → F
  unfolding kl_terms smooth
  kl_divergence p q n_bins =
      if is_empty p || is_empty q
      then nought
      else (let combined_min = fmin (n.amin p) (n.amin q) in
          let combined_max = f.add (fmax (n.amax p) (n.amax q)) (f.lit 1 9) in
          let bins = n.linspace combined_min combined_max (n_bins + 1) in
          n.asum (kl_terms (smooth n.asum (n.density p bins)) (smooth n.asum (n.density q bins))))
