-- ===== src/Validation/Psi/Laws.antt =====
-- PSI is never below zero, and zero between a sample and itself.
use feature_store.Common.{ℕ, ◌+◌, ◌≤◌, ◌≡◌, ap, ◌∙◌, false, List, [], ◌∷◌, length, All, arith}
use feature_store.Float.{Float, nought, fmax, IsNumber, IsFinite, OrderLaws, ArithLaws}
use feature_store.Numpy.{Numpy, NumpyLaws}
use feature_store.Float.Literals.{epsilon_pos}
use feature_store.Validation.Psi.{
  Severity, warn, alert, epsilon, psi_severity, raise_last, replace_zero, shares, psi_term,
  psi_terms, psi_over, compute_psi,
}

abbrev pub severity_rank : Severity → ℕ
severity_rank Severity.ok = 0
severity_rank warn = 1
severity_rank alert = 2

module _ {F : Type 0} ⦃f : Float F⦄ (order : OrderLaws F) where
  -- A PSI that is not below another, which is not NaN itself, does not get the lower severity,
  -- whatever the thresholds.
  pub psi_severity_mono :
      (p q warn_at alert_at : F)
      → f.lt q p ≡ false
      → IsNumber p
      → severity_rank (psi_severity p warn_at alert_at)
        ≤ severity_rank (psi_severity q warn_at alert_at)
  unfolding psi_severity
  psi_severity_mono p q w a h n = ground (arith, order.lt_cotrans q p w, order.lt_cotrans q p a)

  module _ ⦃n : Numpy F⦄ (arith_laws : ArithLaws F) where
    fmax_nonneg : (x : F) → f.lt (fmax nought x) nought ≡ false
    fmax_nonneg x = ground (arith, order.lt_irrefl nought, order.lt_trans nought x nought)

    -- PSI is not below zero, for any samples and any number of bins.
    pub compute_psi_nonneg :
        (expected actual : List F) (n_bins : ℕ)
        → f.lt (compute_psi expected actual n_bins) nought ≡ false
    unfolding compute_psi
    compute_psi_nonneg expected actual n_bins =
        let bins = raise_last (n.linspace (n.amin expected) (n.amax expected) (n_bins + 1)) in
        let x = psi_over bins expected actual in
        ground
          (arith, order.lt_irrefl nought, arith_laws.round_nonneg (fmax nought x) 6 (fmax_nonneg x))

    module _ (laws : NumpyLaws F) where
      share-IsFinite :
          (k l : ℕ)
          → let p = replace_zero (f.div (f.of_nat k) (f.add (f.of_nat l) epsilon)) in
            IsFinite p × (f.eq p nought ≡ false)
      share-IsFinite k l = ground (
        arith,
        laws.fraction_finite k l,
        order.lit_number 1 6 (omega arith),
        arith_laws.lit_finite 1 6 (omega arith),
        order.eq_not_lt epsilon nought,
        epsilon_pos order,
      )

      psi_term_self : (p : F) → IsFinite p → f.eq p nought ≡ false → psi_term p p ≡ nought
      unfolding psi_term
      psi_term_self p (num, z) nz =
          ap (λ t. f.mul t (n.log (f.div p p))) z
          ∙ ap (λ t. f.mul nought (n.log t)) (laws.div_self p (num, z) nz)
          ∙ ap (f.mul nought) laws.log_one
          ∙ laws.mul_zero_zero

      psi_terms_self :
          (size : ℕ) (counts : List ℕ)
          → All {A = F} (λ x. x ≡ nought) (psi_terms (shares size counts) (shares size counts))
      unfolding psi_terms shares
      psi_terms_self size [] = tt
      psi_terms_self size (k ∷ ks) =
          let (fin, nz) = share-IsFinite k size in (psi_term_self _ fin nz, psi_terms_self size ks)

      -- The PSI of a sample against itself is zero, for any number of bins.
      pub compute_psi_self : (xs : List F) (n_bins : ℕ) → compute_psi xs xs n_bins ≡ nought
      unfolding compute_psi psi_over
      compute_psi_self xs n_bins =
          let bins = raise_last (n.linspace (n.amin xs) (n.amax xs) (n_bins + 1)) in
          let zero_sum : psi_over bins xs xs ≡ nought =
            laws.asum_zeros _ (psi_terms_self (length xs) (n.histogram xs bins)) in
          ground (arith, zero_sum, arith_laws.round_zero 6, order.lt_irrefl nought)
