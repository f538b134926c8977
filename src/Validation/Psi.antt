-- ===== src/Validation/Psi.antt =====
-- validation/psi_calculator.py
pub mod Laws
use feature_store.Common.{
  ℕ, suc, ◌+◌, ◌*◌, String, Bool, true, false, ◌||◌, List, [], ◌∷◌, map, length, is_empty,
  if◌then◌else◌,
}
use feature_store.Float.{Float, nought, fmax}
use feature_store.Numpy.{Numpy}

-- the labels that `psi_severity` returns
pub data Severity : Type 0 where
  ok warn alert : Severity

module _ {F : Type 0} ⦃f : Float F⦄ where
  abbrev pub epsilon : F
  epsilon = f.lit 1 6

  unfoldable pub psi_severity : F → F → F → Severity
  psi_severity psi warn_at alert_at =
      if f.lt psi warn_at then Severity.ok else if f.lt psi alert_at then warn else alert

  -- `bins[-1] += EPSILON`
  unfoldable pub raise_last : List F → List F
  raise_last [] = []
  raise_last (b ∷ []) = f.add b epsilon ∷ []
  raise_last (b ∷ c ∷ bs) = b ∷ raise_last (c ∷ bs)

  -- `np.where(pct == 0, EPSILON, pct)`
  abbrev pub replace_zero : F → F
  replace_zero p = if f.eq p nought then epsilon else p

  -- counts as shares of the sample, with no zero
  unfoldable pub shares : ℕ → List ℕ → List F
  shares size = map (λ k. replace_zero (f.div (f.of_nat k) (f.add (f.of_nat size) epsilon)))

module _ {F : Type 0} ⦃f : Float F⦄ ⦃n : Numpy F⦄ where
  -- `(actual_pct - expected_pct) * np.log(actual_pct / expected_pct)`
  unfoldable pub psi_term : F → F → F
  psi_term expected actual = f.mul (f.sub actual expected) (n.log (f.div actual expected))

  unfoldable pub psi_terms : List F → List F → List F
  psi_terms (e ∷ es) (a ∷ as') = psi_term e a ∷ psi_terms es as'
  psi_terms _ _ = []

  -- the sum over the bins of the expected values, before it is rounded
  unfoldable pub psi_over : List F → List F → List F → F
  psi_over bins expected actual = n.asum (
      psi_terms (shares (length expected) (n.histogram expected bins))
        (shares (length actual) (n.histogram actual bins)))

  unfoldable pub compute_psi : List F → List F → ℕ → F
  compute_psi expected actual n_bins =
      if is_empty expected || is_empty actual
      then nought
      else (let min_val = n.amin expected in
          let max_val = n.amax expected in
          let bins = raise_last (n.linspace min_val max_val (n_bins + 1)) in
          if f.eq min_val max_val
          then nought
          else f.round (fmax nought (psi_over bins expected actual)) 6)
