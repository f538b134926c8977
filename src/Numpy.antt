-- ===== src/Numpy.antt =====
-- What the code calls of numpy and scipy, as an interface, and the documented behaviour that the
-- theorems use. `Numpy/Simple` is a value of both.
pub mod Simple
use feature_store.Common.{ℕ, ◌≡◌, false, Bool, List, All, is_empty}
use feature_store.Float.{Float, nought, IsNumber, IsFinite}

pub record Numpy (F : Type 0) : Type 0 where
  -- `np.min`, `np.max`, `np.sum`, `np.mean`, `np.std`, `np.log`
  pub amin : List F → F
  pub amax : List F → F
  pub asum : List F → F
  pub mean : List F → F
  pub std : List F → F
  pub log : F → F
  -- `np.linspace(start, stop, num)`
  pub linspace : F → F → ℕ → List F
  -- the first result of `np.histogram(xs, bins)`, as counts and with `density=True`
  pub histogram : List F → List F → List ℕ
  pub density : List F → List F → List F
  -- `stats.ks_2samp(xs, ys)`: the statistic and the p-value
  pub ks_2samp : List F → List F → F × F

pub record NumpyLaws (F : Type 0) ⦃f : Float F⦄ ⦃n : Numpy F⦄ : Type 0 where
  pub div_self : (x : F) → IsFinite x → f.eq x nought ≡ false → f.div x x ≡ f.lit 1 0
  pub log_one : n.log (f.lit 1 0) ≡ nought
  pub mul_zero_zero : f.mul nought nought ≡ nought
  pub asum_zeros : (xs : List F) → All (λ x. x ≡ nought) xs → n.asum xs ≡ nought
  -- a count over a length, as a float
  pub fraction_finite : (k l : ℕ) → IsFinite (f.div (f.of_nat k) (f.add (f.of_nat l) (f.lit 1 6)))
  -- identical samples, without NaN
  pub ks_2samp_self :
      (xs : List F)
      → is_empty xs ≡ false
      → All {A = F} (λ x. IsNumber x) xs
      → n.ks_2samp xs xs ≡ (nought, f.lit 1 0)
