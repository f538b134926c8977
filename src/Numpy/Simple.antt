-- ===== src/Numpy/Simple.antt =====
-- Simple statistics of numbers with six decimals: a value of the interface `Numpy` at which its
-- laws hold.
use mathlib.Core.List.{foldl, foldr}
use feature_store.Common.{
  ℕ, zero, suc, ◌+◌, ◌-◌, ◌*◌, ◌/◌, ◌≡◌, refl, ap, arith, Bool, true, false, ◌&&◌, not, some, none,
  List, [], ◌∷◌, map, length, count, All, if◌then◌else◌,
}
use feature_store.Float.{Float, nought, fmin, fmax, IsFinite}
use feature_store.Float.Int.{ℤ, pos, negsuc, ◌+ℤ◌, ◌-ℤ◌, ◌*ℤ◌}
use feature_store.Float.Fixed.{Fixed, fixed_float}
use feature_store.Numpy.{Numpy, NumpyLaws}

abbrev open_float : Float Fixed
open_float = fixed_float

abbrev total : List Fixed → Fixed
total = foldr open_float.add nought

abbrev least : (Fixed → Fixed → Fixed) → List Fixed → Fixed
least pick [] = nought
least pick (x ∷ xs) = foldl pick x xs

abbrev average : List Fixed → Fixed
average xs = open_float.div (total xs) (open_float.of_nat (length xs))

-- the points from `a` on, `step` apart
abbrev points : Fixed → Fixed → ℕ → List Fixed
points a step zero = []
points a step (suc n) = a ∷ points (open_float.add a step) step n

-- how many values each bin has; the last bin has its upper end
abbrev bin_counts : List Fixed → List Fixed → List ℕ
bin_counts xs [] = []
bin_counts xs (a ∷ []) = []
bin_counts xs (a ∷ b ∷ []) = count (λ x. not (open_float.lt x a) && not (open_float.lt b x)) xs ∷ []
bin_counts xs (a ∷ b ∷ c ∷ bs) =
    count (λ x. not (open_float.lt x a) && open_float.lt x b) xs ∷ bin_counts xs (b ∷ c ∷ bs)

abbrev all_equal : List Fixed → List Fixed → Bool
all_equal [] [] = true
all_equal (x ∷ xs) (y ∷ ys) = open_float.eq x y && all_equal xs ys
all_equal _ _ = false

instance abbrev pub simple_numpy : Numpy Fixed
simple_numpy = record {
  amin = least fmin;
  amax = least fmax;
  asum = total;
  mean = average;
  std = λ xs. average (map (λ x. open_float.magnitude (open_float.sub x (average xs))) xs);
  log = λ x. open_float.sub x (open_float.lit 1 0);
  linspace = λ a b n. points a (open_float.div (open_float.sub b a) (open_float.of_nat (n - 1))) n;
  histogram = bin_counts;
  density = λ xs bins. map open_float.of_nat (bin_counts xs bins);
  ks_2samp = λ xs ys.
      if all_equal xs ys then (nought, open_float.lit 1 0) else (open_float.lit 1 0, nought);
}

total_zeros : (xs : List Fixed) → All (λ x. x ≡ nought) xs → total xs ≡ nought
unfolding ◌+ℤ◌
total_zeros [] h = refl
total_zeros (x ∷ xs) (z, zs) = rw (z, total_zeros xs zs) refl

all_equal_self : (xs : List Fixed) → All (λ x. open_float.eq x x ≡ true) xs → all_equal xs xs ≡ true
all_equal_self [] h = refl
all_equal_self (x ∷ xs) (e, es) = rw (e, all_equal_self xs es) refl

div_same : (m n : ℕ) → m ≡ suc n → m * 1_000_000 / m ≡ 1_000_000
div_same m n e = rw e (grind arith)

sub_self : (a : ℤ) → a -ℤ a ≡ pos 0
unfolding ◌-ℤ◌
sub_self a = ground arith

div_self :
    (x : Fixed)
    → IsFinite x
    → open_float.eq x nought ≡ false
    → open_float.div x x ≡ open_float.lit 1 0
div_self none h e = ground (arith, h)
div_self (some (pos zero)) h e = ground arith
div_self (some (pos (suc n))) h e =
    ap (λ (q : ℕ). some (pos q)) (div_same (suc n + 0) n (omega arith))
div_self (some (negsuc n)) h e = ap (λ (q : ℕ). some (pos q)) (div_same (0 + suc n) n (omega arith))

mul_zero : open_float.mul nought nought ≡ nought
unfolding ◌*ℤ◌
mul_zero = refl

log_one : simple_numpy.log (open_float.lit 1 0) ≡ nought
unfolding ◌-ℤ◌
log_one = refl

finite : (a : ℤ) → IsFinite {F = Fixed} (some a)
finite a = (ground arith, ap some (sub_self a))

pub simple-NumpyLaws : NumpyLaws Fixed
simple-NumpyLaws = record {
  div_self = div_self;
  log_one = log_one;
  mul_zero_zero = mul_zero;
  asum_zeros = total_zeros;
  fraction_finite = λ k l. finite _;
  ks_2samp_self = λ xs e h. rw (all_equal_self xs h) refl;
}
