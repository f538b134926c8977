-- ===== src/Float.antt =====
-- Python's `float`: what the code does with one, as an interface, and the documented behaviour of
-- IEEE 754 arithmetic that the theorems use, as laws. `Float/Fixed` is a value of both.
pub mod Int
pub mod Fixed
pub mod Literals
use Prim.Native.Nat.{◌^◌}
use mathlib.Core.List.{foldl}
use feature_store.Common.{
  ℕ, zero, suc, ◌*◌, ◌≤◌, ◌<◌, String, ◌≡◌, ◌⊎◌, Bool, true, false, str_eq, Option, some, List, [],
  ◌∷◌, ltb, if◌then◌else◌,
}

pub record Float (F : Type 0) : Type 0 where
  -- `lit m e` is the decimal literal `m` times ten to the power `-e`: `0.01` is `lit 1 2`
  pub lit : ℕ → ℕ → F
  -- `float(n)` of an int
  pub of_nat : ℕ → F
  pub neg : F → F
  pub add : F → F → F
  pub sub : F → F → F
  pub mul : F → F → F
  -- `/` by a divisor other than zero
  pub div : F → F → F
  -- `abs(x)`
  pub magnitude : F → F
  -- `round(x, digits)`
  pub round : F → ℕ → F
  -- `int(x)` of a float that is not negative
  pub trunc : F → ℕ
  pub lt : F → F → Bool
  pub eq : F → F → Bool
  -- `str(x)`, and `float(s)` with `none` for the ValueError
  pub str : F → String
  pub parse : String → Option F

module _ {F : Type 0} ⦃f : Float F⦄ where
  abbrev pub nought : F
  nought = f.lit 0 0

  -- `a > b`, `a <= b`
  abbrev pub gt : F → F → Bool
  gt a b = f.lt b a

  abbrev pub le : F → F → Bool
  le a b = if f.lt a b then true else f.eq a b

  -- Python's `max(a, b)` and `min(a, b)`: the first, unless the second is beyond it.
  abbrev pub fmax : F → F → F
  fmax a b = if f.lt a b then b else a

  abbrev pub fmin : F → F → F
  fmin a b = if f.lt b a then b else a

  -- `sum(xs)`
  unfoldable pub fsum : List F → F
  fsum = foldl f.add nought

  -- NaN is the value that is not equal to itself.
  abbrev pub IsNumber : F → Type 0
  IsNumber x = f.eq x x ≡ true

  abbrev pub IsNan : F → Type 0
  IsNan x = f.eq x x ≡ false

  -- Neither NaN nor infinite: the difference of an infinite value with itself is NaN.
  abbrev pub IsFinite : F → Type 0
  IsFinite x = IsNumber x × (f.sub x x ≡ nought)

-- Comparisons. NaN is below nothing, and nothing is below it.
pub record OrderLaws (F : Type 0) ⦃f : Float F⦄ : Type 0 where
  pub lt_irrefl : (x : F) → f.lt x x ≡ false
  pub lt_trans : (x y z : F) → f.lt x y ≡ true → f.lt y z ≡ true → f.lt x z ≡ true
  pub lt_cotrans :
      (x y z : F) → f.lt x z ≡ true → IsNumber y → (f.lt x y ≡ true) ⊎ (f.lt y z ≡ true)
  pub eq_not_lt : (x y : F) → f.eq x y ≡ true → f.lt y x ≡ false
  pub lt_number : (x y : F) → f.lt x y ≡ true → f.eq x x ≡ true
  pub lt_number_right : (x y : F) → f.lt x y ≡ true → f.eq y y ≡ true
  -- Literals of up to fifteen digits keep their order, and a zero more at the end changes nothing.
  pub lt_lit :
      (m n d : ℕ) → m < 10 ^ 15 → n < 10 ^ 15 → d ≤ 6 → f.lt (f.lit m d) (f.lit n d) ≡ ltb m n
  pub lit_shift : (m d : ℕ) → d ≤ 5 → f.lit m d ≡ f.lit (m * 10) (suc d)
  pub lit_number : (m d : ℕ) → d ≤ 6 → f.eq (f.lit m d) (f.lit m d) ≡ true

-- Arithmetic at zero and at NaN.
pub record ArithLaws (F : Type 0) ⦃f : Float F⦄ : Type 0 where
  pub of_nat_zero : f.of_nat 0 ≡ f.lit 0 0
  pub of_nat_pos : (n : ℕ) → f.lt (f.lit 0 0) (f.of_nat (suc n)) ≡ true
  pub magnitude_lit : (m d : ℕ) → f.magnitude (f.lit m d) ≡ f.lit m d
  pub magnitude_nonneg : (x : F) → f.lt (f.magnitude x) (f.lit 0 0) ≡ false
  pub magnitude_number : (x : F) → IsNumber x → IsNumber (f.magnitude x)
  pub magnitude_nan : (x : F) → IsNan x → IsNan (f.magnitude x)
  pub add_zero_zero : f.add (f.lit 0 0) (f.lit 0 0) ≡ f.lit 0 0
  pub add_pos :
      (x y : F)
      → f.lt x (f.lit 0 0) ≡ false
      → IsNumber x
      → f.lt (f.lit 0 0) y ≡ true
      → f.lt (f.lit 0 0) (f.add x y) ≡ true
  pub div_zero : (y : F) → f.lt (f.lit 0 0) y ≡ true → f.div (f.lit 0 0) y ≡ f.lit 0 0
  pub sub_nan : (x y : F) → IsNan y → IsNan (f.sub x y)
  pub div_nan : (x y : F) → IsNan x → IsNan (f.div x y)
  pub round_nonneg :
      (x : F) (n : ℕ) → f.lt x (f.lit 0 0) ≡ false → f.lt (f.round x n) (f.lit 0 0) ≡ false
  pub lit_finite : (m d : ℕ) → m < 10 ^ 15 → f.sub (f.lit m d) (f.lit m d) ≡ f.lit 0 0
  pub round_zero : (n : ℕ) → f.round (f.lit 0 0) n ≡ f.lit 0 0

-- Values of a moderate size: what is neither below one literal nor above another is finite, and so is
-- what comes of it by rounding or by a product with a literal.
pub record FiniteLaws (F : Type 0) ⦃f : Float F⦄ : Type 0 where
  pub between_finite :
      (m n d : ℕ) (x : F)
      → m < 10 ^ 15
      → n < 10 ^ 15
      → d ≤ 6
      → IsNumber x
      → f.lt x (f.lit m d) ≡ false
      → f.lt (f.lit n d) x ≡ false
      → IsFinite x
  pub round_finite : (x : F) → IsFinite x → IsFinite (f.round x 2)
  -- a bound with one decimal is also one of the rounded value
  pub round_below :
      (n : ℕ) (x : F)
      → n < 10 ^ 15
      → f.lt x (f.lit 0 0) ≡ false
      → f.lt (f.lit n 1) x ≡ false
      → f.lt (f.lit n 1) (f.round x 2) ≡ false
  pub mul_finite :
      (m n : ℕ) (x : F)
      → m < 10 ^ 15
      → n < 10 ^ 15
      → IsFinite x
      → f.lt x (f.lit 0 0) ≡ false
      → f.lt (f.lit n 1) x ≡ false
      → IsFinite (f.mul x (f.lit m 1))

-- Printing a float and reading it back gives the same float.
pub record TextLaws (F : Type 0) ⦃f : Float F⦄ : Type 0 where
  pub parse-str : (x : F) → f.parse (f.str x) ≡ some x
  pub str-ne-empty : (x : F) → str_eq (f.str x) "" ≡ false
