-- ===== src/Float/Literals.antt =====
-- Consequences of the laws: the order of the literals in the code, and means of a positive count.
use Prim.Native.Nat.{◌^◌}
use feature_store.Common.{ℕ, zero, suc, ◌≤◌, ◌<◌, max, ◌≡◌, refl, ap, ◌∙◌, true, arith}
use feature_store.Float.{Float, nought, OrderLaws, ArithLaws}

module _ {F : Type 0} ⦃f : Float F⦄ where
  pub zero_shift : (order : OrderLaws F) (d : ℕ) → d ≤ 6 → f.lit 0 0 ≡ f.lit 0 d
  zero_shift order zero h = ap (λ n. f.lit 0 n) refl
  zero_shift order (suc d) h = zero_shift order d (omega arith) ∙ order.lit_shift 0 d (omega arith)

  -- `1e-6` is above zero.
  pub epsilon_pos : (order : OrderLaws F) → f.lt nought (f.lit 1 6) ≡ true
  epsilon_pos order =
      rw (zero_shift order 6 (omega arith))
        (order.lt_lit 0 1 6 (omega arith) (omega arith) (omega arith))

  -- `max(n, 1)` as a divisor is above zero.
  pub of_nat_max_pos : (laws : ArithLaws F) (n : ℕ) → f.lt nought (f.of_nat (max n 1)) ≡ true
  of_nat_max_pos laws zero = laws.of_nat_pos 0
  of_nat_max_pos laws (suc n) =
      let e : max (suc n) 1 ≡ suc n = omega arith in rw e (laws.of_nat_pos n)

  -- The literals of the severity thresholds, and zero, in their order.
  pub lit_pos :
      (order : OrderLaws F) (m d : ℕ)
      → suc m < 10 ^ 15
      → d ≤ 6
      → f.lt nought (f.lit (suc m) d) ≡ true
  lit_pos order m d h k =
      rw (zero_shift order d k) (order.lt_lit 0 (suc m) d (omega arith) h k ∙ ground arith)
