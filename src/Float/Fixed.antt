-- ===== src/Float/Fixed.antt =====
-- Numbers with six decimals, and NaN: a value of the interface `Float` at which its laws hold.
use Prim.Native.Char.{Char, code}
use mathlib.Core.Option
use text.Mathlib.TextLemmas.{cons-ne-nil}
use feature_store.Common.{
  str_eq, eq_iff, ℕ, zero, suc, ◌+◌, ◌*◌, ◌/◌, ◌%◌, ◌≤◌, String, ◌≡◌, refl, inl, inr, Bool, true,
  false, not, Option, none, some, arith, ltb, leb, ◌==◌, Bool-cases, if◌then◌else◌,
}
use feature_store.Float.{Float, IsNumber, IsFinite, OrderLaws, ArithLaws, FiniteLaws, TextLaws}
use feature_store.Float.Int.{ℤ, pos, negsuc, pos_part, ◌+ℤ◌, ◌-ℤ◌, ◌*ℤ◌, ltb_ℤ, eqb_ℤ, size}

-- A number is an integer count of millionths; `none` is NaN.
abbrev pub Fixed : Type 0
Fixed = Option ℤ

-- Millionths in one unit of the decimal `d`.
abbrev pub scale : ℕ → ℕ
scale zero = 1_000_000
scale (suc zero) = 100_000
scale (suc (suc zero)) = 10_000
scale (suc (suc (suc zero))) = 1_000
scale (suc (suc (suc (suc zero)))) = 100
scale (suc (suc (suc (suc (suc zero))))) = 10
scale _ = 1

abbrev lift₂ : (ℤ → ℤ → ℤ) → Fixed → Fixed → Fixed
lift₂ op (some a) (some b) = some (op a b)
lift₂ op _ _ = none

abbrev test₂ : (ℤ → ℤ → Bool) → Fixed → Fixed → Bool
test₂ p (some a) (some b) = p a b
test₂ p _ _ = false

-- The quotient of two counts by size, with the sign put back.
abbrev signed : Bool → ℕ → ℤ
signed true n = pos n
signed false zero = pos 0
signed false (suc n) = negsuc n

abbrev is_nonneg : ℤ → Bool
is_nonneg (pos n) = true
is_nonneg (negsuc n) = false

abbrev same_sign : ℤ → ℤ → Bool
same_sign (pos m) b = is_nonneg b
same_sign (negsuc m) b = not (is_nonneg b)

abbrev div_ℤ : ℤ → ℤ → ℤ
div_ℤ a b = signed (same_sign a b) (size a * 1_000_000 / size b)

-- A number in binary digits, the lowest first, and back.
unfoldable pub bits : ℕ → ℕ → String
bits zero n = String.[]
bits (suc k) n =
    let rest = bits k (n / 2) in
    if n == 0 then String.[] else if n % 2 == 1 then String.◌∷◌ "1" rest else String.◌∷◌ "0" rest

unfoldable pub value : String → ℕ
value String.[] = 0
value (String.◌∷◌ c s) = (if code c == b'1' then 1 else 0) + 2 * value s

value-bits : (k n : ℕ) → n ≤ k → value (bits k n) ≡ n
unfolding value bits
value-bits zero n h = omega arith
value-bits (suc k) n h = elim (Bool-cases (n == 0)) [
  | inl e ↦ rw (e, value) (ground arith)
  | inr e ↦ elim (Bool-cases (n % 2 == 1)) [
    | inl d ↦ rw (e, d, value) (ground (arith, value-bits k (n / 2)))
    | inr d ↦ rw (e, d, value) (ground (arith, value-bits k (n / 2)))
  ]
]

unfoldable pub print : Fixed → String
unfolding bits
print none = "nan"
print (some (pos n)) = String.◌∷◌ "+" (bits n n)
print (some (negsuc n)) = String.◌∷◌ "-" (bits n n)

unfoldable pub read : String → Option Fixed
unfolding value
read String.[] = none
read (String.◌∷◌ c s) =
    if code c == b'+'
    then some (some (pos (value s)))
    else if code c == b'-'
    then some (some (negsuc (value s)))
    else if code c == b'n'
    then some none
    else none

instance abbrev pub fixed_float : Float Fixed
fixed_float = record {
  lit = λ m d. some (pos (if leb d 6 then m * scale d else 0));
  of_nat = λ n. some (pos (n * 1_000_000));
  neg = lift₂ (λ a b. b -ℤ a) (some (pos 0));
  add = lift₂ ◌+ℤ◌;
  sub = lift₂ ◌-ℤ◌;
  mul = lift₂ (λ a b. div_ℤ (a *ℤ b) (pos 1_000_000_000_000));
  div = lift₂ div_ℤ;
  magnitude = Option.map (λ a. pos (size a));
  round = λ x d. Option.map (λ a. signed (is_nonneg a) (size a / scale d * scale d)) x;
  trunc = λ x. elim x [ none ↦ 0 | some a ↦ pos_part a / 1_000_000 ];
  lt = test₂ ltb_ℤ;
  eq = test₂ eqb_ℤ;
  str = print;
  parse = read;
}

parse_print : (x : Fixed) → read (print x) ≡ some x
unfolding print read
parse_print none = refl
parse_print (some (pos n)) = rw (value-bits n n (omega arith))
parse_print (some (negsuc n)) = rw (value-bits n n (omega arith))

ltb-scale : (m n d : ℕ) → ltb (m * scale d) (n * scale d) ≡ ltb m n
ltb-scale m n zero = ground arith
ltb-scale m n (suc zero) = ground arith
ltb-scale m n (suc (suc zero)) = ground arith
ltb-scale m n (suc (suc (suc zero))) = ground arith
ltb-scale m n (suc (suc (suc (suc zero)))) = ground arith
ltb-scale m n (suc (suc (suc (suc (suc zero))))) = ground arith
ltb-scale m n (suc (suc (suc (suc (suc (suc d)))))) = ground arith

scale_shift : (m d : ℕ) → d ≤ 5 → m * scale d ≡ m * 10 * scale (suc d)
scale_shift m zero h = omega arith
scale_shift m (suc zero) h = omega arith
scale_shift m (suc (suc zero)) h = omega arith
scale_shift m (suc (suc (suc zero))) h = omega arith
scale_shift m (suc (suc (suc (suc zero)))) h = omega arith
scale_shift m (suc (suc (suc (suc (suc d))))) h = let e : d ≡ 0 = omega arith in rw e (omega arith)

zero-div : (s : ℕ) → 0 / s * s ≡ 0
zero-div s = grind arith

pub Fixed-OrderLaws : OrderLaws Fixed
Fixed-OrderLaws = record {
  lt_irrefl = λ x. ground arith;
  lt_trans = λ x y z p q. ground arith;
  lt_cotrans = λ x y z p q. ground arith;
  eq_not_lt = λ x y p. ground arith;
  lt_number = λ x y p. ground arith;
  lt_number_right = λ x y p. ground arith;
  lt_lit = λ m n d hm hn hd. ground (arith, ltb-scale m n d);
  lit_shift = λ m d hd. ground (arith, scale_shift m d hd);
  lit_number = λ m d hd. ground arith;
}

sub_self : (n : ℕ) → ◌≡◌ {A = Fixed} (some (pos n -ℤ pos n)) (some (pos 0))
unfolding ◌-ℤ◌
sub_self n = ground arith

-- Rounding keeps the sign.
round_sign :
    (x : Fixed) (n : ℕ)
    → fixed_float.lt x (fixed_float.lit 0 0) ≡ false
    → fixed_float.lt (fixed_float.round x n) (fixed_float.lit 0 0) ≡ false
round_sign none n h = refl
round_sign (some (pos a)) n h = ground arith
round_sign (some (negsuc a)) n h = ground arith

pub Fixed-ArithLaws : ArithLaws Fixed
unfolding ◌+ℤ◌ ◌-ℤ◌
Fixed-ArithLaws = record {
  of_nat_zero = refl;
  of_nat_pos = λ n. ground arith;
  magnitude_lit = λ m d. ground arith;
  magnitude_nonneg = λ x. ground arith;
  magnitude_number = λ x h. ground arith;
  magnitude_nan = λ x h. ground arith;
  add_zero_zero = refl;
  add_pos = λ x y p q r. ground arith;
  div_zero = λ y p. ground arith;
  sub_nan = λ x y p. ground arith;
  div_nan = λ x y p. ground arith;
  round_nonneg = λ x n h. round_sign x n h;
  lit_finite = λ m d h. sub_self _;
  round_zero = λ n. ground (arith, zero-div (scale n));
}

some_finite : (a : ℤ) → IsFinite {F = Fixed} (some a)
unfolding ◌-ℤ◌
some_finite (pos n) = (ground arith, ground arith)
some_finite (negsuc n) = (ground arith, ground arith)

number_finite : (x : Fixed) → IsNumber x → IsFinite x
number_finite none h = absurd (ground arith)
number_finite (some a) h = some_finite a

round_number : (x : Fixed) → IsFinite x → IsFinite (fixed_float.round x 2)
round_number none (h, _) = absurd (ground arith)
round_number (some a) h = some_finite _

mul_number : (m : ℕ) (x : Fixed) → IsFinite x → IsFinite (fixed_float.mul x (fixed_float.lit m 1))
mul_number m none (h, _) = absurd (ground arith)
mul_number m (some a) h = some_finite _

-- Rounding down stays below.
div-mul-le : (n s : ℕ) → n / s * s ≤ n
div-mul-le n s = grind arith

round_stays :
    (n : ℕ) (x : Fixed)
    → fixed_float.lt x (fixed_float.lit 0 0) ≡ false
    → fixed_float.lt (fixed_float.lit n 1) x ≡ false
    → fixed_float.lt (fixed_float.lit n 1) (fixed_float.round x 2) ≡ false
round_stays n none h k = refl
round_stays n (some (pos a)) h k = ground (arith, div-mul-le a (scale 2))
round_stays n (some (negsuc a)) h k = absurd (ground arith)

pub Fixed-FiniteLaws : FiniteLaws Fixed
Fixed-FiniteLaws = record {
  between_finite = λ m n d x hm hn hd number a b. number_finite x number;
  round_finite = round_number;
  round_below = λ n x hn a b. round_stays n x a b;
  mul_finite = λ m n x hm hn h a b. mul_number m x h;
}

-- A text with a first character is not the empty one.
cons-ne-empty : (c : Char) (s : String) → str_eq (String.◌∷◌ c s) "" ≡ false
cons-ne-empty c s = elim (Bool-cases (str_eq (String.◌∷◌ c s) "")) [
  | inl e ↦ absurd (cons-ne-nil c s ((eq_iff (String.◌∷◌ c s) "").0 e))
  | inr e ↦ e
]

print-ne-empty : (x : Fixed) → str_eq (print x) "" ≡ false
unfolding print
print-ne-empty none = refl
print-ne-empty (some (pos n)) = cons-ne-empty "+" (bits n n)
print-ne-empty (some (negsuc n)) = cons-ne-empty "-" (bits n n)

pub Fixed-TextLaws : TextLaws Fixed
Fixed-TextLaws = record { parse-str = parse_print; str-ne-empty = print-ne-empty }
