-- ===== src/Spark/Rows.antt =====
-- Rows and windows: what the meaning of Spark's operations is stated with.
use mathlib.Core.Path.{subst}
use mathlib.Core.List.{Permᴰ}
use feature_store.Common.{
  ℕ, ◌+◌, ◌%◌, ◌≡◌, refl, sym, ap, ◌∙◌, arith, String, Bool, true, false, ◌&&◌, not, Option, none,
  some, List, [], ◌∷◌, ◌++◌, map, filter, count, any, length, All, str_eq, ltb, leb, ◌==◌,
  if◌then◌else◌, Bool-cases, inl, inr,
}

-- `window.start` and `window.end`, in microseconds since the epoch
pub record Window : Type 0 where
  pub start : ℕ
  pub end : ℕ

-- A row of an aggregation by user and window.
pub record Windowed (V : Type 0) : Type 0 where
  pub user_id : String
  pub window : Window
  pub value : V

abbrev pub same_window : Window → Window → Bool
same_window a b = a.start == b.start && a.end == b.end

abbrev pub in_window : Window → ℕ → Bool
in_window w t = leb w.start t && ltb t w.end

abbrev pub on_grid : ℕ → ℕ → Window → Bool
on_grid d slide w = w.start % slide == 0 && w.end == w.start + d

-- Two lists hold the same rows, as often, in any order.
abbrev pub SameRows : {A : Type 0} → List A → List A → Type 0
SameRows = Permᴰ

-- whether a row belongs to a group
abbrev pub in_group : {A : Type 0} → (A → String) → (A → List Window) → String → Window → A → Bool
in_group user ws u w x = str_eq (user x) u && any (same_window w) (ws x)

-- a row with each of its matches, or with none
abbrev pub with_matches : {A B : Type 0} → A → List B → List (A × Option B)
with_matches a [] = (a, none) ∷ []
with_matches a (b ∷ bs) = map (λ y. (a, some y)) (b ∷ bs)

unfoldable pub join_rows :
    {A B : Type 0} → (A → String) → (B → String) → List A → List B → List (A × Option B)
join_rows ka kb [] bs = []
join_rows ka kb (a ∷ as') bs =
    with_matches a (filter (λ b. str_eq (kb b) (ka a)) bs) ++ join_rows ka kb as' bs

abbrev pub sum : List ℕ → ℕ
sum [] = 0
sum (n ∷ ns) = n + sum ns

module _ {A : Type 0} where
  pub count-append : (p : A → Bool) (xs ys : List A) → count p (xs ++ ys) ≡ count p xs + count p ys
  count-append p [] ys = omega arith
  count-append p (x ∷ xs) ys = ground (arith, count-append p xs ys)

  pub count-filter :
      (p q : A → Bool) (xs : List A) → count p (filter q xs) ≡ count (λ x. q x && p x) xs
  count-filter p q [] = refl
  count-filter p q (x ∷ xs) = ground (arith, count-filter p q xs)

  pub length-eq-count : (xs : List A) → length xs ≡ count (λ x. true) xs
  length-eq-count [] = refl
  length-eq-count (x ∷ xs) = omega (arith, length-eq-count xs)

  -- Tests that agree on the rows hold of as many.
  pub count_ext : (p q : A → Bool) (xs : List A) → ((x : A) → p x ≡ q x) → count p xs ≡ count q xs
  count_ext p q [] h = refl
  count_ext p q (x ∷ xs) h = ground (arith, h x, count_ext p q xs h)

  pub any-eq-count : (p : A → Bool) (xs : List A) → any p xs ≡ ltb 0 (count p xs)
  any-eq-count p [] = refl
  any-eq-count p (x ∷ xs) = ground (arith, any-eq-count p xs)

  pub SameRows-count : (p : A → Bool) {xs ys : List A} → SameRows xs ys → count p xs ≡ count p ys
  SameRows-count p Permᴰ.nil = refl
  SameRows-count p (Permᴰ.cons e d) = ground (arith, ap p e, SameRows-count p d)
  SameRows-count p (Permᴰ.swap e d) = ground (arith, ap p e, ap p d)
  SameRows-count p (Permᴰ.trans d e) = SameRows-count p d ∙ SameRows-count p e

  pub same_rows : (xs : List A) → SameRows xs xs
  same_rows [] = Permᴰ.nil
  same_rows (x ∷ xs) = Permᴰ.cons refl (same_rows xs)

  pub flip_rows : {xs ys : List A} → SameRows xs ys → SameRows ys xs
  flip_rows Permᴰ.nil = Permᴰ.nil
  flip_rows (Permᴰ.cons e d) = Permᴰ.cons (sym e) (flip_rows d)
  flip_rows (Permᴰ.swap e d) = Permᴰ.swap (sym d) (sym e)
  flip_rows (Permᴰ.trans d e) = Permᴰ.trans (flip_rows e) (flip_rows d)

  pub chain_rows : {xs ys zs : List A} → SameRows xs ys → SameRows ys zs → SameRows xs zs
  chain_rows d e = Permᴰ.trans d e

  SameRows-keep :
      {a b : A} {xs ys : List A} (t : Bool)
      → a ≡ b
      → SameRows xs ys
      → SameRows (if t then a ∷ xs else xs) (if t then b ∷ ys else ys)
  SameRows-keep true e d = Permᴰ.cons e d
  SameRows-keep false e d = d

  swap-keep :
      {a b c d : A} (xs : List A) (t u : Bool)
      → a ≡ d
      → b ≡ c
      → SameRows
          (if t then a ∷ (if u then b ∷ xs else xs) else (if u then b ∷ xs else xs))
          (if u then c ∷ (if t then d ∷ xs else xs) else (if t then d ∷ xs else xs))
  swap-keep xs true true e d = Permᴰ.swap e d
  swap-keep xs true false e d = Permᴰ.cons e (same_rows xs)
  swap-keep xs false true e d = Permᴰ.cons d (same_rows xs)
  swap-keep xs false false e d = same_rows xs

  pub SameRows-filter :
      (p : A → Bool) {xs ys : List A} → SameRows xs ys → SameRows (filter p xs) (filter p ys)
  SameRows-filter p Permᴰ.nil = Permᴰ.nil
  SameRows-filter p (Permᴰ.cons {a} {b} {l₁} {l₂} e d) =
      subst
        (λ t.
          SameRows (if p a then a ∷ filter p l₁ else filter p l₁)
            (if t then b ∷ filter p l₂ else filter p l₂))
        (ap p e) (SameRows-keep (p a) e (SameRows-filter p d))
  SameRows-filter p (Permᴰ.swap {a} {b} {a'} {b'} {l} e d) =
      subst
        (λ t.
          SameRows (filter p (a ∷ b ∷ l)) (if t then a' ∷ filter p (b' ∷ l) else filter p (b' ∷ l)))
        (ap p d)
        (subst
          (λ t. SameRows (filter p (a ∷ b ∷ l)) (
            if p b
            then a' ∷ (if t then b' ∷ filter p l else filter p l)
            else (if t then b' ∷ filter p l else filter p l)))
          (ap p e) (swap-keep (filter p l) (p a) (p b) e d))
  SameRows-filter p (Permᴰ.trans d e) = Permᴰ.trans (SameRows-filter p d) (SameRows-filter p e)

  pub SameRows-length : {xs ys : List A} → SameRows xs ys → length xs ≡ length ys
  SameRows-length {xs} {ys} d =
      omega (arith, length-eq-count xs, length-eq-count ys, SameRows-count (λ x. true) d)

  pub SameRows-All : (P : A → Type 0) {xs ys : List A} → SameRows xs ys → All P xs → All P ys
  SameRows-All P Permᴰ.nil h = tt
  SameRows-All P (Permᴰ.cons e d) (h, hs) = (subst P e h, SameRows-All P d hs)
  SameRows-All P (Permᴰ.swap e d) (h, (g, hs)) = (subst P d g, (subst P e h, hs))
  SameRows-All P (Permᴰ.trans d e) h = SameRows-All P e (SameRows-All P d h)

  -- Rows that all satisfy a test: none of them fails it.
  pub All-eq-count :
      (p : A → Bool) (xs : List A) → All (λ x. p x ≡ true) xs → count (λ x. not (p x)) xs ≡ 0
  All-eq-count p [] h = refl
  All-eq-count p (x ∷ xs) (h, hs) = ground (arith, h, All-eq-count p xs hs)

pub count-map :
    {A : Type 0} {B : Type 0} (p : B → Bool) (g : A → B) (xs : List A)
    → count p (map g xs) ≡ count (λ x. p (g x)) xs
count-map p g [] = refl
count-map p g (x ∷ xs) = ground (arith, count-map p g xs)

pub SameRows-map :
    {A : Type 0} {B : Type 0} (g : A → B) {xs ys : List A}
    → SameRows xs ys
    → SameRows (map g xs) (map g ys)
SameRows-map g Permᴰ.nil = Permᴰ.nil
SameRows-map g (Permᴰ.cons e d) = Permᴰ.cons (ap g e) (SameRows-map g d)
SameRows-map g (Permᴰ.swap e d) = Permᴰ.swap (ap g e) (ap g d)
SameRows-map g (Permᴰ.trans d e) = Permᴰ.trans (SameRows-map g d) (SameRows-map g e)

module _ {A : Type 0} (P : A → Type 0) where
  pub All-filter : (p : A → Bool) (xs : List A) → All P xs → All P (filter p xs)
  All-filter p [] h = tt
  All-filter p (x ∷ xs) (h, hs) = elim (Bool-cases (p x)) [
    | inl e ↦
        subst (λ b. All P (if b then x ∷ filter p xs else filter p xs)) (sym e)
          (h, All-filter p xs hs)
    | inr e ↦
        subst (λ b. All P (if b then x ∷ filter p xs else filter p xs)) (sym e) (All-filter p xs hs)
  ]

module _ {A B : Type 0} (P : A → Type 0) {f : A → B} (Q : B → Type 0) where
  pub All-map : (xs : List A) → ((x : A) → P x → Q (f x)) → All P xs → All Q (map f xs)
  All-map [] step _ = tt
  All-map (x ∷ xs) step (p, rest) = (step x p, All-map xs step rest)

module _ {A : Type 0} {P : A → Type 0} {Q : A → Type 0} where
  pub All-mono : ((x : A) → P x → Q x) → (xs : List A) → All P xs → All Q xs
  All-mono step [] _ = tt
  All-mono step (x ∷ xs) (p, rest) = (step x p, All-mono step xs rest)
