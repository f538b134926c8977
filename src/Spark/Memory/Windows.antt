-- ===== src/Spark/Memory/Windows.antt =====
-- The windows that a time is in, for the data frames held in memory.
use native.Mathlib.Nat.{
  div-add-mod', mul-mod_left, mul-div_left, le-div_iff_mul-le, div-lt_iff_lt-mul, lt-mul-div-succ,
  mul_comm, add-mul,
}
use feature_store.Common.{
  ℕ, zero, suc, ◌+◌, ◌*◌, ◌/◌, ◌<◌, ◌%◌, ◌≡◌, refl, ap, arith, ◌&&◌, List, [], ◌∷◌, any, ltb, leb,
  ◌==◌, if◌then◌else◌, Bool-cases, inl, inr, ==_iff,
}
use feature_store.Spark.Rows.{Window, same_window, in_window, on_grid}

-- the multiples of `slide` from the `q`-th down, `n` of them at most
abbrev pub starts : ℕ → ℕ → ℕ → List ℕ
starts slide zero q = []
starts slide (suc n) zero = 0 ∷ []
starts slide (suc n) (suc q) = suc q * slide ∷ starts slide n q

abbrev pub from_starts : ℕ → ℕ → List ℕ → List Window
from_starts d t [] = []
from_starts d t (a ∷ as') =
    let rest = from_starts d t as' in
    if ltb t (a + d) then record { start = a; end = a + d } ∷ rest else rest

abbrev pub windows : ℕ → ℕ → ℕ → List Window
windows d slide t = from_starts d t (starts slide (suc (d / slide)) (t / slide))

any-from_starts :
    (d t : ℕ) (w : Window) (as' : List ℕ)
    → any (same_window w) (from_starts d t as')
      ≡ (any (λ a. w.start == a) as' && w.end == w.start + d && ltb t (w.start + d))
any-from_starts d t w [] = refl
any-from_starts d t w (a ∷ as') = ground (arith, any-from_starts d t w as')

multiple : (slide a q : ℕ) → 0 < slide → (a == q * slide) ≡ (a % slide == 0 && a / slide == q)
multiple slide a q h = elim (Bool-cases (a == q * slide)) [
  | inl e ↦
      let p = (==_iff a (q * slide)).0 e in
      ground (
        arith,
        ap (λ x. x % slide) p,
        ap (λ x. x / slide) p,
        mul-mod_left q slide,
        mul-div_left q h,
      )
  | inr e ↦ elim (Bool-cases (a / slide == q)) [
    | inl k ↦
        let r = ap (λ x. x * slide) ((==_iff (a / slide) q).0 k) in
        ground (arith, r, div-add-mod' a slide)
    | inr k ↦ ground arith
  ]
]

any-starts :
    (slide a n q : ℕ)
    → 0 < slide
    → any (λ b. a == b) (starts slide n q)
      ≡ (a % slide == 0 && leb (a / slide) q && ltb q (a / slide + n))
any-starts slide a zero q h = ground arith
any-starts slide a (suc n) zero h = ground (arith, multiple slide a 0 h)
any-starts slide a (suc n) (suc q) h =
    ground (arith, multiple slide a (suc q) h, any-starts slide a n q h)

-- A start on the grid that is within the length of a window of `t` is among those tried.
tried :
    (slide d t a : ℕ)
    → 0 < slide
    → (a % slide == 0
        && leb (a / slide) (t / slide)
        && ltb (t / slide) (a / slide + suc (d / slide))
        && ltb t (a + d))
      ≡ (a % slide == 0 && leb a t && ltb t (a + d))
tried slide d t a h =
    let q = a / slide in
    let lower = le-div_iff_mul-le {x = q} {y = t} h in
    let upper = div-lt_iff_lt-mul {x = t} {y = q + suc (d / slide)} h in
    ground (
      arith,
      lower,
      upper,
      lt-mul-div-succ d h,
      add-mul q (suc (d / slide)) slide,
      mul_comm slide (suc (d / slide)),
      div-add-mod' a slide,
    )

pub any-windows :
    (d slide t : ℕ) (w : Window)
    → 0 < slide
    → any (same_window w) (windows d slide t) ≡ (on_grid d slide w && in_window w t)
any-windows d slide t w h = ground (
  arith,
  any-from_starts d t w (starts slide (suc (d / slide)) (t / slide)),
  any-starts slide w.start (suc (d / slide)) (t / slide) h,
  tried slide d t w.start h,
)
