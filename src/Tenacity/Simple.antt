-- ===== src/Tenacity/Simple.antt =====
-- A decorator that tries again at once: a value of `Tenacity` at which its laws hold; and what
-- the laws give for any number of attempts.
use feature_store.Common.{
  ℕ, zero, suc, ◌≡◌, sym, ◌∙◌, Bool, true, false, inl, inr, if◌then◌else◌, Bool-cases,
}
use feature_store.Common.Exec.{Exec, Exn, Result, ok, err, retry_error, Exec-cases}
use feature_store.Tenacity.{Tenacity, TenacityLaws}

-- A call that returns under the decorator returned at one of its attempts.
pub retry-returned :
    {W A : Type 0} ⦃t : Tenacity W⦄ (laws : TenacityLaws W) (n : ℕ) (p : Exn → Bool) (re : Bool)
    (m : Exec W A) (w w' : W) (a : A)
    → t.retry (suc n) p re m w ≡ (ok a, w')
    → (v : W) × (m v ≡ (ok a, w'))
retry-returned laws zero p re m w w' a h = elim (Exec-cases (m w)) [
  | inl (b, v, e) ↦ (w, cc (laws.retry_returns zero p re m w v b e))
  | inr (x, v, e) ↦ elim (Bool-cases (p x)) [
    | inl again ↦ cc (laws.retry_gives_up p re m w v x e again)
    | inr stop ↦ cc (laws.retry_raises zero p re m w v x e stop)
  ]
]
retry-returned laws (suc n) p re m w w' a h = elim (Exec-cases (m w)) [
  | inl (b, v, e) ↦ (w, cc (laws.retry_returns (suc n) p re m w v b e))
  | inr (x, v, e) ↦ elim (Bool-cases (p x)) [
    | inl again ↦
        retry-returned laws n p re m _ w' a (sym (laws.retry_again n p re m w v x e again) ∙ h)
    | inr stop ↦ cc (laws.retry_raises (suc n) p re m w v x e stop)
  ]
]

-- What follows an attempt: its result, or what comes after an exception that is tried again.
unfoldable pub settle :
    {W A : Type 0} → (Exn → Bool) → (Exn → Exec W A) → Result A × W → Result A × W
settle p k (ok a, w) = (ok a, w)
settle p k (err e, w) = elim (p e) [ true ↦ k e w | false ↦ (err e, w) ]

unfoldable pub attempt : {W A : Type 0} → ℕ → (Exn → Bool) → Bool → Exec W A → Exec W A
unfolding settle
attempt zero p re m w = m w
attempt (suc zero) p re m w = settle p (λ e v. (err (if re then e else retry_error), v)) (m w)
attempt (suc (suc n)) p re m w = settle p (λ e. attempt (suc n) p re m) (m w)

module _ {W A : Type 0} (p : Exn → Bool) (k : Exn → Exec W A) where
  settle_again :
      (x : Result A × W) (e : Exn) (w : W) → x ≡ (err e, w) → p e ≡ true → settle p k x ≡ k e w
  unfolding settle
  settle_again x e w h i = rw h (rw (i, settle))

  settle_stops :
      (x : Result A × W) (e : Exn) (w : W)
      → x ≡ (err e, w)
      → p e ≡ false
      → settle p k x ≡ (err e, w)
  unfolding settle
  settle_stops x e w h i = rw h (rw (i, settle))

  settle_returns : (x : Result A × W) (a : A) (w : W) → x ≡ (ok a, w) → settle p k x ≡ (ok a, w)
  unfolding settle
  settle_returns x a w h = rw h

module _ {W A : Type 0} (p : Exn → Bool) (re : Bool) (m : Exec W A) (w w' : W) where
  attempt_returns : (n : ℕ) (a : A) → m w ≡ (ok a, w') → attempt (suc n) p re m w ≡ (ok a, w')
  unfolding attempt
  attempt_returns zero a h = settle_returns p _ (m w) a w' h
  attempt_returns (suc n) a h = settle_returns p _ (m w) a w' h

  attempt_raises :
      (n : ℕ) (e : Exn) → m w ≡ (err e, w') → p e ≡ false → attempt (suc n) p re m w ≡ (err e, w')
  unfolding attempt
  attempt_raises zero e h i = settle_stops p _ (m w) e w' h i
  attempt_raises (suc n) e h i = settle_stops p _ (m w) e w' h i

module _ {W : Type 0} where
  instance abbrev pub simple_tenacity : Tenacity W
  simple_tenacity = record { retry = λ {A} n p re m. attempt n p re m; wait = λ w. w }

  pub simple-TenacityLaws : TenacityLaws W
  unfolding attempt
  simple-TenacityLaws = record {
    retry_returns = λ {A} n p re m w w' a h. attempt_returns p re m w w' n a h;
    retry_raises = λ {A} n p re m w w' e h k. attempt_raises p re m w w' n e h k;
    retry_again = λ {A} n p re m w w' e h k. settle_again p _ (m w) e w' h k;
    retry_gives_up = λ {A} p re m w w' e h k. settle_again p _ (m w) e w' h k;
  }
