-- ===== src/Tenacity.antt =====
-- The clock (`time.time()`), and the `retry` decorator of the package tenacity: what the code
-- calls, and the documented behaviour of a retried call, attempt by attempt.
pub mod Simple
use feature_store.Common.{ℕ, suc, ◌≡◌, Bool, true, false, if◌then◌else◌}
use feature_store.Common.Exec.{Exec, Exn, ok, err, retry_error}

pub record Clock (W F : Type 0) : Type 0 where
  pub time : W → F
  -- what it gives in each turn of a loop that starts in a world
  pub turn : W → ℕ → F

-- `retry attempts retryable reraise m` is `m` under the decorator, with `attempts` for the
-- `stop_after_attempt`, and a test for the exceptions that are tried again.
pub record Tenacity (W : Type 0) : Type 1 where
  pub retry : {A : Type 0} → ℕ → (Exn → Bool) → Bool → Exec W A → Exec W A
  -- the time that passes between two attempts
  pub wait : W → W

pub record TenacityLaws (W : Type 0) ⦃t : Tenacity W⦄ : Type 1 where
  pub retry_returns :
      {A : Type 0} (n : ℕ) (p : Exn → Bool) (re : Bool) (m : Exec W A) (w w' : W) (a : A)
      → m w ≡ (ok a, w')
      → t.retry (suc n) p re m w ≡ (ok a, w')
  pub retry_raises :
      {A : Type 0} (n : ℕ) (p : Exn → Bool) (re : Bool) (m : Exec W A) (w w' : W) (e : Exn)
      → m w ≡ (err e, w')
      → p e ≡ false
      → t.retry (suc n) p re m w ≡ (err e, w')
  pub retry_again :
      {A : Type 0} (n : ℕ) (p : Exn → Bool) (re : Bool) (m : Exec W A) (w w' : W) (e : Exn)
      → m w ≡ (err e, w')
      → p e ≡ true
      → t.retry (suc (suc n)) p re m w ≡ t.retry (suc n) p re m (t.wait w')
  pub retry_gives_up :
      {A : Type 0} (p : Exn → Bool) (re : Bool) (m : Exec W A) (w w' : W) (e : Exn)
      → m w ≡ (err e, w')
      → p e ≡ true
      → t.retry 1 p re m w ≡ (err (if re then e else retry_error), w')
