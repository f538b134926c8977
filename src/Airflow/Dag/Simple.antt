-- ===== src/Airflow/Dag/Simple.antt =====
-- A scheduler that starts every task at once: a value of `Scheduler` at which its laws hold.
use feature_store.Common.{ℕ, zero, suc, ◌≡◌, refl}
use feature_store.Common.Exec.{Exec, Exn, Result, ok, err}
use feature_store.Airflow.Dag.{Scheduler, SchedulerLaws}

-- the result of an attempt, or what follows an exception
unfoldable pub or_again : {W A : Type 0} → (Exn → Exec W A) → Result A × W → Result A × W
or_again k (ok a, w) = (ok a, w)
or_again k (err e, w) = k e w

unfoldable pub attempts : {W A : Type 0} → ℕ → Exec W A → Exec W A
attempts zero m w = m w
attempts (suc n) m w = or_again (λ e. attempts n m) (m w)

module _ {W A : Type 0} (m : Exec W A) (w w' : W) where
  attempts_returns : (n : ℕ) (a : A) → m w ≡ (ok a, w') → attempts n m w ≡ (ok a, w')
  unfolding attempts or_again
  attempts_returns zero a h = h
  attempts_returns (suc n) a h = rw h refl

  attempts_again : (n : ℕ) (e : Exn) → m w ≡ (err e, w') → attempts (suc n) m w ≡ attempts n m w'
  unfolding attempts or_again
  attempts_again n e h = rw (h, or_again) refl

module _ {W : Type 0} where
  instance abbrev pub simple_scheduler : Scheduler W
  simple_scheduler = record { run = λ {A} n m. attempts n m; retry_delay = λ w. w; queue = λ w. w }

  pub simple-SchedulerLaws : SchedulerLaws W
  unfolding attempts
  simple-SchedulerLaws = record {
    run_returns = λ {A} n m w w' a h. attempts_returns m w w' n a h;
    run_again = λ {A} n m w w' e h. attempts_again m w w' n e h;
    run_fails = λ {A} m w w' e h. h;
  }
