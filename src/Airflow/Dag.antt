-- ===== src/Airflow/Dag.antt =====
-- How Airflow runs the tasks of the graphs in airflow/dags: the scheduler, an interface, with the
-- documented behaviour of `retries` in the arguments of a task.
pub mod Simple
use feature_store.Common.{ℕ, zero, suc, ◌≡◌, sym, ◌∙◌, inl, inr}
use feature_store.Common.Exec.{Exec, Exn, ok, err, Exec-cases}

-- `run retries m` is the task with the callable `m`. Before a task starts, and before it starts
-- again, time passes in which others may change the world.
pub record Scheduler (W : Type 0) : Type 1 where
  pub run : {A : Type 0} → ℕ → Exec W A → Exec W A
  pub retry_delay : W → W
  pub queue : W → W

pub record SchedulerLaws (W : Type 0) ⦃s : Scheduler W⦄ : Type 1 where
  pub run_returns :
      {A : Type 0} (retries : ℕ) (m : Exec W A) (w w' : W) (a : A)
      → m w ≡ (ok a, w')
      → s.run retries m w ≡ (ok a, w')
  pub run_again :
      {A : Type 0} (retries : ℕ) (m : Exec W A) (w w' : W) (e : Exn)
      → m w ≡ (err e, w')
      → s.run (suc retries) m w ≡ s.run retries m (s.retry_delay w')
  pub run_fails :
      {A : Type 0} (m : Exec W A) (w w' : W) (e : Exn)
      → m w ≡ (err e, w')
      → s.run 0 m w ≡ (err e, w')

module _ {W A : Type 0} ⦃s : Scheduler W⦄ where
  -- a task of a graph, from the end of the task before it
  abbrev pub task : ℕ → Exec W A → Exec W A
  task retries m w = s.run retries m (s.queue w)

module _ {W A : Type 0} ⦃s : Scheduler W⦄ (laws : SchedulerLaws W) where
  run-returned :
      (retries : ℕ) (m : Exec W A) (w w' : W) (a : A)
      → s.run retries m w ≡ (ok a, w')
      → (v : W) × (m v ≡ (ok a, w'))
  run-returned zero m w w' a h = elim (Exec-cases (m w)) [
    | inl (b, v, e) ↦ (w, cc (laws.run_returns 0 m w v b e))
    | inr (x, v, e) ↦ cc (laws.run_fails m w v x e)
  ]
  run-returned (suc n) m w w' a h = elim (Exec-cases (m w)) [
    | inl (b, v, e) ↦ (w, cc (laws.run_returns (suc n) m w v b e))
    | inr (x, v, e) ↦ run-returned n m (s.retry_delay v) w' a (sym (laws.run_again n m w v x e) ∙ h)
  ]

  -- What a task that succeeds has returned, its callable returned at one attempt.
  pub task-returned :
      (retries : ℕ) (m : Exec W A) (w w' : W) (a : A)
      → task retries m w ≡ (ok a, w')
      → (v : W) × (m v ≡ (ok a, w'))
  task-returned retries m w w' a h = run-returned retries m (s.queue w) w' a h
