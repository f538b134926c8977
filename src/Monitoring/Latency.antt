-- ===== src/Monitoring/Latency.antt =====
-- monitoring/pages/02_latency_metrics.py: the benchmark loop, and the verdict on it.
use feature_store.Common.{
  ℕ, ◌+◌, ◌≡◌, arith, ◌⋅◌, ◌==◌, ◌||◌, String, List, [], ◌∷◌, ◌++◌, length, count, is_empty,
  if◌then◌else◌, length-append,
}
use feature_store.Common.Exec.{Result, ok, err}
use feature_store.Float.{Float, gt}
use feature_store.Tenacity.{Clock}
use feature_store.Monitoring.DataFetcher.{Http, HttpResponse}

pub record Benchmark (F : Type 0) : Type 0 where
  pub latencies : List F
  pub errors : ℕ

-- what the page says of the calls
pub data Verdict : Type 0 where
  no_success all_met : Verdict
  exceeded : ℕ → Verdict

module _ {J F : Type 0} where
  -- the figures with one call, which took `elapsed` milliseconds
  abbrev pub tally : F → Result (HttpResponse J) → Benchmark F → Benchmark F
  tally elapsed (err e) b = record b { errors = b.errors + 1 }
  tally elapsed (ok resp) b =
      if resp.status_code == 200 || resp.status_code == 404
      then record b { latencies = b.latencies ++ elapsed ∷ [] }
      else record b { errors = b.errors + 1 }

module _ {W J F : Type 0} ⦃f : Float F⦄ ⦃c : Clock W F⦄ (h : Http W J) where
  abbrev pub timed_call : String → String → Benchmark F → W → Benchmark F × W
  timed_call api_url uid b w =
      let (r, w') = h.get (api_url ⋅ "/features/" ⋅ uid) w in
      (tally (f.mul (f.sub (c.time w') (c.time w)) (f.of_nat 1000)) r b, w')

  pub benchmark : String → List String → Benchmark F → W → Benchmark F × W
  benchmark api_url [] b w = (b, w)
  benchmark api_url (uid ∷ user_ids) b w =
      let (b', w') = timed_call api_url uid b w in benchmark api_url user_ids b' w'

module _ {F : Type 0} ⦃f : Float F⦄ where
  abbrev pub above_sla : List F → ℕ
  above_sla = count (λ x. gt x (f.of_nat 50))

  -- the warning, the success and the error message of the page
  abbrev pub verdict : Benchmark F → Verdict
  verdict b =
      if is_empty b.latencies
      then no_success
      else if above_sla b.latencies == 0
      then all_met
      else exceeded (above_sla b.latencies)

-- how many calls have been made
abbrev pub calls : {F : Type 0} → Benchmark F → ℕ
calls b = length b.latencies + b.errors

calls-tally :
    {J F : Type 0} (elapsed : F) (r : Result (HttpResponse J)) (b : Benchmark F)
    → calls (tally elapsed r b) ≡ calls b + 1
calls-tally elapsed (err e) b = omega arith
calls-tally elapsed (ok resp) b = ground (arith, length-append b.latencies (elapsed ∷ []))

module _ {W J F : Type 0} ⦃f : Float F⦄ ⦃c : Clock W F⦄ (h : Http W J) where
  -- Every call of the benchmark is counted once, as a latency or as an error.
  pub calls-benchmark :
      (api_url : String) (user_ids : List String) (b : Benchmark F) (w : W)
      → calls (benchmark h api_url user_ids b w).0 ≡ calls b + length user_ids
  unfolding benchmark
  calls-benchmark api_url [] b w = omega arith
  calls-benchmark api_url (uid ∷ user_ids) b w =
      let (r, w') = h.get (api_url ⋅ "/features/" ⋅ uid) w in
      let elapsed = f.mul (f.sub (c.time w') (c.time w)) (f.of_nat 1000) in
      omega
        (arith, calls-benchmark api_url user_ids (tally elapsed r b) w', calls-tally elapsed r b)

-- The message that all calls met the target is shown where a call succeeded and none of those that
-- did took more than 50 milliseconds, however many calls failed.
verdict-all_met :
    {F : Type 0} ⦃f : Float F⦄ (b : Benchmark F) (n : ℕ)
    → verdict b ≡ all_met
    → (above_sla b.latencies ≡ 0) × (verdict (record b { errors = n }) ≡ all_met)
verdict-all_met b n h = (ground arith, h)
