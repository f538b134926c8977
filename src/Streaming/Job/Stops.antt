-- ===== src/Streaming/Job/Stops.antt =====
-- The job on rows without `get`, as those of Spark are.
use feature_store.Common.{
  ℕ, ◌≡◌, ◌∙◌, refl, ap, arith, String, Bool, true, false, List, [], ◌∷◌, Bool-cases, inl, inr, any,
  is_empty, not, if◌then◌else◌,
}
use feature_store.Common.Exec.{Exn, Result, ok, err}
use feature_store.Float.{Float}
use feature_store.Redis.{Redis}
use feature_store.Tenacity.{Clock}
use feature_store.Spark.{Spark}
use feature_store.Delta.{Delta}
use feature_store.Streaming.Processor.{FullRow}
use feature_store.Streaming.DeltaSink.{StoredRow, write_features_to_delta}
use feature_store.Streaming.RedisSink.{RowLike, write_features_to_redis}
use feature_store.Streaming.RedisSink.Laws.{
  write_features_to_redis_no_get, write_features_to_redis_none,
}
use feature_store.Streaming.Job.{
  Job, Query, redis_sink, delta_sink, after_delta, take_batch, run_queries,
}

-- whether the writer of the server is to take a batch that has a row
abbrev pub has_row : {B R : Type 0} → (B → List R) → Query × B → Bool
has_row collect (redis_sink, b) = not (is_empty (collect b))
has_row collect (delta_sink, b) = false

module _ {V W B : Type 0} (j : Job V W B) where
  after_delta_online : (b : B) (x : Result (Unit {0}) × W) → (after_delta j b x).online ≡ j.online
  after_delta_online b (ok u, w) = refl
  after_delta_online b (err e, w) = refl

  if_online :
      (t : Bool) (k : Job V W B) → k.online ≡ j.online → (if t then k else j).online ≡ j.online
  if_online true k h = h
  if_online false k h = refl

module _ {V W F T R : Type 0} ⦃r : Redis V⦄ ⦃f : Float F⦄ ⦃c : Clock V F⦄ (s : Spark F)
    (d : Delta W (StoredRow F) T s.DataFrame) (like : RowLike R F)
    (collect : s.DataFrame (FullRow F) → List R) (ttl : ℕ) where
  take_stopped :
      (q : Query) (b : s.DataFrame (FullRow F)) (j : Job V W (s.DataFrame (FullRow F)))
      → j.running ≡ false
      → take_batch s d like collect ttl q b j ≡ j
  unfolding take_batch
  take_stopped redis_sink b j h = ground arith
  take_stopped delta_sink b j h = ground arith

  -- When the job has ended, nothing changes any more.
  stopped :
      (es : List (Query × s.DataFrame (FullRow F))) (j : Job V W (s.DataFrame (FullRow F)))
      → j.running ≡ false
      → run_queries s d like collect ttl es j ≡ j
  unfolding run_queries
  stopped [] j h = refl
  stopped ((q, b) ∷ es) j h =
      ap (run_queries s d like collect ttl es) (take_stopped q b j h) ∙ stopped es j h

  delta_take_online :
      (b : s.DataFrame (FullRow F)) (j : Job V W (s.DataFrame (FullRow F)))
      → (take_batch s d like collect ttl delta_sink b j).online ≡ j.online
  unfolding take_batch
  delta_take_online b j =
      let x = write_features_to_delta s d b j.offline in
      if_online j j.running (after_delta j b x) (after_delta_online j b x)

  module _ (e : Exn) (named : (x : R) → (u : String) × (like.user_id x ≡ ok u))
      (no_get : (x : R) (column : String) → like.get x column ≡ err e) where
    redis_take :
        (b : s.DataFrame (FullRow F)) (j : Job V W (s.DataFrame (FullRow F))) (xs : List R)
        → collect b ≡ xs
        → ((take_batch s d like collect ttl redis_sink b j).online ≡ j.online)
          × (not (is_empty xs) ≡ true
              → (take_batch s d like collect ttl redis_sink b j).running ≡ false)
    unfolding take_batch
    redis_take b j [] h =
        let wrote =
          ap (λ ys. write_features_to_redis like ttl ys j.online) h
          ∙ write_features_to_redis_none like ttl j.online in
        (ground (arith, wrote), λ t. cc)
    redis_take b j (x ∷ xs) h =
        let wrote =
          ap (λ ys. write_features_to_redis like ttl ys j.online) h
          ∙ write_features_to_redis_no_get like e ttl x xs j.online named no_get in
        (ground (arith, wrote), λ t. ground (arith, wrote))

    take_online :
        (q : Query) (b : s.DataFrame (FullRow F)) (j : Job V W (s.DataFrame (FullRow F)))
        → (take_batch s d like collect ttl q b j).online ≡ j.online
    take_online redis_sink b j = (redis_take b j (collect b) refl).0
    take_online delta_sink b j = delta_take_online b j

    take_ends :
        (q : Query) (b : s.DataFrame (FullRow F)) (j : Job V W (s.DataFrame (FullRow F)))
        → has_row collect (q, b) ≡ true
        → (take_batch s d like collect ttl q b j).running ≡ false
    take_ends redis_sink b j h = (redis_take b j (collect b) refl).1 h
    take_ends delta_sink b j h = cc

    -- If the rows have no `get`, then whatever batches the queries take, no batch changes the
    -- server, and the job has ended once its writer has been given a batch with a row.
    pub run_queries_no_get :
        (es : List (Query × s.DataFrame (FullRow F))) (j : Job V W (s.DataFrame (FullRow F)))
        → ((run_queries s d like collect ttl es j).online ≡ j.online)
          × (any (has_row collect) es ≡ true
              → (run_queries s d like collect ttl es j).running ≡ false)
    unfolding run_queries
    run_queries_no_get [] j = (refl, λ none. cc)
    run_queries_no_get ((q, b) ∷ es) j =
        let k = take_batch s d like collect ttl q b j in
        let (same, ends) = run_queries_no_get es k in
        (
          same ∙ take_online q b j,
          λ found. elim (Bool-cases (has_row collect (q, b))) [
            | inl now ↦
                let halted = take_ends q b j now in
                ap (λ i. i.running) (stopped es k halted) ∙ halted
            | inr later ↦ ends (ground arith)
          ],
        )
