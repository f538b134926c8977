-- ===== src/Streaming/RedisSink.antt =====
-- streaming/redis_sink.py: a batch of rows, written to Redis in one pipeline. How a row answers
-- `row["user_id"]` and `row.get(...)` is the class's of the rows: an interface.
pub mod Laws
use feature_store.Common.{
  ℕ, suc, ◌⋅◌, String, Bool, true, false, Option, none, some, List, [], ◌∷◌, ◌++◌, if◌then◌else◌,
}
use feature_store.Common.Dict.{Dict}
use feature_store.Common.Exec.{Exec, Result, ok, err, pure}
use feature_store.Common.Fallible.{◌>>=◌}
use feature_store.Float.{Float, nought}
use feature_store.Redis.{Redis, Command, hset, expire, sadd}
use feature_store.Tenacity.{Clock}
use feature_store.OnlineStore.Client.{or_now}

-- A row that `batch_df.collect()` gives.
pub record RowLike (R F : Type 0) : Type 0 where
  -- `row["user_id"]`
  pub user_id : R → Result String
  -- `row.get(column)`, with `none` for a column that is missing or null
  pub get : R → String → Result (Option F)

-- the columns of the payload, before the time
abbrev pub sink_columns : List String
sink_columns =
    "txn_count_5m" ∷ "avg_spend_1h" ∷ "session_activity_rate" ∷ "cart_abandon_ratio"
    ∷ "product_interaction_freq" ∷ "anomaly_score" ∷ []

module _ {F : Type 0} ⦃f : Float F⦄ where
  -- `row.get(column, 0.0) or 0.0`
  abbrev pub value_or_zero : Option F → F
  value_or_zero none = nought
  value_or_zero (some x) = if f.eq x nought then nought else x

module _ {R F : Type 0} ⦃f : Float F⦄ where
  -- the six texts of the payload, in order
  unfoldable pub sink_texts : RowLike R F → R → List String → Result (Dict String)
  sink_texts like row [] = ok []
  sink_texts like row (column ∷ columns) = do
    value ← like.get row column
    rest ← sink_texts like row columns
    ok ((column, f.str (value_or_zero value)) ∷ rest)

  -- the payload, with `row.get("computed_at") or time.time()` at its end
  unfoldable pub sink_payload : RowLike R F → R → F → Result (Dict String)
  sink_payload like row now = do
    texts ← sink_texts like row sink_columns
    at ← like.get row "computed_at"
    ok (texts ++ ("computed_at", f.str (or_now at now)) ∷ [])

  -- The loop that fills the pipeline, with the time at each turn; what a row raises leaves it
  -- before anything is sent.
  unfoldable pub sink_commands : RowLike R F → ℕ → (ℕ → F) → List R → Result (List Command)
  sink_commands like ttl now [] = ok []
  sink_commands like ttl now (row ∷ rows) = do
    user_id ← like.user_id row
    payload ← sink_payload like row (now 0)
    rest ← sink_commands like ttl (λ i. now (suc i)) rows
    let key = "features:" ⋅ user_id in
        ok (hset key payload ∷ expire key ttl ∷ sadd "index:active_users" user_id ∷ rest)

module _ {W R F : Type 0} ⦃r : Redis W⦄ ⦃f : Float F⦄ ⦃c : Clock W F⦄ where
  -- `write_features_to_redis`, from the collected rows on
  unfoldable pub write_features_to_redis : RowLike R F → ℕ → List R → Exec W (Unit {0})
  write_features_to_redis like ttl [] w = (ok tt, w)
  write_features_to_redis like ttl (row ∷ rows) w =
      elim (sink_commands like ttl (c.turn w) (row ∷ rows)) [
        | ok cs ↦ r.execute cs w
        | err e ↦ (err e, w)
      ]
